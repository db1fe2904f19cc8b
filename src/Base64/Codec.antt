-- ===== src/Base64/Codec.antt =====
-- What base64.so/base64.c makes of a text, given what OpenSSL documents of BIO.
use ossl_scripts.Base.{
  [], zero, suc, none, some, true, false, refl, ◌∷◌, ◌≡◌, ◌<◌, ◌≤◌, ◌^◌, ℕ, List, Option, arith,
  drop, length, take, ◌∙◌, ap, le→ltb,
}
use ossl_scripts.Base64.{
  Bio, is_some_read, read_result, base64_encode, base64_decode, scratch_size, Coded,
}

-- The bytes that wait in front of the reader, and what happens to them: a read takes as many as it has
-- room for, and has a negative answer or none when nothing waits.
abbrev Reads : {A : Type 0} → (A → ℕ → Option (List ℕ) × A) → (A → List ℕ) → Type 0
Reads {A} read waiting =
    (c : A) (n : ℕ)
    → (waiting (read c n).1 ≡ drop n (waiting c))
      × (0 < length (waiting c) → 0 < n → (read c n).0 ≡ some (take n (waiting c)))
      × (waiting c ≡ [] → is_some_read (read c n).0 ≡ false)

-- What the documentation says: both chains can be made, a write takes all bytes, and what can be read
-- behind a flush is the encoded text; the filter gives the decoded text back.
pub record IsBase64 (bio : Bio) (encoded decoded : List ℕ → List ℕ) : Type 0 where
  pub waiting_mem : bio.Chain → List ℕ
  pub waiting_base64 : bio.Chain → List ℕ
  pub reads_mem : Reads bio.read_mem waiting_mem
  pub reads_base64 : Reads bio.read_base64 waiting_base64
  pub encoder : bio.Chain
  pub has_encoder : bio.new_encoder ≡ some encoder
  pub writes : (text : List ℕ) → (bio.write encoder text).0 ≡ some (length text)
  pub flushes : (text : List ℕ) → waiting_mem (bio.flush (bio.write encoder text).1) ≡ encoded text
  pub decoder : List ℕ → bio.Chain
  pub has_decoder : (text : List ℕ) → bio.new_decoder text ≡ some (decoder text)
  pub decodes : (text : List ℕ) → waiting_base64 (decoder text) ≡ decoded text

take_all : {A : Type 0} (n : ℕ) (xs : List A) → length xs ≤ n → take n xs ≡ xs
take_all zero [] h = refl
take_all zero (x ∷ xs) h = absurd (omega arith)
take_all (suc n) [] h = refl
take_all (suc n) (x ∷ xs) h = ap (λ l. x ∷ l) (take_all n xs (omega arith))

drop_all : {A : Type 0} (n : ℕ) (xs : List A) → length xs ≤ n → drop n xs ≡ []
drop_all zero [] h = refl
drop_all zero (x ∷ xs) h = absurd (omega arith)
drop_all (suc n) [] h = refl
drop_all (suc n) (x ∷ xs) h = drop_all n xs (omega arith)

length-drop : {A : Type 0} (n : ℕ) (xs : List A) → n < length xs → 0 < length (drop n xs)
length-drop zero xs h = h
length-drop (suc n) [] h = absurd (omega arith)
length-drop (suc n) (x ∷ xs) h = length-drop n xs (omega arith)

is_some-take :
    (n : ℕ) (xs : List ℕ) → 0 < n → 0 < length xs → is_some_read (some (take n xs)) ≡ true
is_some-take zero xs pos some_bytes = absurd (omega arith)
is_some-take (suc n) [] pos some_bytes = absurd (omega arith)
is_some-take (suc n) (x ∷ xs) pos some_bytes = refl

-- two reads of which the first has room for everything
Reads-all :
    {A : Type 0} (read : A → ℕ → Option (List ℕ) × A) (waiting : A → List ℕ) (c : A) (n : ℕ)
    → Reads read waiting
    → 0 < length (waiting c)
    → length (waiting c) ≤ n
    → read_result (read c n).0 (is_some_read (read (read c n).1 scratch_size).0)
      ≡ record { rv = some (length (waiting c)); out = waiting c }
Reads-all read waiting c n reads pos fits =
    let (rest, first, none_left) = reads c n in
    let second = reads (read c n).1 scratch_size in
    rw
      (
        first pos (omega arith),
        second.2 (rest ∙ drop_all n (waiting c) fits),
        take_all n (waiting c) fits,
      )
      refl

-- two reads of which the first has too little room
Reads-part :
    {A : Type 0} (read : A → ℕ → Option (List ℕ) × A) (waiting : A → List ℕ) (c : A) (n : ℕ)
    → Reads read waiting
    → n < length (waiting c)
    → 0 < n
    → (read_result (read c n).0 (is_some_read (read (read c n).1 scratch_size).0)).rv ≡ none
Reads-part read waiting c n reads short pos =
    let (rest, first, none_left) = reads c n in
    let second = reads (read c n).1 scratch_size in
    let left : 0 < length (waiting (read c n).1) = rw rest (length-drop n (waiting c) short) in
    rw
      (
        first (omega arith) pos,
        second.1 left (omega arith),
        is_some-take scratch_size (waiting (read c n).1) (omega arith) left,
      )
      refl

module _ (bio : Bio) (encoded decoded : List ℕ → List ℕ) (ok : IsBase64 bio encoded decoded) where
  encode_lem :
      (text : List ℕ) (size : ℕ)
      → base64_encode bio text size
        ≡ read_result (bio.read_mem (bio.flush (bio.write ok.encoder text).1) size).0 (
            is_some_read
              (bio.read_mem
                (bio.read_mem (bio.flush (bio.write ok.encoder text).1) size).1
                scratch_size).0)
  unfolding base64_encode
  encode_lem text size =
      rw (ok.has_encoder, ok.writes text, le→ltb (length text) (length text) (omega arith)) refl

  -- OpenSSL does as documented and can make both chains, and the text and its encoding are not empty.
  -- The encoding fits the first buffer, the text fits the second one, and both buffers are smaller than
  -- 2 ^ 31 bytes, so that every size is the same as an `int`. Then the text is encoded and the length of
  -- the encoding returned, and the decoder makes the text of it again and returns its length.
  pub base64_decode-base64_encode :
      (text : List ℕ) (size size' : ℕ)
      → decoded (encoded text) ≡ text
      → 0 < length (encoded text)
      → length (encoded text) ≤ size
      → size < 2 ^ 31
      → 0 < length text
      → length text ≤ size'
      → size' < 2 ^ 31
      → (base64_encode bio text size
          ≡ record { rv = some (length (encoded text)); out = encoded text })
        × (base64_decode bio (base64_encode bio text size).out size'
            ≡ record { rv = some (length text); out = text })
  unfolding base64_decode
  base64_decode-base64_encode text size size' back pos fits small pos' fits' small' =
      let c = bio.flush (bio.write ok.encoder text).1 in
      let e : base64_encode bio text size
          ≡ record { rv = some (length (encoded text)); out = encoded text } =
        encode_lem text size
        ∙ Reads-all bio.read_mem ok.waiting_mem c size ok.reads_mem (rw (ok.flushes text) pos)
            (rw (ok.flushes text) fits)
        ∙ rw (ok.flushes text) refl in
      let waits : ok.waiting_base64 (ok.decoder (encoded text)) ≡ text =
        ok.decodes (encoded text) ∙ back in
      (
        e,
        rw (e, ok.has_decoder (encoded text))
            (Reads-all bio.read_base64 ok.waiting_base64 (ok.decoder (encoded text)) size'
                ok.reads_base64 (rw waits pos') (rw waits fits')
              ∙ rw waits refl),
      )

  -- OpenSSL does as documented and can make the chain, the text and the buffer are smaller than 2 ^ 31
  -- bytes, so that their sizes are the same as an `int`, and the buffer has room for a byte. If the
  -- encoding does not fit the buffer, `base64Encode` returns -1.
  pub base64_encode-short :
      (text : List ℕ) (size : ℕ)
      → length text < 2 ^ 31
      → 0 < size
      → size < 2 ^ 31
      → size < length (encoded text)
      → (base64_encode bio text size).rv ≡ none
  base64_encode-short text size small pos small' short =
      let c = bio.flush (bio.write ok.encoder text).1 in
      ap (λ (r : Coded). r.rv) (encode_lem text size)
      ∙ Reads-part bio.read_mem ok.waiting_mem c size ok.reads_mem (rw (ok.flushes text) short) pos
