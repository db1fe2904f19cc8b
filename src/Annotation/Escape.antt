-- ===== src/Annotation/Escape.antt =====
-- What `mprofile_get_annotation` of mprofile/record.c makes of an annotation.
use ossl_scripts.Base.{
  [], zero, suc, some, refl, ◌∷◌, ◌≡◌, ◌++◌, ℕ, List, ◌≤◌, arith, take, replicate, All, ap, ◌≢◌,
  ==_of_ne, ◌∙◌, sym,
}
use ossl_scripts.Annotation.{escape, get_annotation, quote, backslash}

escape-quote : (room : ℕ) (ys : List ℕ) → escape room (quote ∷ ys) ≡ replicate room backslash
unfolding escape
escape-quote zero ys = refl
escape-quote (suc room) ys = ap (λ (l : List ℕ). backslash ∷ l) (escape-quote room ys)

escape-plain : (room : ℕ) (xs : List ℕ) → All (λ c. c ≢ quote) xs → escape room xs ≡ take room xs
unfolding escape
escape-plain zero xs plain = refl
escape-plain (suc room) [] plain = refl
escape-plain (suc room) (x ∷ xs) (ne, plain) =
    rw (==_of_ne x quote ne) (ap (λ (l : List ℕ). x ∷ l) (escape-plain room xs plain))

take-replicate : (room n b : ℕ) → room ≤ n → take room (replicate n b) ≡ replicate room b
take-replicate zero n b h = refl
take-replicate (suc room) zero b h = absurd (omega arith)
take-replicate (suc room) (suc n) b h =
    ap (λ (l : List ℕ). b ∷ l) (take-replicate room n b (omega arith))

escape-first :
    (room n : ℕ) (xs ys : List ℕ)
    → room ≤ n
    → All (λ c. c ≢ quote) xs
    → escape room (xs ++ quote ∷ ys) ≡ take room (xs ++ replicate n backslash)
unfolding escape
escape-first room n [] ys h plain = escape-quote room ys ∙ sym (take-replicate room n backslash h)
escape-first zero n (x ∷ xs) ys h plain = refl
escape-first (suc room) n (x ∷ xs) ys h (ne, plain) =
    rw (==_of_ne x quote ne)
      (ap (λ (l : List ℕ). x ∷ l) (escape-first room n xs ys (omega arith) plain))

-- An annotation without a quotation mark is cut to 511 bytes, and nothing else.
pub get_annotation-plain :
    (xs : List ℕ) → All (λ c. c ≢ quote) xs → get_annotation (some xs) ≡ take 511 xs
unfolding get_annotation
get_annotation-plain xs plain = escape-plain 511 xs plain

-- From the first quotation mark on an annotation is lost: backslashes fill the buffer, whatever
-- follows.
pub get_annotation-quote :
    (xs ys : List ℕ)
    → All (λ c. c ≢ quote) xs
    → get_annotation (some (xs ++ quote ∷ ys)) ≡ take 511 (xs ++ replicate 511 backslash)
unfolding get_annotation
get_annotation-quote xs ys plain = escape-first 511 511 xs ys (omega arith) plain
