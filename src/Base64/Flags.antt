-- ===== src/Base64/Flags.antt =====
-- What the option parsers of base64.so/explicit.c accept.
use ossl_scripts.Base.{
  [], some, refl, ◌∷◌, ◌≡◌, ◌++◌, ℕ, List, arith, All, map, ◌≢◌, ==_of_ne, ==_refl, ◌∙◌, true,
  false, ◌==◌, Bool, ◌&&◌, ◌⊎◌, inl, inr, Bool-cases, ==_iff,
}
use ossl_scripts.Base64.Words.{
  parse_flags, last_flag, pieces, word_now, name_to_flag, Dlfcn, parse_words, word_lazy, checked,
  word_global, word_local, is_nil, parsed, exclusive,
}
use Prim.Native.Nat.{bit_or, bit_and}

-- a word as it stands on the command line
pub data Flag : Type 0 where
  now : Flag
  lazy : Flag
  global : Flag
  local : Flag

abbrev pub spelled : Flag → List ℕ
spelled now = word_now
spelled lazy = word_lazy
spelled global = word_global
spelled local = word_local

abbrev pub value : Dlfcn → Flag → ℕ
value d now = d.rtld_now
value d lazy = d.rtld_lazy
value d global = d.rtld_global
value d local = d.rtld_local

-- words with a separator between them
abbrev pub join : (sep : ℕ) → List ℕ → List (List ℕ) → List ℕ
join sep word [] = word
join sep word (next ∷ rest) = word ++ sep ∷ join sep next rest

-- the word is free of the separator
abbrev pub Lacks : (sep : ℕ) → List ℕ → Type 0
Lacks sep = All (λ c. c ≢ sep)

pub pieces-last : (sep : ℕ) (word : List ℕ) → Lacks sep word → pieces sep word ≡ (word, [])
unfolding pieces
pieces-last sep [] l = refl
pieces-last sep (c ∷ cs) l = rw (pieces-last sep cs l.1, ==_of_ne c sep l.0) refl

pieces-cons :
    (sep : ℕ) (word rest : List ℕ)
    → Lacks sep word
    → pieces sep (word ++ sep ∷ rest) ≡ (word, (pieces sep rest).0 ∷ (pieces sep rest).1)
unfolding pieces
pieces-cons sep [] rest l = rw (==_refl sep) refl
pieces-cons sep (c ∷ cs) rest l = rw (pieces-cons sep cs rest l.1, ==_of_ne c sep l.0) refl

-- Words free of the separator come back from the text that joins them.
pub pieces-join :
    (sep : ℕ) (word : List ℕ) (rest : List (List ℕ))
    → Lacks sep word
    → All (Lacks sep) rest
    → pieces sep (join sep word rest) ≡ (word, rest)
pieces-join sep word [] l ls = pieces-last sep word l
pieces-join sep word (next ∷ rest) l ls =
    pieces-cons sep word (join sep next rest) l ∙ rw (pieces-join sep next rest ls.0 ls.1) refl

spelled-Lacks : (f : Flag) → Lacks b'|' (spelled f)
spelled-Lacks now = ground arith
spelled-Lacks lazy = ground arith
spelled-Lacks global = ground arith
spelled-Lacks local = ground arith

All-spelled-Lacks : (fs : List Flag) → All (Lacks b'|') (map spelled fs)
All-spelled-Lacks [] = tt
All-spelled-Lacks (f ∷ fs) = (spelled-Lacks f, All-spelled-Lacks fs)

name_to_flag-spelled : (d : Dlfcn) (f : Flag) → name_to_flag d (spelled f) ≡ some (value d f)
unfolding name_to_flag
name_to_flag-spelled d now = refl
name_to_flag-spelled d lazy = refl
name_to_flag-spelled d global = refl
name_to_flag-spelled d local = refl

last_flag-spelled :
    (d : Dlfcn) (rv : ℕ) (f : Flag) → last_flag d rv (spelled f) ≡ checked d (bit_or rv (value d f))
unfolding last_flag
last_flag-spelled d rv f = rw (not_empty f, and_false (rv == 0), name_to_flag-spelled d f) refl
  where
    not_empty : (f : Flag) → is_nil (spelled f) ≡ false
    not_empty now = refl
    not_empty lazy = refl
    not_empty global = refl
    not_empty local = refl

    and_false : (b : Bool) → (b && false) ≡ false
    and_false true = refl
    and_false false = refl

-- the flags of a list, put together from the left
abbrev pub together : Dlfcn → (rv : ℕ) → List Flag → ℕ
together d rv [] = rv
together d rv (f ∷ fs) = together d (bit_or rv (value d f)) fs

parse_words-spelled :
    (d : Dlfcn) (rv : ℕ) (f : Flag) (fs : List Flag)
    → parse_words d rv (spelled f) (map spelled fs) ≡ checked d (together d rv (f ∷ fs))
unfolding parse_words
parse_words-spelled d rv f [] = last_flag-spelled d rv f
parse_words-spelled d rv f (g ∷ fs) =
    rw (name_to_flag-spelled d f) (parse_words-spelled d (bit_or rv (value d f)) g fs)

-- the bits that must not be set together
abbrev pub both : Dlfcn → ℕ
both d = bit_or d.rtld_now d.rtld_lazy

pub checked-parsed : (d : Dlfcn) (n : ℕ) → bit_and n (both d) ≢ both d → checked d n ≡ parsed n
unfolding checked
checked-parsed d n ne = rw (==_of_ne (bit_and n (both d)) (both d) ne) refl

checked-exclusive : (d : Dlfcn) (n : ℕ) → bit_and n (both d) ≡ both d → checked d n ≡ exclusive
unfolding checked
checked-exclusive d n e = rw (e, ==_refl (both d)) refl

pub parse_flags_words :
    (d : Dlfcn) (f : Flag) (fs : List Flag)
    → parse_flags d (join b'|' (spelled f) (map spelled fs)) ≡ checked d (together d 0 (f ∷ fs))
unfolding parse_flags
parse_flags_words d f fs =
    rw (pieces-join b'|' (spelled f) (map spelled fs) (spelled-Lacks f) (All-spelled-Lacks fs))
      (parse_words-spelled d 0 f fs)

-- Any flags, written as their words with `|` between them, are refused as exclusive if their values
-- together have all bits of `now` and `lazy`, and otherwise parsed into the `|` of their values.
pub parse_flags-join :
    (d : Dlfcn) (f : Flag) (fs : List Flag)
    → ((bit_and (together d 0 (f ∷ fs)) (both d) ≡ both d)
        × (parse_flags d (join b'|' (spelled f) (map spelled fs)) ≡ exclusive))
      ⊎ ((bit_and (together d 0 (f ∷ fs)) (both d) ≢ both d)
          × (parse_flags d (join b'|' (spelled f) (map spelled fs))
              ≡ parsed (together d 0 (f ∷ fs))))
parse_flags-join d f fs =
    let n = together d 0 (f ∷ fs) in
    elim (Bool-cases (bit_and n (both d) == both d)) [
      | inl all ↦
          let e : bit_and n (both d) ≡ both d = (==_iff (bit_and n (both d)) (both d)).0 all in
          inl (e, parse_flags_words d f fs ∙ checked-exclusive d n e)
      | inr some_unset ↦
          let ne : bit_and n (both d) ≢ both d = ground (arith, some_unset) in
          inr (ne, parse_flags_words d f fs ∙ checked-parsed d n ne)
    ]

parse_words-trailing :
    (d : Dlfcn) (rv : ℕ) (f : Flag) (fs : List Flag)
    → together d rv (f ∷ fs) ≢ 0
    → parse_words d rv (spelled f) (map spelled fs ++ [] ∷ [])
      ≡ checked d (bit_or (together d rv (f ∷ fs)) d.rtld_now)
unfolding parse_words last_flag name_to_flag
parse_words-trailing d rv f [] some_flag =
    rw (name_to_flag-spelled d f, ==_of_ne (bit_or rv (value d f)) 0 some_flag) refl
parse_words-trailing d rv f (g ∷ fs) some_flag =
    rw (name_to_flag-spelled d f) (parse_words-trailing d (bit_or rv (value d f)) g fs some_flag)

-- A separator at the end counts as one more word `now`, unless the words before it have the value 0:
-- the empty text stands in every name, and `now` is the first of the table.
pub parse_flags-trailing :
    (d : Dlfcn) (f : Flag) (fs : List Flag)
    → together d 0 (f ∷ fs) ≢ 0
    → parse_flags d (join b'|' (spelled f) (map spelled fs ++ [] ∷ []))
      ≡ checked d (bit_or (together d 0 (f ∷ fs)) d.rtld_now)
unfolding parse_flags
parse_flags-trailing d f fs some_flag =
    rw (pieces-join b'|' (spelled f) (map spelled fs ++ [] ∷ []) (spelled-Lacks f) (lacks fs))
      (parse_words-trailing d 0 f fs some_flag)
  where
    lacks : (fs : List Flag) → All (Lacks b'|') (map spelled fs ++ [] ∷ [])
    lacks [] = (tt, tt)
    lacks (f ∷ fs) = (spelled-Lacks f, lacks fs)
