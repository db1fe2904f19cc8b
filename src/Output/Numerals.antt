-- ===== src/Output/Numerals.antt =====
-- What the reader of Json makes of the numerals and texts that Output prints.
use ossl_scripts.Base.{
  [], zero, suc, inl, inr, refl, ◌∷◌, ◌≡◌, ◌++◌, ◌+◌, ◌<◌, ◌≤◌, ◌%◌, ◌/◌, ℕ, List, arith, lt→ltb,
  Bool-cases, ltb, ltb→lt, ltb→ge, le→leb, true, ◌-◌, ◌^◌, All, leb, take, ==_of_ne, sym, ◌∙◌,
}
use ossl_scripts.Output.{digit, numeral, decimal, hexadecimal, signed}
use ossl_scripts.Output.Json.{
  Reader, Container, step, read, reading, in_number, zero_digit, read-append, value, minus, reader,
  is_plain, reader-write,
}

digit-decimal : (d : ℕ) → d < 10 → digit d ≡ b'0' + d
digit-decimal d small = rw (lt→ltb d 10 small) refl

-- a place at which a digit starts or goes on with a number
pub record StartsNumber (s : Reader) (stack : List Container) : Type 0 where
  pub at_zero : step s b'0' ≡ reading zero_digit stack
  pub at_digit : (d : ℕ) → 0 < d → d < 10 → step s (b'0' + d) ≡ reading in_number stack

in_number-digit :
    (d : ℕ) (stack : List Container)
    → d < 10
    → step (reading in_number stack) (b'0' + d) ≡ reading in_number stack
in_number-digit d stack small =
    rw (le→leb b'0' (b'0' + d) (omega arith), le→leb (b'0' + d) b'9' (omega arith)) refl

module _ (s : Reader) (stack : List Container) (start : StartsNumber s stack) where
  read-numeral :
      (fuel n : ℕ) → 0 < n → n < fuel → read s (numeral 10 fuel n) ≡ reading in_number stack
  unfolding numeral read
  read-numeral zero n pos enough = absurd (omega arith)
  read-numeral (suc fuel) n pos enough = elim (Bool-cases (ltb n 10)) [
    | inl small ↦
        let low : n < 10 = ltb→lt n 10 small in
        rw (small, digit-decimal n low) (start.at_digit n pos low)
    | inr large ↦
        let high : 10 ≤ n = ltb→ge n 10 large in
        rw
          (
            large,
            read-append s (numeral 10 fuel (n / 10)) (digit (n % 10) ∷ []),
            read-numeral fuel (n / 10) (omega arith) (omega arith),
            digit-decimal (n % 10) (omega arith),
          )
          (in_number-digit (n % 10) stack (omega arith))
  ]

  -- what may follow a number decides where the reader is behind it
  pub read-decimal :
      (n : ℕ) (suffix : List ℕ) {t : Reader}
      → read (reading zero_digit stack) suffix ≡ t
      → read (reading in_number stack) suffix ≡ t
      → read s (decimal n ++ suffix) ≡ t
  unfolding decimal numeral read
  read-decimal zero suffix ends ends' = rw (start.at_zero) ends
  read-decimal (suc n) suffix ends ends' =
      rw
        (
          read-append s (numeral 10 (suc (suc n)) (suc n)) suffix,
          read-numeral (suc (suc n)) (suc n) (omega arith) (omega arith),
        )
        ends'

digit-one : (d : ℕ) → 0 < d → d < 10 → (leb b'1' (b'0' + d) ≡ true) × (leb (b'0' + d) b'9' ≡ true)
digit-one d pos small = (le→leb b'1' (b'0' + d) (omega arith), le→leb (b'0' + d) b'9' (omega arith))

value-StartsNumber : (stack : List Container) → StartsNumber (reading value stack) stack
value-StartsNumber stack = record {
  at_zero = refl;
  at_digit = λ d pos small. rw ((digit-one d pos small).0, (digit-one d pos small).1) refl;
}

minus-StartsNumber : (stack : List Container) → StartsNumber (reading minus stack) stack
minus-StartsNumber stack = record {
  at_zero = refl;
  at_digit = λ d pos small. rw ((digit-one d pos small).0, (digit-one d pos small).1) refl;
}

module _ (file suffix : List ℕ) {stack : List Container} {t : Reader}
    (before : reader file ≡ reading value stack) (ends : read (reading zero_digit stack) suffix ≡ t)
    (ends' : read (reading in_number stack) suffix ≡ t) where
  -- a numeral, where a value is wanted, and what follows it
  pub reader-decimal : (n : ℕ) → reader (file ++ decimal n ++ suffix) ≡ t
  unfolding read
  reader-decimal n =
      reader-write (file ++ decimal n) suffix (reader-write file (decimal n) before refl) (
        sym (read-append (reading value stack) (decimal n) suffix)
        ∙ read-decimal (reading value stack) stack (value-StartsNumber stack) n suffix ends ends')

  pub reader-signed : (w : ℕ) → reader (file ++ signed w ++ suffix) ≡ t
  unfolding signed read
  reader-signed w = elim (Bool-cases (ltb w (2 ^ 63))) [
    | inl small ↦ rw small (reader-decimal w)
    | inr large ↦ rw large (
        reader-write (file ++ b'-' ∷ decimal (2 ^ 64 - w)) suffix
          (reader-write file (b'-' ∷ decimal (2 ^ 64 - w)) before refl)
          (sym (read-append (reading minus stack) (decimal (2 ^ 64 - w)) suffix)
            ∙ read-decimal (reading minus stack) stack (minus-StartsNumber stack) (2 ^ 64 - w)
                suffix ends ends'))
  ]

digit-plain : (d : ℕ) → d < 16 → is_plain (digit d) ≡ true
digit-plain d small = elim (Bool-cases (ltb d 10)) [
  | inl low ↦
      let below : d < 10 = ltb→lt d 10 low in
      rw
        (
          low,
          le→leb 32 (b'0' + d) (omega arith),
          le→leb (b'0' + d) 126 (omega arith),
          ==_of_ne (b'0' + d) b'"' (omega arith),
          ==_of_ne (b'0' + d) b'\\' (omega arith),
        )
        refl
  | inr high ↦
      let above : 10 ≤ d = ltb→ge d 10 high in
      rw
        (
          high,
          le→leb 32 (b'a' + (d - 10)) (omega arith),
          le→leb (b'a' + (d - 10)) 126 (omega arith),
          ==_of_ne (b'a' + (d - 10)) b'"' (omega arith),
          ==_of_ne (b'a' + (d - 10)) b'\\' (omega arith),
        )
        refl
]

abbrev pub AllPlain : List ℕ → Type 0
AllPlain = All (λ c. is_plain c ≡ true)

pub append-AllPlain : (xs ys : List ℕ) → AllPlain xs → AllPlain ys → AllPlain (xs ++ ys)
append-AllPlain [] ys px py = py
append-AllPlain (x ∷ xs) ys (p, px) py = (p, append-AllPlain xs ys px py)

pub take-AllPlain : (n : ℕ) (xs : List ℕ) → AllPlain xs → AllPlain (take n xs)
take-AllPlain zero xs p = tt
take-AllPlain (suc n) [] p = tt
take-AllPlain (suc n) (x ∷ xs) (p, ps) = (p, take-AllPlain n xs ps)

numeral-AllPlain : (fuel n : ℕ) → AllPlain (numeral 16 fuel n)
unfolding numeral
numeral-AllPlain zero n = tt
numeral-AllPlain (suc fuel) n = elim (Bool-cases (ltb n 16)) [
  | inl last ↦ rw last (digit-plain n (ltb→lt n 16 last), tt)
  | inr more ↦ rw more (
      append-AllPlain (numeral 16 fuel (n / 16)) (digit (n % 16) ∷ [])
        (numeral-AllPlain fuel (n / 16)) (digit-plain (n % 16) (omega arith), tt))
]

pub hexadecimal-AllPlain : (n : ℕ) → AllPlain (hexadecimal n)
unfolding hexadecimal
hexadecimal-AllPlain n = numeral-AllPlain (suc n) n
