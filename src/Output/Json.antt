-- ===== src/Output/Json.antt =====
-- JSON as RFC 8259 writes it, read byte by byte: a description of what mprofile/scripts/mprofile.py
-- expects, and not a part of the program. Fractions, exponents, escapes, bytes behind ASCII and the three
-- words are left out, so what this reader accepts is JSON in any encoding that extends ASCII.
use ossl_scripts.Base.{
  [], true, refl, ◌∷◌, ◌≡◌, ◌==◌, ◌++◌, ℕ, List, Bool, ◌&&◌, ◌||◌, ◌∙◌, leb, if◌then◌else◌, All,
  not,
}

-- what the reader is inside of
pub data Container : Type 0 where
  object : Container
  array : Container

-- what may come next
pub data Place : Type 0 where
  value : Place
  element_or_end : Place
  key_or_end : Place
  key : Place
  in_key : Place
  in_text : Place
  colon : Place
  minus : Place
  zero_digit : Place
  in_number : Place
  behind_value : Place

pub data Reader : Type 0 where
  reading : Place → List Container → Reader
  refused : Reader

abbrev pub is_space : ℕ → Bool
is_space c = c == b' ' || c == b'\t' || c == b'\n' || c == b'\r'

abbrev digit_place : ℕ → List Container → Reader → Reader
digit_place c stack otherwise =
    if leb b'1' c && leb c b'9'
    then reading in_number stack
    else if c == b'0'
    then reading zero_digit stack
    else otherwise

abbrev value_start : ℕ → List Container → Reader → Reader
value_start c stack otherwise = digit_place c stack (
    if c == b'"'
    then reading in_text stack
    else if c == b'{'
    then reading key_or_end (object ∷ stack)
    else if c == b'['
    then reading element_or_end (array ∷ stack)
    else if c == b'-'
    then reading minus stack
    else otherwise)

abbrev closed : ℕ → List Container → Reader
closed c [] = refused
closed c (object ∷ stack) =
    if c == b','
    then reading key (object ∷ stack)
    else if c == b'}'
    then reading behind_value stack
    else refused
closed c (array ∷ stack) =
    if c == b','
    then reading value (array ∷ stack)
    else if c == b']'
    then reading behind_value stack
    else refused

abbrev value_end : ℕ → List Container → Reader
value_end c stack = if is_space c then reading behind_value stack else closed c stack

abbrev pub is_plain : ℕ → Bool
is_plain c = leb 32 c && leb c 126 && not (c == b'"') && not (c == b'\\')

abbrev text_rest : Place → Place → ℕ → List Container → Reader
text_rest here next c stack =
    if is_plain c then reading here stack else if c == b'"' then reading next stack else refused

abbrev key_start : ℕ → List Container → Reader → Reader
key_start c stack otherwise = if c == b'"' then reading in_key stack else otherwise

abbrev end_of : Place → (close : ℕ) → ℕ → List Container → Reader
end_of here close c [] = refused
end_of here close c (k ∷ stack) =
    if is_space c
    then reading here (k ∷ stack)
    else if c == close
    then reading behind_value stack
    else refused

abbrev pub step_at : Place → ℕ → List Container → Reader
step_at value c stack = value_start c stack (if is_space c then reading value stack else refused)
step_at element_or_end c stack = value_start c stack (end_of element_or_end b']' c stack)
step_at key_or_end c stack = key_start c stack (end_of key_or_end b'}' c stack)
step_at key c stack = key_start c stack (if is_space c then reading key stack else refused)
step_at in_key c stack = text_rest in_key colon c stack
step_at in_text c stack = text_rest in_text behind_value c stack
step_at colon c stack =
    if c == b':' then reading value stack else if is_space c then reading colon stack else refused
step_at minus c stack = digit_place c stack refused
step_at zero_digit c stack = value_end c stack
step_at in_number c stack =
    if leb b'0' c && leb c b'9' then reading in_number stack else value_end c stack
step_at behind_value c stack = value_end c stack

abbrev pub step : Reader → ℕ → Reader
step refused c = refused
step (reading p stack) c = step_at p c stack

unfoldable pub read : Reader → List ℕ → Reader
read s [] = s
read s (c ∷ cs) = read (step s c) cs

-- where the reader of a whole file stands
unfoldable pub reader : (file : List ℕ) → Reader
unfolding read
reader file = read (reading value []) file

abbrev pub IsJson : List ℕ → Type 0
IsJson file = reader file ≡ reading behind_value []

pub read-append : (s : Reader) (xs ys : List ℕ) → read s (xs ++ ys) ≡ read (read s xs) ys
unfolding read
read-append s [] ys = refl
read-append s (x ∷ xs) ys = read-append (step s x) xs ys

-- the reader behind one more piece of text
pub reader-write :
    (file xs : List ℕ) {s t : Reader} → reader file ≡ s → read s xs ≡ t → reader (file ++ xs) ≡ t
unfolding reader
reader-write file xs before here = read-append (reading value []) file xs ∙ rw before here

pub read_refused : (xs : List ℕ) → read refused xs ≡ refused
unfolding read
read_refused [] = refl
read_refused (x ∷ xs) = read_refused xs

-- the inside of a text
pub read-plain :
    (p : Place) (xs : List ℕ) (stack : List Container)
    → ((c : ℕ) → is_plain c ≡ true → step_at p c stack ≡ reading p stack)
    → All (λ c. is_plain c ≡ true) xs
    → read (reading p stack) xs ≡ reading p stack
unfolding read
read-plain p [] stack stays plain = refl
read-plain p (x ∷ xs) stack stays (px, plain) = rw (stays x px) (read-plain p xs stack stays plain)
