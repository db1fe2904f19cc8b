-- ===== src/Output/Pieces.antt =====
-- What the reader of Json makes of a piece of a file, and of a record.
use ossl_scripts.Base.{inl, inr, refl, ◌∷◌, ◌≡◌, ◌==◌, ◌++◌, ℕ, List, codes, Bool-cases}
use ossl_scripts.Output.{print_mprofile_record, state_text, signed, ◌<<◌, decimal}
use ossl_scripts.Record.{MprofileRecord, state_alloc, state_free, state_realloc}
use ossl_scripts.Output.Json.{
  Container, Reader, Place, read, reader, reading, value, behind_value, reader-write, object,
  in_text, element_or_end, key, read-plain, array,
}
use ossl_scripts.Output.Numerals.{AllPlain, reader-signed, reader-decimal}

-- the reader of a file stands there
pub record LeadsTo (file : List ℕ) (s : Reader) : Type 0 where
  pub at : reader file ≡ s

-- where an element of an array is wanted
pub data WantsElement (file : List ℕ) (stack : List Container) : Type 0 where
  first : LeadsTo file (reading element_or_end (array ∷ stack)) → WantsElement file stack
  next : LeadsTo file (reading value (array ∷ stack)) → WantsElement file stack

-- a text of fixed bytes
pub fixed :
    {file : List ℕ} {s t : Reader} (xs : List ℕ)
    → read s xs ≡ t
    → LeadsTo file s
    → LeadsTo (file ++ xs) t
fixed {file} xs e before = record { at = reader-write file xs before.at e }

-- a text written where an element is wanted
pub write-element :
    {file : List ℕ} {stack : List Container} {t : Reader} (xs : List ℕ)
    → WantsElement file stack
    → read (reading value (array ∷ stack)) xs ≡ t
    → read (reading element_or_end (array ∷ stack)) xs ≡ t
    → LeadsTo (file ++ xs) t
write-element xs (next wants) e e' = fixed xs e wants
write-element xs (first wants) e e' = fixed xs e' wants

-- a member of an object, up to the comma and the newline behind it
module _ {file : List ℕ} {p : Place} {stack : List Container} (prefix : List ℕ)
    (opens : read (reading p (object ∷ stack)) prefix ≡ reading value (object ∷ stack)) where
  pub member :
      (n : ℕ)
      → LeadsTo file (reading p (object ∷ stack))
      → LeadsTo (file << prefix << decimal n << codes ",\n") (reading key (object ∷ stack))
  unfolding read
  member n before = record {
    at = reader-decimal (file ++ prefix) (codes ",\n") (fixed prefix opens before).at refl refl n;
  }

  pub signed_member :
      (w : ℕ)
      → LeadsTo file (reading p (object ∷ stack))
      → LeadsTo (file << prefix << signed w << codes ",\n") (reading key (object ∷ stack))
  unfolding read
  signed_member w before = record {
    at = reader-signed (file ++ prefix) (codes ",\n") (fixed prefix opens before).at refl refl w;
  }

  pub last_member :
      (n : ℕ)
      → LeadsTo file (reading p (object ∷ stack))
      → LeadsTo (file << prefix << decimal n << codes "\n") (reading behind_value (object ∷ stack))
  unfolding read
  last_member n before = record {
    at = reader-decimal (file ++ prefix) (codes "\n") (fixed prefix opens before).at refl refl n;
  }

-- a plain text between quotation marks
pub quoted :
    {file : List ℕ} {p : Place} {stack : List Container} {t : Reader} (prefix text suffix : List ℕ)
    → read (reading p stack) prefix ≡ reading in_text stack
    → AllPlain text
    → read (reading in_text stack) suffix ≡ t
    → LeadsTo file (reading p stack)
    → LeadsTo (file << prefix << text << suffix) t
quoted {stack = stack} prefix text suffix opens plain closes before = fixed suffix closes (
    fixed text (read-plain in_text text stack (λ c p. rw p refl) plain) (fixed prefix opens before))

state_text-value :
    (state : ℕ) (stack : List Container)
    → read (reading value stack) (state_text state) ≡ reading behind_value stack
unfolding read
state_text-value state stack = elim (Bool-cases (state == state_alloc)) [
  | inl is ↦ rw is refl
  | inr other ↦ rw other (elim (Bool-cases (state == state_free)) [
    | inl is ↦ rw is refl
    | inr other' ↦ rw other' (elim (Bool-cases (state == state_realloc)) [
      | inl is ↦ rw is refl
      | inr other'' ↦ rw other'' refl
    ])
  ])
]

pub print_mprofile_record-open :
    (r : MprofileRecord) {file : List ℕ} {stack : List Container}
    → WantsElement file stack
    → LeadsTo (print_mprofile_record r file) (reading behind_value (object ∷ array ∷ stack))
unfolding print_mprofile_record read
print_mprofile_record-open r {file} {stack} wants = fixed (codes "\t\t}\n") refl (
    last_member (codes "\t\t\t\"ns\" : ") refl r.mpr_ts.tv_nsec (
      signed_member (codes "\t\t\t\"s\" : ") refl r.mpr_ts.tv_sec (
        fixed (codes "\t\t\"time\" : {\n") refl (
          member (codes "\t\t\"stack_id\" : ") refl r.mpr_stack_id (
            member (codes "\t\t\"prev_id\" : ") refl r.mpr_prev_id (
              member (codes "\t\t\"next_id\" : ") refl r.mpr_next_id (
                fixed (codes ",\n") refl (
                  fixed (state_text r.mpr_state)
                    (state_text-value r.mpr_state (object ∷ array ∷ stack))
                    (fixed (codes "\t\t\"state\" : ") refl (
                      signed_member (codes "\t\t\"delta_sz\" : ") refl r.mpr_delta (
                        member (codes "\t\t\"realloc\" : ") refl r.mpr_realloc (
                          member (codes "\t\t\"addr\" : ") refl r.mpr_mem (
                            member (codes "\t\t\"id\" : ") refl r.mpr_id
                              (write-element (codes "\t{\n") wants refl refl))))))))))))))
