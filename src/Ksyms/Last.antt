-- ===== src/Ksyms/Last.antt =====
-- The sections of a file of which the loop in `kelf_open` of mprofile/ksyms.c takes the last.
use ossl_scripts.Ksyms.Open.{Scn, GElfShdr, is_symtab, is_strtab, sht_symtab, sht_strtab}
use ossl_scripts.Base.{
  [], none, some, refl, ◌∷◌, ◌≡◌, ℕ, List, Option, Bool, All, if◌then◌else◌, ◌∙◌, ap, inl, inr,
  Bool-cases, true, false, ◌==◌, arith, codes, ◌<◌, ◌++◌, ==_refl, ==_of_ne, ==_iff,
}
use ossl_scripts.Shlibs.{str_eq}

-- a section with its name and header
pub record Section : Type 0 where
  pub scn : Scn
  pub name : List ℕ
  pub shdr : GElfShdr

abbrev pub or_else : Option Section → Option Section → Option Section
or_else none o = o
or_else (some x) o = some x

-- the last section that passes the test
unfoldable pub last_section : (Section → Bool) → List Section → Option Section
last_section test [] = none
last_section test (s ∷ ss) = or_else (last_section test ss) (if test s then some s else none)

abbrev pub names_symtab : Section → Bool
names_symtab s = is_symtab s.name s.shdr

abbrev pub names_strtab : Section → Bool
names_strtab s = is_strtab s.name s.shdr

-- `.symtab`, of the type of a symbol table, and with entries of some size
abbrev pub IsSymtab : Section → Type 0
IsSymtab s = (s.name ≡ codes ".symtab") × (s.shdr.sh_type ≡ sht_symtab) × (0 < s.shdr.sh_entsize)

-- `.strtab`, of the type of a table of strings
abbrev pub IsStrtab : Section → Type 0
IsStrtab s = (s.name ≡ codes ".strtab") × (s.shdr.sh_type ≡ sht_strtab)

str_eq-same : (xs : List ℕ) → str_eq xs xs ≡ true
unfolding str_eq
str_eq-same [] = refl
str_eq-same (x ∷ xs) = rw (==_refl x, str_eq-same xs) refl

same-str_eq : (xs ys : List ℕ) → str_eq xs ys ≡ true → xs ≡ ys
unfolding str_eq
same-str_eq [] [] e = refl
same-str_eq [] (y ∷ ys) e = absurd (cc)
same-str_eq (x ∷ xs) [] e = absurd (cc)
same-str_eq (x ∷ xs) (y ∷ ys) e = elim (Bool-cases (x == y)) [
  | inl same ↦
      ap (λ z. z ∷ xs) ((==_iff x y).0 same) ∙ ap (λ l. y ∷ l) (same-str_eq xs ys (rw same at e))
  | inr other ↦ absurd (let bad : false ≡ true = rw other at e in cc)
]

pub names_symtab-IsSymtab : (s : Section) → IsSymtab s → names_symtab s ≡ true
unfolding is_symtab
names_symtab-IsSymtab s (name, type, entries) =
    rw (name, type, str_eq-same (codes ".symtab"), ==_of_ne s.shdr.sh_entsize 0 (omega arith)) refl

names_symtab_lem : (s : Section) → names_symtab s ≡ true → IsSymtab s
unfolding is_symtab
names_symtab_lem s e = elim (Bool-cases (str_eq s.name (codes ".symtab"))) [
  | inr other ↦ absurd (let bad : false ≡ true = rw other at e in cc)
  | inl named ↦ elim (Bool-cases (s.shdr.sh_type == sht_symtab)) [
    | inr other ↦ absurd (let bad : false ≡ true = rw (named, other) at e in cc)
    | inl typed ↦ elim (Bool-cases (s.shdr.sh_entsize == 0)) [
      | inl nothing ↦ absurd (let bad : false ≡ true = rw (named, typed, nothing) at e in cc)
      | inr entries ↦ (
        same-str_eq s.name (codes ".symtab") named,
        (==_iff s.shdr.sh_type sht_symtab).0 typed,
        ground (arith, entries),
      )
    ]
  ]
]

not_symtab : (s : Section) → ¬ IsSymtab s → names_symtab s ≡ false
not_symtab s other = elim (Bool-cases (names_symtab s)) [
  | inl it ↦ absurd (other (names_symtab_lem s it))
  | inr none_such ↦ none_such
]

pub names_strtab-IsStrtab : (s : Section) → IsStrtab s → names_strtab s ≡ true
unfolding is_strtab
names_strtab-IsStrtab s (name, type) = rw (name, type, str_eq-same (codes ".strtab")) refl

names_strtab_lem : (s : Section) → names_strtab s ≡ true → IsStrtab s
unfolding is_strtab
names_strtab_lem s e = elim (Bool-cases (str_eq s.name (codes ".strtab"))) [
  | inr other ↦ absurd (let bad : false ≡ true = rw other at e in cc)
  | inl named ↦ elim (Bool-cases (s.shdr.sh_type == sht_strtab)) [
    | inr other ↦ absurd (let bad : false ≡ true = rw (named, other) at e in cc)
    | inl typed ↦
        (same-str_eq s.name (codes ".strtab") named, (==_iff s.shdr.sh_type sht_strtab).0 typed)
  ]
]

not_strtab : (s : Section) → ¬ IsStrtab s → names_strtab s ≡ false
not_strtab s other = elim (Bool-cases (names_strtab s)) [
  | inl it ↦ absurd (other (names_strtab_lem s it))
  | inr none_such ↦ none_such
]

-- the section `s` is the last one that passes the test
last_section-none :
    (test : Section → Bool) (ss : List Section)
    → All (λ s. test s ≡ false) ss
    → last_section test ss ≡ none
unfolding last_section
last_section-none test [] none_passes = refl
last_section-none test (s ∷ ss) (fails, none_passes) =
    rw (last_section-none test ss none_passes, fails) refl

pub last_section-some :
    (test : Section → Bool) (before : List Section) (s : Section) (after : List Section)
    → test s ≡ true
    → All (λ x. test x ≡ false) after
    → last_section test (before ++ s ∷ after) ≡ some s
unfolding last_section
last_section-some test [] s after passes none_passes =
    rw (last_section-none test after none_passes, passes) refl
last_section-some test (x ∷ before) s after passes none_passes =
    rw (last_section-some test before s after passes none_passes) refl

pub All-not_symtab :
    (ss : List Section) → All (λ s. ¬ IsSymtab s) ss → All (λ s. names_symtab s ≡ false) ss
All-not_symtab [] none_is = tt
All-not_symtab (s ∷ ss) (other, none_is) = (not_symtab s other, All-not_symtab ss none_is)

pub All-not_strtab :
    (ss : List Section) → All (λ s. ¬ IsStrtab s) ss → All (λ s. names_strtab s ≡ false) ss
All-not_strtab [] none_is = tt
All-not_strtab (s ∷ ss) (other, none_is) = (not_strtab s other, All-not_strtab ss none_is)
