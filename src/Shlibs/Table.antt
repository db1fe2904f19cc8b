-- ===== src/Shlibs/Table.antt =====
-- What `add_shlib` of mprofile/record.c does with the table.
use ossl_scripts.Base.{
  [], none, some, true, false, inl, inr, refl, ◌∷◌, ◌≡◌, ℕ, List, Option, Bool, arith, ◌&&◌, ◌||◌,
  ==_refl, All, ◌⊎◌, ◌≢◌, Bool-cases, ◌∙◌, ap, sym, suc, length,
}
use ossl_scripts.Shlibs.{add_shlib, str_eq, Shlib, DlInfo}

pub str_eq_refl : (xs : List ℕ) → str_eq xs xs ≡ true
unfolding str_eq
str_eq_refl [] = refl
str_eq_refl (x ∷ xs) = rw (==_refl x, str_eq_refl xs) refl

pub str_eq→eq : (xs ys : List ℕ) → str_eq xs ys ≡ true → xs ≡ ys
unfolding str_eq
str_eq→eq [] [] h = refl
str_eq→eq [] (y ∷ ys) h = cc
str_eq→eq (x ∷ xs) [] h = cc
str_eq→eq (x ∷ xs) (y ∷ ys) h = ground (arith, str_eq→eq xs ys)

-- whether the table names the library, and whether it has no entry left
abbrev pub is_named : List ℕ → Option (List ℕ) → Bool
is_named name none = false
is_named name (some n) = str_eq n name

unfoldable pub has : List ℕ → List Shlib → Bool
unfolding str_eq
has name [] = false
has name (s ∷ ss) = is_named name s.shl_name || has name ss

abbrev pub is_used : Option (List ℕ) → Bool
is_used none = false
is_used (some n) = true

pub is_full : List Shlib → Bool
is_full [] = true
is_full (s ∷ ss) = is_used s.shl_name && is_full ss

-- The used entries stand in front, each with a name of its own.
abbrev pub IsFrontal : Option (List ℕ) → List Shlib → Type 0
IsFrontal none ss = All (λ e. e.shl_name ≡ none) ss
IsFrontal (some n) ss = All (λ e. e.shl_name ≢ some n) ss

abbrev pub IsTable : List Shlib → Type 0
IsTable [] = Unit
IsTable (s ∷ ss) = IsFrontal s.shl_name ss × IsTable ss

-- the three things that `add_shlib` can do at an entry
pub data Placed (dli : DlInfo) (s : Shlib) (ss : List Shlib) : Type 0 where
  filled :
      s.shl_name ≡ none
      → add_shlib dli (s ∷ ss) ≡ record { shl_name = some dli.0; shl_base = dli.1 } ∷ ss
      → Placed dli s ss
  known : s.shl_name ≡ some dli.0 → add_shlib dli (s ∷ ss) ≡ s ∷ ss → Placed dli s ss
  passed :
      (n : List ℕ)
      → s.shl_name ≡ some n
      → n ≢ dli.0
      → add_shlib dli (s ∷ ss) ≡ s ∷ add_shlib dli ss
      → Placed dli s ss

pub placed : (dli : DlInfo) (s : Shlib) (ss : List Shlib) → Placed dli s ss
unfolding add_shlib
placed dli s ss = go s.shl_name refl
  where
    go : (o : Option (List ℕ)) → s.shl_name ≡ o → Placed dli s ss
    go none e = Placed.filled e (rw e refl)
    go (some n) e = elim (Bool-cases (str_eq n dli.0)) [
      | inl same ↦
          let eq_name : n ≡ dli.0 = str_eq→eq n dli.0 same in
          Placed.known (e ∙ ap some eq_name) (rw (e, same) refl)
      | inr other ↦
          Placed.passed n e
            (λ h. let bad : true ≡ false = sym (str_eq_refl n) ∙ ap (str_eq n) h ∙ other in cc)
            (rw (e, other) refl)
    ]

-- After `add_shlib` the library is in the table, or the table is full.
pub add_shlib-has :
    (dli : DlInfo) (t : List Shlib)
    → (has dli.0 (add_shlib dli t) ≡ true) ⊎ (is_full (add_shlib dli t) ≡ true)
unfolding has is_full add_shlib
add_shlib-has dli [] = inr refl
add_shlib-has dli (s ∷ ss) = elim (placed dli s ss) [
  | Placed.filled e r ↦ inl (rw (r, str_eq_refl dli.0) refl)
  | Placed.known e r ↦ inl (rw (r, e, str_eq_refl dli.0) refl)
  | Placed.passed n e ne r ↦ elim (add_shlib-has dli ss) [
    | inl found ↦ inl (rw (r, found) (or_true (is_named dli.0 s.shl_name)))
    | inr full ↦ inr (rw (r, e, full) refl)
  ]
]
  where
    or_true : (b : Bool) → (b || true) ≡ true
    or_true true = refl
    or_true false = refl

pub has-keeps :
    (dli : DlInfo) (name : List ℕ) (t : List Shlib)
    → has name t ≡ true
    → has name (add_shlib dli t) ≡ true
unfolding has
has-keeps dli name [] h = cc
has-keeps dli name (s ∷ ss) h = elim (placed dli s ss) [
  | Placed.filled e r ↦ rw r (let h' = rw e at h in ground arith)
  | Placed.known e r ↦ rw r h
  | Placed.passed n e ne r ↦ rw r (ground (arith, has-keeps dli name ss))
]

full-keeps : (dli : DlInfo) (t : List Shlib) → is_full t ≡ true → is_full (add_shlib dli t) ≡ true
unfolding is_full add_shlib
full-keeps dli [] h = refl
full-keeps dli (s ∷ ss) h = elim (placed dli s ss) [
  | Placed.filled e r ↦ let bad : false ≡ true = rw e at h in cc
  | Placed.known e r ↦ rw r h
  | Placed.passed n e ne r ↦ rw r (ground (arith, full-keeps dli ss))
]

-- What is in the table stays there, and a full table stays full.
pub add_shlib-keeps :
    (dli : DlInfo) (name : List ℕ) (t : List Shlib)
    → (has name t ≡ true) ⊎ (is_full t ≡ true)
    → (has name (add_shlib dli t) ≡ true) ⊎ (is_full (add_shlib dli t) ≡ true)
add_shlib-keeps dli name t (inl found) = inl (has-keeps dli name t found)
add_shlib-keeps dli name t (inr full) = inr (full-keeps dli t full)

none_differ :
    (n : List ℕ) (t : List Shlib)
    → All (λ e. e.shl_name ≡ none) t
    → All (λ e. e.shl_name ≢ some n) t
none_differ n [] h = tt
none_differ n (s ∷ ss) h =
    ((λ e. let bad : none ≡ some n = sym h.0 ∙ e in cc), none_differ n ss h.1)

add_shlib-differ :
    (dli : DlInfo) (n : List ℕ) (t : List Shlib)
    → n ≢ dli.0
    → All (λ e. e.shl_name ≢ some n) t
    → All (λ e. e.shl_name ≢ some n) (add_shlib dli t)
unfolding add_shlib
add_shlib-differ dli n [] ne h = tt
add_shlib-differ dli n (s ∷ ss) ne h = elim (placed dli s ss) [
  | Placed.filled e r ↦ rw r ((λ k. ne (cc)), h.1)
  | Placed.known e r ↦ rw r h
  | Placed.passed m e me r ↦ rw r (h.0, add_shlib-differ dli n ss ne h.1)
]

-- `add_shlib` keeps the used entries in front and their names distinct, and the size of the table.
pub add_shlib-IsTable :
    (dli : DlInfo) (t : List Shlib)
    → IsTable t
    → IsTable (add_shlib dli t) × (length (add_shlib dli t) ≡ length t)
unfolding add_shlib
add_shlib-IsTable dli [] h = (tt, refl)
add_shlib-IsTable dli (s ∷ ss) h = elim (placed dli s ss) [
  | Placed.filled e r ↦
      let empty : All (λ e. e.shl_name ≡ none) ss = rw e at h.0 in
      rw r ((none_differ dli.0 ss empty, h.1), refl)
  | Placed.known e r ↦ rw r (h, refl)
  | Placed.passed n e ne r ↦
      let (more, size) = add_shlib-IsTable dli ss h.1 in
      let apart : All (λ e. e.shl_name ≢ some n) ss = rw e at h.0 in
      rw r ((rw e (add_shlib-differ dli n ss ne apart), more), ap suc size)
]
