-- ===== src/Tree/Keyed.antt =====
-- Trees of mprofile/utils/tree.h whose elements are ordered by a key: what the operations do to the
-- map from keys to elements.
use Prim.Native.Nat.{Ordering, compare, lt, eq, gt}
use ossl_scripts.Base.{
  ℕ, [], inl, inr, ◌∷◌, ◌≡◌, List, arith, ◌≢◌, ◌↔◌, All, Ordering-cases, none, some, refl, ◌==◌,
  ◌∙◌, Bool-cases, ap, sym, false, ==_of_ne, ==_of_eq,
}
use ossl_scripts.Tree.{IsCut, put, erase, find_list}
use mathlib.Core.Option.{some-injective}
use mathlib.Core.Path.{subst}

pub record IsOrder {ℓ} {K : Type ℓ} (cmp : K → K → Ordering) : Type ℓ where
  pub eq_iff : (a b : K) → (cmp a b ≡ eq) ↔ (a ≡ b)
  pub flips : (a b : K) → cmp a b ≡ gt → cmp b a ≡ lt
  pub trans : (a b c : K) → cmp a b ≡ lt → cmp b c ≡ lt → cmp a c ≡ lt

pub compare-IsOrder : IsOrder compare
compare-IsOrder = record {
  eq_iff = λ a b. ground arith;
  flips = λ a b h. ground arith;
  trans = λ a b c h k. ground arith;
}

module _ {ℓ} {K : Type ℓ} (cmp : K → K → Ordering) (ord : IsOrder cmp) (key : ℕ → K) where
  -- the comparison of a key with an element
  abbrev pub at : K → ℕ → Ordering
  at k e = cmp k (key e)

  abbrev pub IsSorted : List ℕ → Type 0
  IsSorted [] = Unit
  IsSorted (x ∷ xs) = All (λ e. cmp (key x) (key e) ≡ lt) xs × IsSorted xs

  All-below :
      (k : K) (x : ℕ) (xs : List ℕ)
      → at k x ≢ gt
      → All (λ e. cmp (key x) (key e) ≡ lt) xs
      → All (λ e. at k e ≡ lt) xs
  All-below k x [] h a = tt
  All-below k x (y ∷ ys) h a = (below, All-below k x ys h a.1)
    where
      below : at k y ≡ lt
      below = elim (Ordering-cases (at k x)) [
        | inl less ↦ ord.trans k (key x) (key y) less a.0
        | inr (inl same) ↦ rw ((ord.eq_iff k (key x)).0 same) a.0
        | inr (inr more) ↦ absurd (h more)
      ]

  pub IsSorted-IsCut : (k : K) (xs : List ℕ) → IsSorted xs → IsCut (at k) xs
  IsSorted-IsCut k [] s = tt
  IsSorted-IsCut k (x ∷ xs) s = ((λ h. All-below k x xs h s.0), IsSorted-IsCut k xs s.1)

  at_self : (x : ℕ) → at (key x) x ≡ eq
  at_self x = (ord.eq_iff (key x) (key x)).1 refl

  not_eq : (j : K) (x : ℕ) → j ≢ key x → at j x ≢ eq
  not_eq j x h e = h ((ord.eq_iff j (key x)).0 e)

  pub find_hit : (k : K) (xs : List ℕ) {e : ℕ} → find_list (at k) xs ≡ some e → k ≡ key e
  unfolding find_list
  find_hit k [] h = cc
  find_hit k (x ∷ xs) {e} h = elim (Ordering-cases (at k x)) [
    | inl less ↦ find_hit k xs (rw less at h)
    | inr (inl same) ↦ (ord.eq_iff k (key x)).0 same ∙ ap key (some-injective _ _ (rw same at h))
    | inr (inr more) ↦ find_hit k xs (rw more at h)
  ]

  find_none_of_lt : (k : K) (xs : List ℕ) → All (λ e. at k e ≡ lt) xs → find_list (at k) xs ≡ none
  unfolding find_list
  find_none_of_lt k [] a = refl
  find_none_of_lt k (x ∷ xs) a = rw a.0 (find_none_of_lt k xs a.1)

  pub find-put_self :
      (x : ℕ) (xs : List ℕ)
      → find_list (at (key x)) xs ≡ none
      → find_list (at (key x)) (put (at (key x)) x xs) ≡ some x
  unfolding find_list put
  find-put_self x [] h = rw (at_self x)
  find-put_self x (y ∷ ys) h = elim (Ordering-cases (at (key x) y)) [
    | inl less ↦ rw (less, at_self x)
    | inr (inl same) ↦ absurd (let bad : some y ≡ none = rw same at h in cc)
    | inr (inr more) ↦ rw (more, more) (find-put_self x ys (rw more at h))
  ]

  pub find-put_ne :
      (j : K) (c : ℕ → Ordering) (x : ℕ) (xs : List ℕ)
      → j ≢ key x
      → find_list (at j) (put c x xs) ≡ find_list (at j) xs
  unfolding find_list put
  find-put_ne j c x [] h = ground (arith, not_eq j x h)
  find-put_ne j c x (y ∷ ys) h = ground (arith, not_eq j x h, find-put_ne j c x ys h)

  pub find-erase_ne :
      (j : K) (x : ℕ) (xs : List ℕ)
      → j ≢ key x
      → find_list (at j) (erase x xs) ≡ find_list (at j) xs
  unfolding find_list erase
  find-erase_ne j x [] h = refl
  find-erase_ne j x (y ∷ ys) h = ground (arith, not_eq j x h, find-erase_ne j x ys h)

  pub find-erase_self :
      (x : ℕ) (xs : List ℕ)
      → IsSorted xs
      → find_list (at (key x)) xs ≡ some x
      → find_list (at (key x)) (erase x xs) ≡ none
  unfolding find_list erase
  find-erase_self x [] s h = refl
  find-erase_self x (y ∷ ys) s h = elim (Ordering-cases (at (key x) y)) [
    | inl less ↦
        rw (other (λ e. let bad : lt ≡ eq = sym less ∙ e in cc), less)
          (find-erase_self x ys s.1 (rw less at h))
    | inr (inl same) ↦
        let hit : y ≡ x = some-injective _ _ (rw same at h) in
        rw (==_of_eq x y (sym hit)) (
          find_none_of_lt (key x) ys
            (subst (λ k. All (λ e. cmp k (key e) ≡ lt) ys) (ap key hit) s.0))
    | inr (inr more) ↦
        rw (other (λ e. let bad : gt ≡ eq = sym more ∙ e in cc), more)
          (find-erase_self x ys s.1 (rw more at h))
  ]
    where
      other : at (key x) y ≢ eq → (x == y) ≡ false
      other ne = ==_of_ne x y (λ e. ne ((ord.eq_iff (key x) (key y)).1 (ap key e)))

  All-put :
      (P : ℕ → Type 0) (c : ℕ → Ordering) (x : ℕ) (xs : List ℕ)
      → P x
      → All P xs
      → All P (put c x xs)
  unfolding put
  All-put P c x [] p a = (p, tt)
  All-put P c x (y ∷ ys) p a = elim (Ordering-cases (c y)) [
    | inl less ↦ rw less (p, a)
    | inr (inl same) ↦ rw same (a.0, All-put P c x ys p a.1)
    | inr (inr more) ↦ rw more (a.0, All-put P c x ys p a.1)
  ]

  All-erase : (P : ℕ → Type 0) (x : ℕ) (xs : List ℕ) → All P xs → All P (erase x xs)
  unfolding erase
  All-erase P x [] a = tt
  All-erase P x (y ∷ ys) a = elim (Bool-cases (x == y)) [
    | inl same ↦ rw same a.1
    | inr other ↦ rw other (a.0, All-erase P x ys a.1)
  ]

  pub erase-IsSorted : (x : ℕ) (xs : List ℕ) → IsSorted xs → IsSorted (erase x xs)
  unfolding erase
  erase-IsSorted x [] s = tt
  erase-IsSorted x (y ∷ ys) s = elim (Bool-cases (x == y)) [
    | inl same ↦ rw same s.1
    | inr other ↦
        rw other (All-erase (λ e. cmp (key y) (key e) ≡ lt) x ys s.0, erase-IsSorted x ys s.1)
  ]

  pub put-IsSorted :
      (x : ℕ) (xs : List ℕ)
      → IsSorted xs
      → find_list (at (key x)) xs ≡ none
      → IsSorted (put (at (key x)) x xs)
  unfolding find_list put
  put-IsSorted x [] s h = (tt, tt)
  put-IsSorted x (y ∷ ys) s h = elim (Ordering-cases (at (key x) y)) [
    | inl less ↦
        rw less
          ((less, All-below (key x) y ys (λ e. let bad : lt ≡ gt = sym less ∙ e in cc) s.0), s)
    | inr (inl same) ↦ absurd (let bad : some y ≡ none = rw same at h in cc)
    | inr (inr more) ↦ rw more (
      All-put (λ e. cmp (key y) (key e) ≡ lt) (at (key x)) x ys (ord.flips (key x) (key y) more)
          s.0,
      put-IsSorted x ys s.1 (rw more at h),
    )
  ]
