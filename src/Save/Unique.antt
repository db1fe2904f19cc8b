-- ===== src/Save/Unique.antt =====
-- The queue that `mprofile_save` of mprofile/record.c makes is the only one: records in order of their
-- numbers can be listed in one way.
use mathlib.Core.List.Perm
use mathlib.Core.List.{Perm, Memᴰ, Mem, mem-cons_self, mem_of_ne_of_mem}
use mathlib.Core.HLevel.{⊥_prop}
use mathlib.Core.Logic.{∥∥₁_elim}
use ossl_scripts.Base.{
  [], inl, inr, ◌∷◌, ◌≡◌, ◌==◌, ℕ, List, arith, Bool-cases, All, ==_iff, ◌≢◌, Ordering-cases,
}
use ossl_scripts.Record.Chains.{NoRepeat}
use ossl_scripts.Tree.Keyed.{IsSorted, compare-IsOrder}
use mathlib.Core.Path.{subst, ap, sym}
use Prim.Native.Nat.{compare, lt}

pub not-Mem : (P : ℕ → Type 0) (a : ℕ) → ¬ P a → (xs : List ℕ) → All P xs → ¬ Mem a xs
not-Mem P a no_p xs all h = ∥∥₁_elim h ⊥_prop (go xs all)
  where
    go : (xs : List ℕ) → All P xs → Memᴰ a xs → ⊥
    go [] _ d = elim d [ ]
    go (x ∷ xs) (p, ps) (Memᴰ.head e) = no_p (rw e p)
    go (x ∷ xs) (p, ps) (Memᴰ.tail d) = go xs ps d

module _ (key : ℕ → ℕ) where
  abbrev InOrder : List ℕ → Type 0
  InOrder = IsSorted compare compare-IsOrder key

  heads_same :
      (x y : ℕ) (xs ys : List ℕ)
      → InOrder (x ∷ xs)
      → InOrder (y ∷ ys)
      → Perm (x ∷ xs) (y ∷ ys)
      → x ≡ y
  heads_same x y xs ys (above_x, sx) (above_y, sy) p = elim (Bool-cases (x == y)) [
    | inl same ↦ (==_iff x y).0 same
    | inr other ↦
        let ne : x ≢ y = λ e. ground (arith, other, e) in
        let x_in : Mem x ys = mem_of_ne_of_mem ne ((Perm.mem_iff p).0 mem-cons_self) in
        let y_in : Mem y xs =
          mem_of_ne_of_mem (λ e. ne (sym e)) ((Perm.mem_iff p).1 mem-cons_self) in
        elim (Ordering-cases (compare (key x) (key y))) [
          | inl below ↦ absurd (
              not-Mem (λ e. compare (key y) (key e) ≡ lt) x (λ h. ground (arith, h, below)) ys
                above_y x_in)
          | inr not_below ↦ absurd (
              not-Mem (λ e. compare (key x) (key e) ≡ lt) y (λ h. ground (arith, h, not_below)) xs
                above_x y_in)
        ]
  ]

  pub sorted_unique : (xs ys : List ℕ) → InOrder xs → InOrder ys → Perm xs ys → xs ≡ ys
  sorted_unique [] ys sx sy p = Perm.nil-eq p
  sorted_unique (x ∷ xs) [] sx sy p = Perm.eq-nil p
  sorted_unique (x ∷ xs) (y ∷ ys) sx sy p =
      let same : x ≡ y = heads_same x y xs ys sx sy p in
      let behind : Perm (y ∷ xs) (y ∷ ys) = subst (λ z. Perm (z ∷ xs) (y ∷ ys)) same p in
      rw same (ap (λ (l : List ℕ). y ∷ l) (sorted_unique xs ys sx.1 sy.1 (Perm.cons_inv behind)))

  pub IsSorted-NoRepeat : (xs : List ℕ) → InOrder xs → NoRepeat xs
  IsSorted-NoRepeat [] s = tt
  IsSorted-NoRepeat (x ∷ xs) (above, s) = (others xs above, IsSorted-NoRepeat xs s)
    where
      others : (ys : List ℕ) → All (λ e. compare (key x) (key e) ≡ lt) ys → All (λ e. e ≢ x) ys
      others [] a = tt
      others (y ∷ ys) (b, bs) = ((λ e. ground (arith, b, ap key e)), others ys bs)
