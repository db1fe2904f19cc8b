-- ===== src/Tree/Members.antt =====
-- The elements of a tree of mprofile/utils/tree.h are those of its map.
use ossl_scripts.Base.{
  [], some, inl, inr, refl, ◌∷◌, ◌≡◌, ℕ, List, Option, All, Ordering-cases, ◌∙◌, none, ◌≢◌,
}
use Prim.Native.Nat.{Ordering, eq, lt, gt}
use ossl_scripts.Tree.{find_list, RbTree}
use ossl_scripts.Tree.Keyed.{IsOrder, IsSorted, at, find_hit}
use ossl_scripts.Tree.Map.{Holds}
use mathlib.Core.Path.{subst, sym, ap}
use mathlib.Core.Option.{some-injective}
use ossl_scripts.Record.Chains.{NoRepeat}

pub find_list-All :
    (P : ℕ → Type 0) (c : ℕ → Ordering) (xs : List ℕ) {e : ℕ}
    → All P xs
    → find_list c xs ≡ some e
    → P e
unfolding find_list
find_list-All P c [] all h = absurd (cc)
find_list-All P c (x ∷ xs) {e} all h = elim (Ordering-cases (c x)) [
  | inl less ↦ find_list-All P c xs all.1 (rw less at h)
  | inr (inl same) ↦ subst P (some-injective _ _ (rw same at h)) all.0
  | inr (inr more) ↦ find_list-All P c xs all.1 (rw more at h)
]

module _ {ℓ} {K : Type ℓ} (cmp : K → K → Ordering) (ord : IsOrder cmp) (key : ℕ → K) where
  cmp_self : (k : K) → cmp k k ≡ eq
  cmp_self k = (ord.eq_iff k k).1 refl

  -- a later key compares above
  above : (a b : K) → cmp a b ≡ lt → cmp b a ≡ gt
  above a b h = elim (Ordering-cases (cmp b a)) [
    | inl less ↦ absurd (let bad : lt ≡ eq = sym (ord.trans a b a h less) ∙ cmp_self a in cc)
    | inr (inl same) ↦
        absurd
          (let bad : lt ≡ eq = sym h ∙ (ord.eq_iff a b).1 (sym ((ord.eq_iff b a).0 same)) in cc)
    | inr (inr more) ↦ more
  ]

  members :
      (P : ℕ → Type 0) (xs : List ℕ)
      → IsSorted cmp ord key xs
      → ((e : ℕ) → find_list (at cmp ord key (key e)) xs ≡ some e → P e)
      → All P xs
  unfolding find_list
  members P [] s h = tt
  members P (x ∷ xs) s h = (
    h x (rw (cmp_self (key x)) refl),
    members P xs s.1 (λ e found. h e (
        rw (above (key x) (key e) (find_list-All (λ y. cmp (key x) (key y) ≡ lt) _ xs s.0 found))
          found)),
  )

  module _ (T : RbTree) {t : T.Head} {m : K → Option ℕ} (h : Holds cmp ord key T t m) where
    -- what holds of all elements that the map has holds of the elements in order
    pub Holds-All : (P : ℕ → Type 0) → ((e : ℕ) → m (key e) ≡ some e → P e) → All P (T.elems t)
    Holds-All P f = members P (T.elems t) h.sorted (λ e found. f e (sym (h.maps (key e)) ∙ found))

    pub Holds-key : (k : K) {e : ℕ} → m k ≡ some e → k ≡ key e
    Holds-key k here = find_hit cmp ord key k (T.elems t) (h.maps k ∙ here)

    -- the first element, and a tree without elements
    pub Holds-first : {x : ℕ} {xs : List ℕ} → T.elems t ≡ x ∷ xs → m (key x) ≡ some x
    unfolding find_list
    Holds-first {x} e = sym (h.maps (key x)) ∙ rw (e, cmp_self (key x)) refl

    pub Holds-nil : T.elems t ≡ [] → (k : K) → m k ≡ none
    unfolding find_list
    Holds-nil e k = sym (h.maps k) ∙ rw e refl

    pub Holds-none : ((k : K) → m k ≡ none) → T.elems t ≡ []
    Holds-none empty = go (T.elems t) refl
      where
        go : (xs : List ℕ) → T.elems t ≡ xs → T.elems t ≡ []
        go [] e = e
        go (x ∷ xs) e = absurd (let bad : none ≡ some x = sym (empty (key x)) ∙ Holds-first e in cc)

    -- no element stands twice in a tree
    pub Holds-NoRepeat : NoRepeat (T.elems t)
    Holds-NoRepeat = go (T.elems t) h.sorted
      where
        others :
            (x : ℕ) (xs : List ℕ) → All (λ e. cmp (key x) (key e) ≡ lt) xs → All (λ e. e ≢ x) xs
        others x [] above_x = tt
        others x (y ∷ ys) above_x = (
          (λ e.
              let bad : lt ≡ eq =
                sym above_x.0 ∙ ap (λ z. cmp (key x) (key z)) e ∙ cmp_self (key x) in
              cc),
          others x ys above_x.1,
        )

        go : (xs : List ℕ) → IsSorted cmp ord key xs → NoRepeat xs
        go [] s = tt
        go (x ∷ xs) s = (others x xs s.0, go xs s.1)

  -- an element is not below the first one
  not_below :
      (x y : ℕ) (ys : List ℕ)
      → All (λ e. cmp (key y) (key e) ≡ lt) ys
      → find_list (at cmp ord key (key x)) (y ∷ ys) ≡ some x
      → cmp (key x) (key y) ≡ lt
      → ⊥
  unfolding find_list
  not_below x y ys above_y found low =
      let up : cmp (key y) (key x) ≡ lt =
        find_list-All (λ e. cmp (key y) (key e) ≡ lt) _ ys above_y (rw low at found) in
      let bad : lt ≡ eq = sym (ord.trans (key x) (key y) (key x) low up) ∙ cmp_self (key x) in cc

  missing :
      (k : K) (xs : List ℕ)
      → All (λ e. cmp k (key e) ≡ lt) xs
      → find_list (at cmp ord key k) xs ≡ none
  unfolding find_list
  missing k [] h = refl
  missing k (x ∷ xs) h = rw h.0 (missing k xs h.1)

  tails :
      (x : ℕ) (xs ys : List ℕ)
      → All (λ e. cmp (key x) (key e) ≡ lt) xs
      → All (λ e. cmp (key x) (key e) ≡ lt) ys
      → (k : K) → find_list (at cmp ord key k) (x ∷ xs) ≡ find_list (at cmp ord key k) (x ∷ ys)
      → find_list (at cmp ord key k) xs ≡ find_list (at cmp ord key k) ys
  unfolding find_list
  tails x xs ys hx hy k same = elim (Ordering-cases (cmp k (key x))) [
    | inl less ↦ rw less at same
    | inr (inl it) ↦
        let here : key x ≡ k = sym ((ord.eq_iff k (key x)).0 it) in
        missing k xs (subst (λ j. All (λ e. cmp j (key e) ≡ lt) xs) here hx)
        ∙ sym (missing k ys (subst (λ j. All (λ e. cmp j (key e) ≡ lt) ys) here hy))
    | inr (inr more) ↦ rw more at same
  ]

  heads :
      (x y : ℕ) (xs ys : List ℕ)
      → IsSorted cmp ord key (x ∷ xs)
      → IsSorted cmp ord key (y ∷ ys)
      → ((k : K) → find_list (at cmp ord key k) (x ∷ xs) ≡ find_list (at cmp ord key k) (y ∷ ys))
      → x ≡ y
  unfolding find_list
  heads x y xs ys sx sy same = elim (Ordering-cases (cmp (key x) (key y))) [
    | inl less ↦ absurd (not_below x y ys sy.0 in_ys less)
    | inr (inl it) ↦ some-injective _ _ (sym in_ys ∙ rw it refl)
    | inr (inr more) ↦ absurd (not_below y x xs sx.0 in_xs (ord.flips (key x) (key y) more))
  ]
    where
      in_ys : find_list (at cmp ord key (key x)) (y ∷ ys) ≡ some x
      in_ys = sym (same (key x)) ∙ rw (cmp_self (key x)) refl

      in_xs : find_list (at cmp ord key (key y)) (x ∷ xs) ≡ some y
      in_xs = same (key y) ∙ rw (cmp_self (key y)) refl

  -- two trees in order with the same map have the same elements
  pub same-elems :
      (xs ys : List ℕ)
      → IsSorted cmp ord key xs
      → IsSorted cmp ord key ys
      → ((k : K) → find_list (at cmp ord key k) xs ≡ find_list (at cmp ord key k) ys)
      → xs ≡ ys
  unfolding find_list
  same-elems [] [] sx sy same = refl
  same-elems [] (y ∷ ys) sx sy same =
      absurd (let bad : none ≡ some y = same (key y) ∙ rw (cmp_self (key y)) refl in cc)
  same-elems (x ∷ xs) [] sx sy same =
      absurd (let bad : none ≡ some x = sym (same (key x)) ∙ rw (cmp_self (key x)) refl in cc)
  same-elems (x ∷ xs) (y ∷ ys) sx sy same =
      let it : x ≡ y = heads x y xs ys sx sy same in
      let sy' = subst (λ z. IsSorted cmp ord key (z ∷ ys)) (sym it) sy in
      let same' : (k : K)
          → find_list (at cmp ord key k) (x ∷ xs) ≡ find_list (at cmp ord key k) (x ∷ ys) =
        subst
          (λ z.
            (k : K) → find_list (at cmp ord key k) (x ∷ xs) ≡ find_list (at cmp ord key k) (z ∷ ys))
          (sym it) same in
      rw (it, same-elems xs ys sx.1 sy.1 (λ k. tails x xs ys sx.0 sy'.0 k (same' k))) refl
