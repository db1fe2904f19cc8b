-- ===== src/Tree/Map.antt =====
-- A tree of mprofile/utils/tree.h as a map from keys to elements: what a client may rely on.
use Prim.Native.Nat.{Ordering, lt, eq, gt}
use ossl_scripts.Base.{
  ℕ, refl, none, some, ◌≡◌, Option, ◌∙◌, inl, inr, ◌≢◌, Ordering-cases, sym, ap, ◌⊎◌,
}
use ossl_scripts.Tree.{by_order, RbTree, find_list, IsCut, put, erase}
use ossl_scripts.Tree.Keyed.{
  IsOrder, erase-IsSorted, IsSorted, at, IsSorted-IsCut, put-IsSorted, find-put_self, find-put_ne,
  find-erase_self, find-erase_ne,
}

module _ {ℓ} {K : Type ℓ} (cmp : K → K → Ordering) where
  -- the map with `k` sent to `v`
  abbrev pub assign : (K → Option ℕ) → K → Option ℕ → K → Option ℕ
  assign m k v j = by_order (cmp j k) (m j) v (m j)

module _ {ℓ} {K : Type ℓ} (cmp : K → K → Ordering) (ord : IsOrder cmp) (key : ℕ → K)
    (T : RbTree) where
  -- The tree is in order, and holds exactly the elements of the map.
  pub record Holds (t : T.Head) (m : K → Option ℕ) : Type ℓ where
    pub sorted : IsSorted cmp ord key (T.elems t)
    pub maps : (k : K) → find_list (at cmp ord key k) (T.elems t) ≡ m k

  pub Holds-init : Holds T.init (λ _. none)
  unfolding find_list
  Holds-init = record { sorted = rw T.elems-init tt; maps = λ k. rw T.elems-init refl }

  module _ {t : T.Head} {m : K → Option ℕ} (h : Holds t m) where
    cut : (k : K) → IsCut (at cmp ord key k) (T.elems t)
    cut k = IsSorted-IsCut cmp ord key k (T.elems t) h.sorted

    -- A function is the changed map if it is so at the key and away from it.
    assign-cases :
        (f : K → Option ℕ) (v : Option ℕ) (k : K)
        → f k ≡ v
        → ((j : K) → j ≢ k → f j ≡ m j)
        → (j : K) → f j ≡ assign cmp m k v j
    assign-cases f v k self away j = elim (Ordering-cases (cmp j k)) [
      | inl less ↦ rw less (away j (λ e. let bad : lt ≡ eq = sym less ∙ (ord.eq_iff j k).1 e in cc))
      | inr (inl same) ↦ rw same (ap f ((ord.eq_iff j k).0 same) ∙ self)
      | inr (inr more) ↦
          rw more (away j (λ e. let bad : gt ≡ eq = sym more ∙ (ord.eq_iff j k).1 e in cc))
    ]

    pub find-Holds : (k : K) → T.find (at cmp ord key k) t ≡ m k
    find-Holds k = T.find_lem (at cmp ord key k) t (cut k) ∙ h.maps k

    pub insert_old-Holds :
        (x e : ℕ) → m (key x) ≡ some e → T.insert (at cmp ord key (key x)) x t ≡ (some e, t)
    insert_old-Holds x e old =
        T.insert_old (at cmp ord key (key x)) x e t (cut (key x)) (h.maps (key x) ∙ old)

    module _ (x : ℕ) (absent : m (key x) ≡ none) where
      none_found : find_list (at cmp ord key (key x)) (T.elems t) ≡ none
      none_found = h.maps (key x) ∙ absent

      inserted :
          ((T.insert (at cmp ord key (key x)) x t).0 ≡ none)
          × (T.elems (T.insert (at cmp ord key (key x)) x t).1
              ≡ put (at cmp ord key (key x)) x (T.elems t))
      inserted = T.insert_new (at cmp ord key (key x)) x t (cut (key x)) none_found

      pub insert_new-none : (T.insert (at cmp ord key (key x)) x t).0 ≡ none
      insert_new-none = inserted.0

      pub insert_new-elems :
          T.elems (T.insert (at cmp ord key (key x)) x t).1
          ≡ put (at cmp ord key (key x)) x (T.elems t)
      insert_new-elems = inserted.1

      pub insert_new-Holds :
          Holds (T.insert (at cmp ord key (key x)) x t).1 (assign cmp m (key x) (some x))
      insert_new-Holds = record {
        sorted = rw inserted.1 (put-IsSorted cmp ord key x (T.elems t) h.sorted none_found);
        maps = λ k. rw inserted.1 (at_key k);
      }
        where
          at_key :
              (k : K)
              → find_list (at cmp ord key k) (put (at cmp ord key (key x)) x (T.elems t))
                ≡ assign cmp m (key x) (some x) k
          at_key k =
              assign-cases
                (λ j. find_list (at cmp ord key j) (put (at cmp ord key (key x)) x (T.elems t)))
                (some x) (key x) (find-put_self cmp ord key x (T.elems t) none_found)
                (λ j ne.
                  find-put_ne cmp ord key j (at cmp ord key (key x)) x (T.elems t) ne ∙ h.maps j)
                k

    pub remove-Holds :
        (x : ℕ) → m (key x) ≡ some x → Holds (T.remove x t) (assign cmp m (key x) none)
    remove-Holds x here = record {
      sorted = rw (T.elems-remove x t) (erase-IsSorted cmp ord key x (T.elems t) h.sorted);
      maps = λ k. rw (T.elems-remove x t) (
          assign-cases (λ j. find_list (at cmp ord key j) (erase x (T.elems t))) none (key x)
            (find-erase_self cmp ord key x (T.elems t) h.sorted (h.maps (key x) ∙ here))
            (λ j ne. find-erase_ne cmp ord key j x (T.elems t) ne ∙ h.maps j) k);
    }

module _ {ℓ} {K : Type ℓ} (cmp : K → K → Ordering) (ord : IsOrder cmp) (m : K → Option ℕ) (k : K)
    (v : Option ℕ) where
  pub assign_self : assign cmp m k v k ≡ v
  assign_self = rw ((ord.eq_iff k k).1 refl) refl

  pub assign_ne : (j : K) → j ≢ k → assign cmp m k v j ≡ m j
  assign_ne j ne = elim (Ordering-cases (cmp j k)) [
    | inl less ↦ rw less refl
    | inr (inl same) ↦ absurd (ne ((ord.eq_iff j k).0 same))
    | inr (inr more) ↦ rw more refl
  ]

  -- what the changed map answers is the new value at the key, or the old one elsewhere
  pub assign-split :
      (j : K) {e : ℕ}
      → assign cmp m k v j ≡ some e
      → ((j ≡ k) × (v ≡ some e)) ⊎ ((j ≢ k) × (m j ≡ some e))
  assign-split j h = elim (Ordering-cases (cmp j k)) [
    | inl less ↦
        inr ((λ e. let bad : lt ≡ eq = sym less ∙ (ord.eq_iff j k).1 e in cc), rw less at h)
    | inr (inl same) ↦ inl ((ord.eq_iff j k).0 same, rw same at h)
    | inr (inr more) ↦
        inr ((λ e. let bad : gt ≡ eq = sym more ∙ (ord.eq_iff j k).1 e in cc), rw more at h)
  ]
