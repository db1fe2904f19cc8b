-- ===== src/Tree/Agree.antt =====
-- A tree of mprofile/utils/tree.h that is searched by a comparison which agrees with the order of the keys
-- on the elements of the tree, if not elsewhere; and a tree whose keys are read from another store.
use ossl_scripts.Base.{[], none, some, refl, ◌∷◌, ◌≡◌, ℕ, List, Option, All, ap, ◌∙◌, sym}
use Prim.Native.Nat.{Ordering, lt}
use ossl_scripts.Tree.Keyed.{IsOrder, at, IsSorted-IsCut, IsSorted}
use ossl_scripts.Tree.{put, find_list, RbTree, IsCut, by_order}
use ossl_scripts.Tree.Map.{Holds, assign, insert_new-elems, insert_new-Holds}

module _ {ℓ} {K : Type ℓ} (cmp : K → K → Ordering) (ord : IsOrder cmp) where
  -- on these elements `c` compares `k` with their keys
  abbrev pub ComparesAs : (key : ℕ → K) → (ℕ → Ordering) → K → List ℕ → Type 0
  ComparesAs key c k xs = All (λ e. c e ≡ cmp k (key e)) xs

  find_list-agrees :
      (c c' : ℕ → Ordering) (xs : List ℕ)
      → All (λ e. c e ≡ c' e) xs
      → find_list c xs ≡ find_list c' xs
  unfolding find_list
  find_list-agrees c c' [] h = refl
  find_list-agrees c c' (x ∷ xs) h =
      rw h.0 (ap (λ r. by_order (c' x) r (some x) r) (find_list-agrees c c' xs h.1))

  put-agrees :
      (c c' : ℕ → Ordering) (x : ℕ) (xs : List ℕ)
      → All (λ e. c e ≡ c' e) xs
      → put c x xs ≡ put c' x xs
  unfolding put
  put-agrees c c' x [] h = refl
  put-agrees c c' x (y ∷ ys) h =
      rw h.0 (ap (λ r. by_order (c' y) (x ∷ y ∷ ys) (y ∷ r) (y ∷ r)) (put-agrees c c' x ys h.1))

  All-transport {κ} :
      (P : ℕ → Type κ) (Q : ℕ → Type 0) (xs : List ℕ)
      → All (λ e. P e → Q e) xs
      → All P xs
      → All Q xs
  All-transport P Q [] f h = tt
  All-transport P Q (x ∷ xs) f h = (f.0 h.0, All-transport P Q xs f.1 h.1)

  IsCut-agrees :
      (c c' : ℕ → Ordering) (xs : List ℕ) → All (λ e. c e ≡ c' e) xs → IsCut c' xs → IsCut c xs
  IsCut-agrees c c' [] h cut = tt
  IsCut-agrees c c' (x ∷ xs) h cut = (
    λ ne.
        All-transport (λ e. c' e ≡ lt) (λ e. c e ≡ lt) xs (moved xs h.1)
          (cut.0 (λ e. ne (h.0 ∙ e))),
    IsCut-agrees c c' xs h.1 cut.1,
  )
    where
      moved : (xs : List ℕ) → All (λ e. c e ≡ c' e) xs → All (λ e. c' e ≡ lt → c e ≡ lt) xs
      moved [] h = tt
      moved (x ∷ xs) h = ((λ l. h.0 ∙ l), moved xs h.1)

  module _ (T : RbTree) (key : ℕ → K) {t : T.Head} {m : K → Option ℕ} (h : Holds cmp ord key T t m)
      (k : K) (c : ℕ → Ordering) (same : ComparesAs key c k (T.elems t)) where
    cut : IsCut c (T.elems t)
    cut =
        IsCut-agrees c (at cmp ord key k) (T.elems t) same
          (IsSorted-IsCut cmp ord key k (T.elems t) h.sorted)

    found : find_list c (T.elems t) ≡ m k
    found = find_list-agrees c (at cmp ord key k) (T.elems t) same ∙ h.maps k

    pub find-agrees : T.find c t ≡ m k
    find-agrees = T.find_lem c t cut ∙ found

    pub insert_old-agrees : (x e : ℕ) → m k ≡ some e → T.insert c x t ≡ (some e, t)
    insert_old-agrees x e old = T.insert_old c x e t cut (found ∙ old)

  -- only the elements count
  pub Holds-elems :
      (T : RbTree) (key : ℕ → K) {t t' : T.Head} {m : K → Option ℕ}
      → T.elems t' ≡ T.elems t
      → Holds cmp ord key T t m
      → Holds cmp ord key T t' m
  Holds-elems T key e h = record { sorted = rw e h.sorted; maps = λ k. rw e (h.maps k) }

  pub insert_new-agrees :
      (T : RbTree) (key : ℕ → K) {t : T.Head} {m : K → Option ℕ} (c : ℕ → Ordering) (x : ℕ)
      → Holds cmp ord key T t m
      → ComparesAs key c (key x) (T.elems t)
      → m (key x) ≡ none
      → ((T.insert c x t).0 ≡ none)
        × (T.elems (T.insert c x t).1 ≡ put (at cmp ord key (key x)) x (T.elems t))
        × Holds cmp ord key T (T.insert c x t).1 (assign cmp m (key x) (some x))
  insert_new-agrees T key {t} {m} c x h same absent =
      let c' : ℕ → Ordering = at cmp ord key (key x) in
      let (answer, elems) =
        T.insert_new c x t (cut T key h (key x) c same) (found T key h (key x) c same ∙ absent) in
      let in_order : T.elems (T.insert c x t).1 ≡ put c' x (T.elems t) =
        elems ∙ put-agrees c c' x (T.elems t) same in
      (
        answer,
        in_order,
        Holds-elems T key (in_order ∙ sym (insert_new-elems cmp ord key T h x absent))
            (insert_new-Holds cmp ord key T h x absent),
      )

  module _ (key key' : ℕ → K) where
    above :
        (a b : K) (xs : List ℕ)
        → a ≡ b
        → All (λ e. key e ≡ key' e) xs
        → All (λ e. cmp a (key e) ≡ lt) xs
        → All (λ e. cmp b (key' e) ≡ lt) xs
    above a b [] e s h = tt
    above a b (x ∷ xs) e s h = (rw (sym e, sym s.0) h.0, above a b xs e s.1 h.1)

    pub rekey-IsSorted :
        (xs : List ℕ)
        → All (λ e. key e ≡ key' e) xs
        → IsSorted cmp ord key xs
        → IsSorted cmp ord key' xs
    rekey-IsSorted [] s h = tt
    rekey-IsSorted (x ∷ xs) s h = (above (key x) (key' x) xs s.0 s.1 h.0, rekey-IsSorted xs s.1 h.1)

  -- keys that are the same on the elements
  pub Holds-rekey :
      (T : RbTree) (key key' : ℕ → K) {t : T.Head} {m : K → Option ℕ}
      → All (λ e. key e ≡ key' e) (T.elems t)
      → Holds cmp ord key T t m
      → Holds cmp ord key' T t m
  Holds-rekey T key key' {t} same h = record {
    sorted = rekey-IsSorted key key' (T.elems t) same h.sorted;
    maps = λ k.
        find_list-agrees (at cmp ord key' k) (at cmp ord key k) (T.elems t) (
          All-transport (λ e. key e ≡ key' e) (λ e. cmp k (key' e) ≡ cmp k (key e)) (T.elems t)
            (compared k (T.elems t)) same)
        ∙ h.maps k;
  }
    where
      compared :
          (k : K) (xs : List ℕ) → All (λ e. key e ≡ key' e → cmp k (key' e) ≡ cmp k (key e)) xs
      compared k [] = tt
      compared k (x ∷ xs) = ((λ e. ap (cmp k) (sym e)), compared k xs)
