-- ===== src/Tree/Model.antt =====
-- The interface of mprofile/utils/tree.h can be met: a list in order does. The tests run on it.
use ossl_scripts.Base.{ℕ, refl, [], none, some, ◌≡◌, List, Option, head?}
use Prim.Native.Nat.{Ordering}
use ossl_scripts.Tree.{find_list, put, erase, RbTree}

insert_at : (ℕ → Ordering) → ℕ → List ℕ → Option ℕ → Option ℕ × List ℕ
insert_at c x xs none = (none, put c x xs)
insert_at c x xs (some e) = (some e, xs)

insert_at-new :
    (c : ℕ → Ordering) (x : ℕ) (xs : List ℕ)
    → find_list c xs ≡ none
    → ((insert_at c x xs (find_list c xs)).0 ≡ none)
      × ((insert_at c x xs (find_list c xs)).1 ≡ put c x xs)
unfolding insert_at
insert_at-new c x xs h = rw h (refl, refl)

insert_at-old :
    (c : ℕ → Ordering) (x e : ℕ) (xs : List ℕ)
    → find_list c xs ≡ some e
    → insert_at c x xs (find_list c xs) ≡ (some e, xs)
unfolding insert_at
insert_at-old c x e xs h = rw h refl

unfoldable pub sorted_list : RbTree
unfolding insert_at find_list put erase insert_at-old insert_at-new
sorted_list = record {
  Head = List ℕ;
  init = [];
  find = find_list;
  insert = λ c x xs. insert_at c x xs (find_list c xs);
  remove = erase;
  min = head?;
  elems = λ xs. xs;
  elems-init = refl;
  find_lem = λ c t h. refl;
  insert_old = λ c x e t h f. insert_at-old c x e t f;
  insert_new = λ c x t h f. insert_at-new c x t f;
  elems-remove = λ x t. refl;
  min-elems = λ t. refl;
}
