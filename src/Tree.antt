-- ===== src/Tree.antt =====
-- The red-black trees that the profiler takes from a copy of <sys/tree.h> (mprofile/utils/tree.h).
-- The macros are another project's library: here they are an interface, with what their
-- documentation says of the elements in order. Elements are addresses; a comparison is handed over
-- already applied to the key, as a function of the element.
use Prim.Native.Nat.{Ordering, lt, eq, gt}
use ossl_scripts.Base.{
  [], none, some, ◌∷◌, ◌≡◌, ◌==◌, ℕ, List, Option, ◌≢◌, if◌then◌else◌, head?, All,
}
pub mod Keyed
pub mod Map
pub mod Agree
pub mod Members
pub mod Model

-- a choice by the outcome of a comparison
abbrev pub by_order {ℓ} : {A : Type ℓ} → Ordering → (below same above : A) → A
by_order lt x y z = x
by_order eq x y z = y
by_order gt x y z = z

-- What RB_FIND finds among the elements in order.
pub find_list : (ℕ → Ordering) → List ℕ → Option ℕ
find_list c [] = none
find_list c (x ∷ xs) = let rest = find_list c xs in by_order (c x) rest (some x) rest

-- Where RB_INSERT puts a new element.
unfoldable pub put : (ℕ → Ordering) → ℕ → List ℕ → List ℕ
put c x [] = x ∷ []
put c x (y ∷ ys) = let rest = put c x ys in by_order (c y) (x ∷ y ∷ ys) (y ∷ rest) (y ∷ rest)

unfoldable pub erase : ℕ → List ℕ → List ℕ
erase x [] = []
erase x (y ∷ ys) = if x == y then ys else y ∷ erase x ys

-- The key lies above a first part of the elements, then may meet one, and lies below the rest.
abbrev pub IsCut : (ℕ → Ordering) → List ℕ → Type 0
IsCut c [] = Unit
IsCut c (x ∷ xs) = (c x ≢ gt → All (λ e. c e ≡ lt) xs) × IsCut c xs

pub record RbTree : Type 1 where
  pub Head : Type 0
  pub init : Head
  pub find : (ℕ → Ordering) → Head → Option ℕ
  -- the element that is there already, if any, and the tree
  pub insert : (ℕ → Ordering) → ℕ → Head → Option ℕ × Head
  pub remove : ℕ → Head → Head
  pub min : Head → Option ℕ
  -- RB_FOREACH visits these
  pub elems : Head → List ℕ
  pub elems-init : elems init ≡ []
  pub find_lem :
      (c : ℕ → Ordering) (t : Head) → IsCut c (elems t) → find c t ≡ find_list c (elems t)
  pub insert_old :
      (c : ℕ → Ordering) (x e : ℕ) (t : Head)
      → IsCut c (elems t)
      → find_list c (elems t) ≡ some e
      → insert c x t ≡ (some e, t)
  pub insert_new :
      (c : ℕ → Ordering) (x : ℕ) (t : Head)
      → IsCut c (elems t)
      → find_list c (elems t) ≡ none
      → ((insert c x t).0 ≡ none) × (elems (insert c x t).1 ≡ put c x (elems t))
  pub elems-remove : (x : ℕ) (t : Head) → elems (remove x t) ≡ erase x (elems t)
  pub min-elems : (t : Head) → min t ≡ head? (elems t)
