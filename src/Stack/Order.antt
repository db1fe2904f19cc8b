-- ===== src/Stack/Order.antt =====
-- The order that `stack_compare` puts on call stacks: by depth, then frame by frame.
use Prim.Native.Nat.{Ordering, compare, lt, eq, gt}
use ossl_scripts.Base.{ℕ, refl, List, length, ◌≡◌, ◌∷◌, arith, ◌↔◌, [], true, false, ◌==◌, ◌<◌}

abbrev pub then_by : Ordering → Ordering → Ordering
then_by eq o = o
then_by lt o = lt
then_by gt o = gt

-- the first difference decides; on lists of one length
unfoldable pub lex : List ℕ → List ℕ → Ordering
lex [] [] = eq
lex [] (y ∷ ys) = lt
lex (x ∷ xs) [] = gt
lex (x ∷ xs) (y ∷ ys) = then_by (compare x y) (lex xs ys)

unfoldable pub key_compare : List ℕ → List ℕ → Ordering
key_compare xs ys = then_by (compare (length xs) (length ys)) (lex xs ys)

pub lex-cons_same : (x y : ℕ) (xs ys : List ℕ) → (x == y) ≡ true → lex (x ∷ xs) (y ∷ ys) ≡ lex xs ys
unfolding lex
lex-cons_same x y xs ys h = ground arith

pub lex-cons_differ :
    (x y : ℕ) (xs ys : List ℕ) → (x == y) ≡ false → lex (x ∷ xs) (y ∷ ys) ≡ compare x y
unfolding lex
lex-cons_differ x y xs ys h = ground arith

lex-eq : (xs ys : List ℕ) → lex xs ys ≡ eq → xs ≡ ys
unfolding lex
lex-eq [] [] h = refl
lex-eq [] (y ∷ ys) h = cc
lex-eq (x ∷ xs) [] h = cc
lex-eq (x ∷ xs) (y ∷ ys) h = ground (arith, lex-eq xs ys)

lex_self : (xs : List ℕ) → lex xs xs ≡ eq
unfolding lex
lex_self [] = refl
lex_self (x ∷ xs) = ground (arith, lex_self xs)

-- Two stacks compare equal exactly when they have the same frames.
pub key_compare-eq_iff : (xs ys : List ℕ) → (key_compare xs ys ≡ eq) ↔ (xs ≡ ys)
unfolding key_compare
key_compare-eq_iff xs ys =
    (λ h. ground (arith, lex-eq xs ys), λ e. rw e (ground (arith, lex_self ys)))

pub flip : Ordering → Ordering
flip lt = gt
flip eq = eq
flip gt = lt

lex-flip : (xs ys : List ℕ) → lex ys xs ≡ flip (lex xs ys)
unfolding lex flip
lex-flip [] [] = refl
lex-flip [] (y ∷ ys) = refl
lex-flip (x ∷ xs) [] = refl
lex-flip (x ∷ xs) (y ∷ ys) = ground (arith, lex-flip xs ys)

pub key_compare-flip : (xs ys : List ℕ) → key_compare ys xs ≡ flip (key_compare xs ys)
unfolding key_compare flip
key_compare-flip xs ys = ground (arith, lex-flip xs ys)

pub key_compare-gt : (xs ys : List ℕ) → key_compare xs ys ≡ gt → key_compare ys xs ≡ lt
unfolding flip
key_compare-gt xs ys h = rw (key_compare-flip xs ys, h) refl

lex_trans : (xs ys zs : List ℕ) → lex xs ys ≡ lt → lex ys zs ≡ lt → lex xs zs ≡ lt
unfolding lex
lex_trans [] [] [] h k = cc
lex_trans [] (y ∷ ys) [] h k = cc
lex_trans [] ys (z ∷ zs) h k = refl
lex_trans (x ∷ xs) [] zs h k = cc
lex_trans (x ∷ xs) (y ∷ ys) [] h k = cc
lex_trans (x ∷ xs) (y ∷ ys) (z ∷ zs) h k =
    ground (arith, lex_trans xs ys zs, lex-eq xs ys, lex-eq ys zs)

pub key_compare_trans :
    (xs ys zs : List ℕ) → key_compare xs ys ≡ lt → key_compare ys zs ≡ lt → key_compare xs zs ≡ lt
unfolding key_compare
key_compare_trans xs ys zs h k = ground (arith, lex_trans xs ys zs, lex-eq xs ys, lex-eq ys zs)

pub key_compare-shorter : (xs ys : List ℕ) → length xs < length ys → key_compare xs ys ≡ lt
unfolding key_compare
key_compare-shorter xs ys h = ground arith

pub key_compare-longer : (xs ys : List ℕ) → length ys < length xs → key_compare xs ys ≡ gt
unfolding key_compare
key_compare-longer xs ys h = ground arith

pub key_compare-level : (xs ys : List ℕ) → length xs ≡ length ys → key_compare xs ys ≡ lex xs ys
unfolding key_compare
key_compare-level xs ys h = ground arith
