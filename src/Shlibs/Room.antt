-- ===== src/Shlibs/Room.antt =====
-- A table of shared libraries that has room left takes one more library, for `add_shlib` of
-- mprofile/record.c and of backtrace.test/backtrace.c.
use ossl_scripts.Base.{
  [], suc, none, some, true, false, refl, ◌∷◌, ◌≡◌, ◌<◌, ◌≤◌, ℕ, List, Option, Bool, arith, ◌||◌,
}
use ossl_scripts.Shlibs.{add_shlib, Shlib, DlInfo}
use ossl_scripts.Shlibs.Table.{Placed, has, placed, str_eq_refl, is_named}

abbrev pub free_entry : Option (List ℕ) → ℕ → ℕ
free_entry none n = suc n
free_entry (some name) n = n

-- the number of entries without a name
abbrev pub free_entries : List Shlib → ℕ
free_entries [] = 0
free_entries (s ∷ ss) = free_entry s.shl_name (free_entries ss)

pub add_shlib-free_entries :
    (dli : DlInfo) (t : List Shlib) → free_entries t ≤ suc (free_entries (add_shlib dli t))
unfolding add_shlib
add_shlib-free_entries dli [] = omega arith
add_shlib-free_entries dli (s ∷ ss) = elim (placed dli s ss) [
  | Placed.filled e r ↦ rw (r, e) (omega arith)
  | Placed.known e r ↦ rw (r, e) (omega arith)
  | Placed.passed n e ne r ↦ rw (r, e) (add_shlib-free_entries dli ss)
]

-- With an entry free the library is in the table afterwards.
pub add_shlib-room :
    (dli : DlInfo) (t : List Shlib) → 0 < free_entries t → has dli.0 (add_shlib dli t) ≡ true
unfolding add_shlib has
add_shlib-room dli [] h = absurd (omega arith)
add_shlib-room dli (s ∷ ss) h = elim (placed dli s ss) [
  | Placed.filled e r ↦ rw (r, str_eq_refl dli.0) refl
  | Placed.known e r ↦ rw (r, e, str_eq_refl dli.0) refl
  | Placed.passed n e ne r ↦
      let h' : 0 < free_entries ss = rw e at h in
      rw (r, add_shlib-room dli ss h') (or_true (is_named dli.0 s.shl_name))
]
  where
    or_true : (b : Bool) → (b || true) ≡ true
    or_true true = refl
    or_true false = refl
