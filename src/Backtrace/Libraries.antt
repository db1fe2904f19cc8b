-- ===== src/Backtrace/Libraries.antt =====
-- Which libraries `load_syms` of backtrace.test/backtrace.c finds.
use ossl_scripts.Base.{
  [], suc, none, some, true, ◌∷◌, ◌≡◌, ◌<◌, ◌≤◌, ℕ, List, Option, arith, length, All,
}
use ossl_scripts.Shlibs.{DlInfo, Shlib}
use ossl_scripts.Backtrace.{walk_frames, add_dlinfo, empty_table}
use ossl_scripts.Shlibs.Room.{free_entries, add_shlib-room, add_shlib-free_entries}
use ossl_scripts.Shlibs.Table.{has, has-keeps}

module _ (dladdr : (frame : ℕ) → Option DlInfo) where
  -- the library that `dladdr` finds, if it finds one, is in the table
  abbrev pub IsListed : Option DlInfo → List Shlib → Type 0
  IsListed none t = Unit
  IsListed (some dli) t = has dli.0 t ≡ true

  add_dlinfo-keeps :
      (o o' : Option DlInfo) (t : List Shlib) → IsListed o t → IsListed o (add_dlinfo o' t)
  add_dlinfo-keeps none o' t h = tt
  add_dlinfo-keeps (some dli) none t h = h
  add_dlinfo-keeps (some dli) (some dli') t h = has-keeps dli' dli.0 t h

  walk_frames-keeps :
      (o : Option DlInfo) (fs : List ℕ) (t : List Shlib)
      → IsListed o t
      → IsListed o (walk_frames dladdr fs t)
  unfolding walk_frames
  walk_frames-keeps o [] t h = h
  walk_frames-keeps o (f ∷ fs) t h =
      walk_frames-keeps o fs (add_dlinfo (dladdr f) t) (add_dlinfo-keeps o (dladdr f) t h)

  add_dlinfo-IsListed :
      (o : Option DlInfo) (t : List Shlib)
      → 0 < free_entries t
      → IsListed o (add_dlinfo o t) × (free_entries t ≤ suc (free_entries (add_dlinfo o t)))
  add_dlinfo-IsListed none t h = (tt, omega arith)
  add_dlinfo-IsListed (some dli) t h = (add_shlib-room dli t h, add_shlib-free_entries dli t)

  walk_frames-All :
      (fs : List ℕ) (t : List Shlib)
      → length fs ≤ free_entries t
      → All (λ f. IsListed (dladdr f) (walk_frames dladdr fs t)) fs
  unfolding walk_frames
  walk_frames-All [] t h = tt
  walk_frames-All (f ∷ fs) t h =
      let (listed, room) = add_dlinfo-IsListed (dladdr f) t (omega arith) in
      (
        walk_frames-keeps (dladdr f) fs (add_dlinfo (dladdr f) t) listed,
        walk_frames-All fs (add_dlinfo (dladdr f) t) (omega arith),
      )

  -- A stack of at most 64 frames has its libraries all in the table: it never runs out of entries.
  pub walk_frames-IsListed :
      (fs : List ℕ)
      → length fs ≤ 64
      → All (λ f. IsListed (dladdr f) (walk_frames dladdr fs empty_table)) fs
  walk_frames-IsListed fs h = walk_frames-All fs empty_table h
