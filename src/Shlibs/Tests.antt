-- ===== src/Shlibs/Tests.antt =====
-- Two stacks in two libraries, and the theorem at them.
use ossl_scripts.Base.{
  [], none, some, refl, ◌∷◌, ◌≡◌, ℕ, Option, if◌then◌else◌, ltb, codes, length, replicate, All,
}
use ossl_scripts.Shlibs.{DlInfo, walk_stacks, str_eq, no_shlibs, no_shlib}
use ossl_scripts.Stack.{MpsStack, mps_flag_managed}
use ossl_scripts.Shlibs.Table.{IsTable}
use ossl_scripts.Shlibs.Load.{Covers, walk_stacks-IsTable}
use ossl_scripts.Stack.Frames.{frames}

abbrev one_frame : ℕ → MpsStack
one_frame frame = record {
  mps_stack_limit = 1;
  mps_id = 1;
  mps_stack_depth = 1;
  mps_flags = mps_flag_managed;
  mps_count = 1;
  mps_thread = 0;
  mps_stack = frame ∷ 0 ∷ [];
}

-- frames from 1000 on are in libc, those below in no library
dladdr : ℕ → Option DlInfo
dladdr frame = if ltb frame 1000 then none else some (codes "libc.so", 1000)

walked_run :
    walk_stacks dladdr (one_frame 1 ∷ one_frame 1002 ∷ one_frame 1003 ∷ []) no_shlibs
    ≡ record { shl_name = some (codes "libc.so"); shl_base = 1000 } ∷ replicate 31 no_shlib
unfolding walk_stacks dladdr ossl_scripts.Stack.walk_stack str_eq
walked_run = refl

walk_stacks-IsTable_example :
    let t = walk_stacks dladdr (one_frame 1002 ∷ []) no_shlibs in
    IsTable t
    × (length t ≡ 32)
    × All (λ m. All (λ f. Covers dladdr f t) (frames m)) (one_frame 1002 ∷ [])
walk_stacks-IsTable_example = walk_stacks-IsTable dladdr (one_frame 1002 ∷ [])
