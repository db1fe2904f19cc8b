-- ===== src/Save/Sample.antt =====
-- Profiles of two threads without stacks, and an empty set, for the tests of Save and Exit.
use ossl_scripts.Base.{[], ◌∷◌, refl, ◌==◌, ◌*◌, ℕ, List, arith, if◌then◌else◌}
use ossl_scripts.Tree.Model.{sorted_list}
use ossl_scripts.Save.Sorted.{IsPlain}
use ossl_scripts.Stset.{Stacks, create_stset}
use ossl_scripts.Stack.{Stray}
use ossl_scripts.Record.{Records, MprofileRecord, state_alloc}
use ossl_scripts.Stset.Merge.{Sets}

abbrev pub nothing_stray : Stray
nothing_stray = record { before = λ _. 0; behind = λ _. 0 }

-- a record with a number and no stack
abbrev pub numbered : ℕ → MprofileRecord
numbered id = record {
  mpr_id = id;
  mpr_mem = 4096 * id;
  mpr_realloc = 0;
  mpr_delta = 0;
  mpr_state = state_alloc;
  mpr_stack_id = 0;
  mpr_prev_id = 0;
  mpr_next_id = 0;
  mpr_ts = record { tv_sec = 0; tv_nsec = 0 };
}

-- the records 11 and 12 of one thread have the numbers 2 and 4, the record 21 of another has 3
abbrev pub three_records : Records
three_records e = if e == 11 then numbered 2 else if e == 12 then numbered 4 else numbered 3

abbrev pub two_queues : ℕ → List ℕ
two_queues mp = if mp == 1 then 11 ∷ 12 ∷ [] else 21 ∷ []

abbrev pub no_room : ℕ → ℕ × ℕ
no_room _ = (0, 0)

abbrev pub no_sets : Sets sorted_list nothing_stray
no_sets _ = create_stset sorted_list nothing_stray

abbrev pub no_stacks : Stacks
no_stacks _ = record {
  mps_stack_limit = 0;
  mps_id = 0;
  mps_stack_depth = 0;
  mps_flags = 0;
  mps_count = 0;
  mps_thread = 0;
  mps_stack = [];
}

pub three-IsPlain : IsPlain sorted_list nothing_stray three_records (11 ∷ 12 ∷ 21 ∷ [])
three-IsPlain = record { plain = (refl, (refl, (refl, tt))); distinct = ground arith }
