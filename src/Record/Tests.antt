-- ===== src/Record/Tests.antt =====
-- Logs of mprofile/record.c, and the theorems at them.
use Prim.Native.Nat.{compare}
use ossl_scripts.Record.{
  failed, Chained, MprofileRecord, Records, build_chains, state_free, chain_record, state_alloc,
  aborted, insert_record, chained, close_record, state_realloc, link,
}
use ossl_scripts.Base.{ℕ, refl, [], none, some, ◌∷◌, ◌≡◌, ◌==◌, List, arith, if◌then◌else◌, map}
use ossl_scripts.Record.History.{Live, history, event, opens, nothing_live}
use ossl_scripts.Record.Build.{
  IsLog, build_chains-aborts, linked_all, build_chains-aborts_repeat, build_chains-history,
}
use ossl_scripts.Tree.Model.{sorted_list}
use ossl_scripts.Tree.Map.{assign, Holds}
use ossl_scripts.Record.Chains.{IsSame, key}
use ossl_scripts.Tree.Keyed.{compare-IsOrder}

abbrev event_at : (id state mem old : ℕ) → MprofileRecord
event_at id state mem old = record {
  mpr_id = id;
  mpr_mem = mem;
  mpr_realloc = old;
  mpr_delta = 0;
  mpr_state = state;
  mpr_stack_id = 0;
  mpr_prev_id = 0;
  mpr_next_id = 0;
  mpr_ts = record { tv_sec = 0; tv_nsec = 0 };
}

-- 1 allocates at 100, 2 allocates at 200, 3 moves 100 to 300, 4 releases 200, 5 releases NULL
abbrev store : Records
store e =
    if e == 1
    then event_at 1 state_alloc 100 0
    else if e == 2
    then event_at 2 state_alloc 200 0
    else if e == 3
    then event_at 3 state_realloc 300 100
    else if e == 4
    then event_at 4 state_free 200 0
    else event_at 5 state_free 0 0

abbrev log : List ℕ
log = 1 ∷ 2 ∷ 3 ∷ 4 ∷ 5 ∷ []

next_id_of : Chained sorted_list → ℕ → ℕ
next_id_of (chained recs _) e = (recs e).mpr_next_id
next_id_of aborted e = 0
next_id_of failed e = 0

-- the links 1 to 3 and 2 to 4, and no successor of 3
next_ids : map (next_id_of (build_chains sorted_list log store)) (1 ∷ 2 ∷ 3 ∷ []) ≡ 3 ∷ 4 ∷ 0 ∷ []
unfolding next_id_of build_chains chain_record insert_record close_record link sorted_list
next_ids = refl

log-IsLog : IsLog sorted_list store log
log-IsLog = record { distinct = ground arith; unlinked = omega arith }

abbrev left : Live
left =
    assign compare
      (assign compare
        (assign compare (assign compare (assign compare nothing_live 100 (some 1)) 200 (some 2)) 100
          none)
        300 (some 3))
      200 none

history_of_log : history log store nothing_live ≡ some (left, (1, 3) ∷ (2, 4) ∷ [])
unfolding history event opens
history_of_log = refl

build_chains-history_example :
    (t : sorted_list.Head) × (build_chains sorted_list log store
      ≡ chained (linked_all ((1, 3) ∷ (2, 4) ∷ []) store) t)
    × IsSame sorted_list store (linked_all ((1, 3) ∷ (2, 4) ∷ []) store)
    × Holds compare compare-IsOrder (key sorted_list store) sorted_list t left
    × ((k q : ℕ) → left k ≡ some q → (linked_all ((1, 3) ∷ (2, 4) ∷ []) store q).mpr_next_id ≡ 0)
build_chains-history_example =
    build_chains-history sorted_list store log left ((1, 3) ∷ (2, 4) ∷ []) log-IsLog history_of_log

-- The block at 100 is moved by one thread, which gives 100 back to libc; another thread gets 100 and
-- takes its number before the first does.
abbrev raced : Records
raced e =
    if e == 1
    then event_at 1 state_alloc 100 0
    else if e == 2
    then event_at 2 state_alloc 100 0
    else event_at 3 state_realloc 300 100

raced-IsLog : IsLog sorted_list raced (1 ∷ 2 ∷ 3 ∷ [])
raced-IsLog = record { distinct = ground arith; unlinked = omega arith }

build_chains-aborts_repeat_example : build_chains sorted_list (1 ∷ 2 ∷ 3 ∷ []) raced ≡ aborted
build_chains-aborts_repeat_example =
    build_chains-aborts_repeat sorted_list raced 1 2 (3 ∷ []) raced-IsLog refl refl refl

-- a release of what was not allocated
abbrev stranger : Records
stranger e = event_at 1 state_free 100 0

build_chains-aborts_example : build_chains sorted_list (1 ∷ []) stranger ≡ aborted
unfolding history event
build_chains-aborts_example =
    build_chains-aborts sorted_list stranger (1 ∷ [])
      (record { distinct = (tt, tt); unlinked = omega arith }) refl
