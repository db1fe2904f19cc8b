-- ===== src/Trace/Tests.antt =====
-- A thread of a program on the wrappers of mprofile/init.c, and the theorems at it.
use ossl_scripts.Base.{[], ◌∷◌, ◌+◌, ℕ, some, refl, ◌≡◌, List, Option, arith, map, none, ◌-◌, ◌^◌}
use ossl_scripts.Stack.{MpsStack, Stray}
use ossl_scripts.Record.{MprofileRecord, Records, build_chains, chained}
use ossl_scripts.Profile.{
  record_event, append_record, record_alloc, record_free, record_realloc, blank, create_mprofile,
}
use ossl_scripts.Trace.Steps.{mallocs}
use ossl_scripts.Trace.Session.{Session, IsNewRecord, Session-chains, start, calls}
use ossl_scripts.Trace.{
  and_then, get_mprofile, on_profile, realloc_trace_tail, stack_here, Env, Tracer, header,
  malloc_trace_with_stack, Traced, realloc_trace_with_stack, traced, malloc_trace,
  free_trace_with_stack, realloc_trace, free_trace, ◌>>=◌,
}
use ossl_scripts.Tree.Model.{sorted_list}
use ossl_scripts.Record.History.{nothing_live}
use ossl_scripts.Tree.Map.{assign, Holds}
use Prim.Native.Nat.{compare}
use ossl_scripts.Tree.Keyed.{compare-IsOrder}
use ossl_scripts.Record.Chains.{key}
use ossl_scripts.Trace.Events.{Notes, Enters}
use ossl_scripts.Trace.Calls.{malloc_trace-Notes}

abbrev nothing_stray : Stray
nothing_stray = record { before = λ _. 0; behind = λ _. 0 }

-- the thread 7, whose profile stands at 64, records its next event at `rec`, with libc's answer `at`
abbrev env : (rec at : ℕ) → Env sorted_list nothing_stray
env rec at = record {
  thread = 7;
  profile = 64;
  malloc = λ _. at;
  realloc = λ _ _. at;
  answers = record {
    rec = rec;
    stack = rec + 1000;
    junk = 0;
    now = record { tv_sec = rec; tv_nsec = 0 };
  };
}

abbrev no_record : MprofileRecord
no_record = blank sorted_list nothing_stray (record { tv_sec = 0; tv_nsec = 0 })

abbrev no_stack : MpsStack
no_stack = record {
  mps_stack_limit = 0;
  mps_id = 0;
  mps_stack_depth = 0;
  mps_flags = 0;
  mps_count = 0;
  mps_thread = 0;
  mps_stack = [];
}

abbrev idle : Tracer sorted_list nothing_stray
idle = record {
  mem = λ _. header 0 0;
  store = record { recs = λ _. no_record; stacks = λ _. no_stack; mpr_id = 0 };
  profs = λ _. create_mprofile sorted_list nothing_stray;
  profiles = 64 ∷ [];
  specific = λ _. 64;
  calls = [];
}

-- A buffer is allocated, moved and released: the log has an event of each kind, with the buffer,
-- the buffer before and the difference in size.
logged : Traced sorted_list nothing_stray (Unit {0}) → List (ℕ × ℕ × ℕ × ℕ)
logged (traced done s) = map fields (s.profs 64).mp_tqhead
  where
    fields : ℕ → ℕ × ℕ × ℕ × ℕ
    fields e = let r = s.store.recs e in (r.mpr_state, r.mpr_mem, r.mpr_realloc, r.mpr_delta)
logged ossl_scripts.Trace.aborted = []
logged ossl_scripts.Trace.crashed = []

logged_run :
    logged (
      and_then sorted_list nothing_stray
        (and_then sorted_list nothing_stray
          (malloc_trace sorted_list nothing_stray (env 1001 4096) none 100 idle)
          (λ b. realloc_trace sorted_list nothing_stray (env 1002 8192) none none b 150))
        (free_trace sorted_list nothing_stray (env 1003 0) none))
    ≡ (1, 4112, 0, 100) ∷ (3, 8208, 4112, 50) ∷ (2, 8208, 0, 2 ^ 64 - 150) ∷ []
unfolding logged malloc_trace realloc_trace free_trace realloc_trace_tail get_mprofile on_profile
    create_mprofile record_alloc record_free record_realloc record_event append_record sorted_list
logged_run = refl

start_Session : Session sorted_list nothing_stray 64 7 nothing_live idle
start_Session = start refl (omega arith) refl

new_record : IsNewRecord sorted_list nothing_stray 64 (env 1001 4096).answers []
new_record = record { real = omega arith; new = tt }

abbrev here : Option MpsStack
here = stack_here sorted_list nothing_stray (10 ∷ 20 ∷ [])

idle-Enters : Enters sorted_list nothing_stray 7 64 nothing_live idle
idle-Enters = record {
  own = refl;
  real = omega arith;
  headed = λ b q real_b e. let bad : none ≡ some q = e in cc;
}

-- the state after the first allocation, and that the wrapper leads there
after_malloc :
    (s' : Tracer sorted_list nothing_stray) × (malloc_trace sorted_list nothing_stray
        (env 1001 4096)
        here
        100
        idle
      ≡ traced 4112 s')
    × Notes sorted_list nothing_stray
        (env 1001 4096).answers
        here
        64
        nothing_live
        (assign compare nothing_live 4112 (some 1001))
        idle
        s'
unfolding create_mprofile
after_malloc =
    malloc_trace-Notes sorted_list nothing_stray (env 1001 4096) idle-Enters here 100
      (omega arith, omega arith, refl)

one_Session :
    Session sorted_list nothing_stray 64 7
      (assign compare nothing_live 4112 (some 1001))
      after_malloc.0
unfolding create_mprofile
one_Session = calls (env 1001 4096) here here start_Session new_record (
    mallocs 100 4112 (record { found = omega arith; small = omega arith; fresh = refl })
      after_malloc.1)

Session-chains_example :
    (recs : Records) × (t : sorted_list.Head) × (build_chains sorted_list
        (after_malloc.0.profs 64).mp_tqhead
        after_malloc.0.store.recs
      ≡ chained recs t)
    × Holds compare compare-IsOrder
        (key sorted_list after_malloc.0.store.recs)
        sorted_list
        t
        (assign compare nothing_live 4112 (some 1001))
    × ((k q : ℕ)
        → assign compare nothing_live 4112 (some 1001) k ≡ some q
        → (recs q).mpr_next_id ≡ 0)
Session-chains_example = Session-chains sorted_list nothing_stray 64 one_Session
