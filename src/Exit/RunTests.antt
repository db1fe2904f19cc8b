-- ===== src/Exit/RunTests.antt =====
-- A run of two threads, and the theorems at it.
use ossl_scripts.Save.Sample.{nothing_stray, no_stacks}
use ossl_scripts.Trace.Program.{Program, start, calls}
use ossl_scripts.Trace.Steps.{mallocs, frees}
use ossl_scripts.Profile.{
  create_mprofile, record_free, record_alloc, record_event, blank, append_record,
}
use ossl_scripts.Trace.{
  get_mprofile, add_profile, on_profile, malloc_trace, free_trace, traced, Traced, Tracer, Env,
}
use ossl_scripts.Base.{[], none, some, refl, ◌+◌, ℕ, arith, true, ◌∷◌}
use ossl_scripts.Tree.Model.{sorted_list}
use ossl_scripts.Stats.{header}
use ossl_scripts.Save.Sorted.{all_records}
use ossl_scripts.Tree.Map.{assign}
use Prim.Native.Nat.{compare}
use ossl_scripts.Record.History.{nothing_live}
use ossl_scripts.Exit.{save_profile_trace_link_chains, save_profile_trace}
use ossl_scripts.Exit.Tests.{nothing_outside, nothing-IsPlainOutside}
use ossl_scripts.Record.Build.{linked_all}
use ossl_scripts.Trace.Shared.{queues_of}
use ossl_scripts.Exit.Run.{Leaves, Program-file, Program-trace_file}

-- a call by a thread, with the address of its profile, that of the next record, and what `malloc` answers
abbrev env : (thread profile rec at : ℕ) → Env sorted_list nothing_stray
env thread profile rec at = record {
  thread = thread;
  profile = profile;
  malloc = λ _. at;
  realloc = λ _ _. at;
  answers = record {
    rec = rec;
    stack = rec + 1000;
    junk = 0;
    now = record { tv_sec = rec; tv_nsec = 0 };
  };
}

-- before the first call
abbrev loaded : Tracer sorted_list nothing_stray
loaded = record {
  mem = λ _. header 0 0;
  store = record {
    recs = λ _. blank sorted_list nothing_stray (record { tv_sec = 0; tv_nsec = 0 });
    stacks = no_stacks;
    mpr_id = 0;
  };
  profs = λ _. create_mprofile sorted_list nothing_stray;
  profiles = [];
  specific = λ _. 0;
  calls = [];
}

state_of : {A : Type 0} → Traced sorted_list nothing_stray A → Tracer sorted_list nothing_stray
state_of (traced a s) = s
state_of ossl_scripts.Trace.aborted = loaded
state_of ossl_scripts.Trace.crashed = loaded

-- the thread 7 allocates a buffer, and the thread 8 releases it
abbrev allocated : Tracer sorted_list nothing_stray
unfolding state_of malloc_trace get_mprofile add_profile on_profile create_mprofile record_alloc
    record_event append_record
allocated = state_of (malloc_trace sorted_list nothing_stray (env 7 64 1001 4096) none 100 loaded)

abbrev released : Tracer sorted_list nothing_stray
unfolding state_of free_trace get_mprofile add_profile on_profile create_mprofile record_free
    record_event append_record
released = state_of (free_trace sorted_list nothing_stray (env 8 65 1002 0) none 4112 allocated)

one_call :
    Program sorted_list nothing_stray 1 (assign compare nothing_live 4112 (some 1001)) allocated
unfolding state_of malloc_trace get_mprofile add_profile on_profile create_mprofile record_alloc
    record_event append_record all_records
one_call =
    calls (env 7 64 1001 4096) (start refl (λ t. refl) refl)
      (record {
        rec_real = omega arith;
        rec_new = tt;
        profile_real = omega arith;
        profile_new = tt;
      })
      (mallocs 100 4112 (record { found = omega arith; small = omega arith; fresh = refl }) refl)

two_calls :
    Program sorted_list nothing_stray 2
      (assign compare (assign compare nothing_live 4112 (some 1001)) 4112 none)
      released
unfolding state_of malloc_trace free_trace get_mprofile add_profile on_profile create_mprofile
    record_alloc record_free record_event append_record all_records
two_calls =
    calls (env 8 65 1002 0) one_call
      (record {
        rec_real = omega arith;
        rec_new = (ground arith, tt);
        profile_real = omega arith;
        profile_new = (ground arith, tt);
      })
      (frees 4112 1001 (omega arith) refl refl)

Program-file_example :
    Leaves nothing_outside sorted_list nothing_stray true
      (record { tv_sec = 1; tv_nsec = 2 })
      nothing-IsPlainOutside
      (assign compare (assign compare nothing_live 4112 (some 1001)) 4112 none)
      released
      64
      (λ links. linked_all links released.store.recs)
      (save_profile_trace_link_chains sorted_list nothing_stray nothing_outside true
        (record { tv_sec = 1; tv_nsec = 2 })
        (queues_of sorted_list nothing_stray released.profs)
        released.profiles
        (λ mp. (released.profs mp).mp_stset)
        released.store.stacks
        released.store.recs)
unfolding state_of malloc_trace free_trace get_mprofile add_profile on_profile create_mprofile
    record_alloc record_free record_event append_record
Program-file_example =
    Program-file nothing_outside sorted_list nothing_stray true (record { tv_sec = 1; tv_nsec = 2 })
      64 (65 ∷ []) nothing-IsPlainOutside two_calls (omega arith) refl

Program-trace_file_example :
    Leaves nothing_outside sorted_list nothing_stray true
      (record { tv_sec = 1; tv_nsec = 2 })
      nothing-IsPlainOutside
      (assign compare (assign compare nothing_live 4112 (some 1001)) 4112 none)
      released
      64
      (λ _. released.store.recs)
      (save_profile_trace sorted_list nothing_stray nothing_outside true
        (record { tv_sec = 1; tv_nsec = 2 })
        (queues_of sorted_list nothing_stray released.profs)
        released.profiles
        (λ mp. (released.profs mp).mp_stset)
        released.store.stacks
        released.store.recs)
unfolding state_of malloc_trace free_trace get_mprofile add_profile on_profile create_mprofile
    record_alloc record_free record_event append_record
Program-trace_file_example =
    Program-trace_file nothing_outside sorted_list nothing_stray true
      (record { tv_sec = 1; tv_nsec = 2 }) 64 (65 ∷ []) nothing-IsPlainOutside two_calls
      (omega arith) refl
