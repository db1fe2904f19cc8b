-- ===== src/Output/Tests.antt =====
-- Output at concrete files.
use ossl_scripts.Stack.{walk_stack, get_stack_id, get_stack_count, get_thread_id}
use ossl_scripts.Output.{
  hexadecimal, decimal, signed, Records, Printed, Memstats, print_stack, MprofileRecord, MpsStack,
  profile_save, print_trace, save_stats, symbol_offset, printed_text, state_alloc, state_free,
}
use ossl_scripts.Base.{
  ◌≡◌, refl, codes, [], none, some, true, ◌∷◌, ◌==◌, ◌++◌, ◌-◌, ◌^◌, ℕ, arith, if◌then◌else◌,
}
use ossl_scripts.Output.Json.{IsJson}
use ossl_scripts.Output.Valid.{save_stats-refused, profile_save-IsJson}

big : decimal 18446744073709551615 ≡ codes "18446744073709551615"
unfolding decimal
big = refl

minus_two : signed 18446744073709551614 ≡ codes "-2"
unfolding signed
minus_two = refl

hexa : hexadecimal 48879 ≡ codes "beef"
unfolding hexadecimal
hexa = refl

abbrev record_of : (state delta : ℕ) → MprofileRecord
record_of state delta = record {
  mpr_id = 1;
  mpr_mem = 4096;
  mpr_realloc = 0;
  mpr_delta = delta;
  mpr_state = state;
  mpr_stack_id = 1;
  mpr_prev_id = 0;
  mpr_next_id = 2;
  mpr_ts = record { tv_sec = 0; tv_nsec = 7 };
}

-- two records, the second a release of 16 bytes
abbrev two_records : Records
two_records e = if e == 1 then record_of state_alloc 16 else record_of state_free (2 ^ 64 - 16)

abbrev two_frames : MpsStack
two_frames = record {
  mps_stack_limit = 64;
  mps_id = 1;
  mps_stack_depth = 2;
  mps_flags = 0;
  mps_count = 1;
  mps_thread = 5;
  mps_stack = 4096 ∷ 4352 ∷ 0 ∷ [];
}

-- every frame is in one function
abbrev in_main : (frame : ℕ) → Printed
in_main frame = symbol_offset (codes "main") frame

stack_run :
    print_stack in_main two_frames []
    ≡ codes "\t{\n\t\t\"id\" : 1,\n\t\t\"stack_count\" : 1,\n\t\t\"thread_id\" : 5,\n"
      ++ codes "\t\t\"stack_trace\" : [ \"main+0x1000\", \"main+0x1100\", \"\" ]\n\t}"
unfolding print_stack print_trace printed_text hexadecimal decimal walk_stack get_stack_id
    get_stack_count get_thread_id
stack_run = refl

profile_save-IsJson_example : IsJson (
    profile_save in_main true
      (record { tv_sec = 1; tv_nsec = 2 })
      (some (codes "two calls"))
      two_records
      (1 ∷ 2 ∷ [])
      (two_frames ∷ [])
      [])
profile_save-IsJson_example =
    profile_save-IsJson in_main (λ frame. ground arith) true (record { tv_sec = 1; tv_nsec = 2 })
      (some (codes "two calls")) (ground arith) two_records (1 ∷ 2 ∷ []) (two_frames ∷ [])

abbrev some_stats : Memstats
some_stats = record {
  ms_total_allocated = 24;
  ms_total_released = 16;
  ms_reallocs = 0;
  ms_allocs = 2;
  ms_free = 1;
  ms_max = 24;
  ms_current = 8;
  ms_start = record { tv_sec = 1; tv_nsec = 2 };
  ms_finish = record { tv_sec = 0; tv_nsec = 0 };
}

save_stats-refused_example :
    ¬ IsJson (save_stats none (record { tv_sec = 3; tv_nsec = 4 }) some_stats [])
save_stats-refused_example =
    save_stats-refused none tt (record { tv_sec = 3; tv_nsec = 4 }) some_stats
