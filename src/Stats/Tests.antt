-- ===== src/Stats/Tests.antt =====
-- Runs of the wrappers of mprofile/init.c, and the theorems at them.
use ossl_scripts.Base.{ℕ, refl, [], ◌∷◌, ◌≡◌, arith}
use ossl_scripts.Words.{◌-w◌}
use ossl_scripts.Stats.{
  realloc_stats, Memstats, Process, raise_max, malloc_stats, count_alloc, done, count_realloc,
  free_stats, ◌>>=◌, update_alloc, aborted, write, header, realloc_call, malloc_call,
}
use ossl_scripts.Stats.Ledger.{total, Represents, block}
use ossl_scripts.Stats.Session.{Session, Session-Represents, mallocs, Session-leaks, start}
use ossl_scripts.Stats.Counters.{with_alloc}
use ossl_scripts.Stats.Runs.{placed, asked_realloc, asked_malloc, malloc_stats-some}
use ossl_scripts.Stats.Faults.{realloc_nothing-free_aborts}

abbrev no_counts : Memstats
no_counts = record {
  ms_total_allocated = 0;
  ms_total_released = 0;
  ms_reallocs = 0;
  ms_allocs = 0;
  ms_free = 0;
  ms_max = 0;
  ms_current = 0;
  ms_start = record { tv_sec = 0; tv_nsec = 0 };
  ms_finish = record { tv_sec = 0; tv_nsec = 0 };
}

abbrev fresh_process : Process
fresh_process = record { ms = no_counts; mem = λ _. record { mh_size = 0; mh_chk = 0 }; calls = [] }

-- `malloc` answers 4096, and `realloc` 8192
abbrev malloc_4096 : ℕ → ℕ
malloc_4096 _ = 4096

abbrev realloc_8192 : ℕ → ℕ → ℕ
realloc_8192 _ _ = 8192

abbrev one_block : Process
one_block = record (placed 4096 256 (asked_malloc malloc_4096 256 fresh_process)) {
  ms = with_alloc 256 no_counts;
}

one-Session : Session (block 4096 256 ∷ []) 256 one_block
unfolding total
one-Session =
    mallocs malloc_4096 256 4112
      (start (record { current = refl; maximum = refl; allocated = refl; released = refl }))
      (record { found = omega arith; small = omega arith; fresh = tt }) (omega arith)
      (malloc_stats-some malloc_4096 256 fresh_process refl)

malloc_then_grow :
    (malloc_stats malloc_4096 256 >>= λ b. realloc_stats realloc_8192 b 512) fresh_process
    ≡ done 8208 (record {
      ms = record no_counts {
        ms_allocs = 1;
        ms_reallocs = 1;
        ms_total_allocated = 512;
        ms_current = 512;
        ms_max = 512;
      };
      mem = write (write fresh_process.mem 4096 (header 4096 256)) 8192 (header 8192 512);
      calls = realloc_call 4096 528 ∷ malloc_call 272 ∷ [];
    })
unfolding malloc_stats realloc_stats count_alloc count_realloc update_alloc raise_max
malloc_then_grow = refl

Session-leaks_example :
    (one_block.ms.ms_total_allocated -w one_block.ms.ms_total_released
      ≡ total (block 4096 256 ∷ []))
    × (one_block.ms.ms_max ≡ 256)
Session-leaks_example = Session-leaks one-Session

one_ledger : Represents (block 4096 256 ∷ []) 256 one_block
one_ledger = Session-Represents one-Session

-- `realloc(NULL, 0)` answers 4096, where memory holds no header.
abbrev bare : Process
bare = record fresh_process { mem = λ _. record { mh_size = 1; mh_chk = 1 } }

realloc_nothing-free_aborts_example :
    (realloc_stats (λ _ _. 4096) 0 0 bare ≡ done 4112 (asked_realloc (λ _ _. 4096) 0 0 bare 0 0))
    × ((realloc_stats (λ _ _. 4096) 0 0 >>= free_stats) bare ≡ aborted)
realloc_nothing-free_aborts_example =
    realloc_nothing-free_aborts (λ _ _. 4096) bare (omega arith) (omega arith) refl
