-- ===== src/Stats/Faults.antt =====
-- How the wrappers of mprofile/init.c meet blocks that are not theirs.
use ossl_scripts.Base.{ℕ, ◌≡◌, refl, ◌<◌, ◌+◌, ◌^◌, false, arith, ◌%◌, ==_of_ne}
use ossl_scripts.Stats.{Process, is_intact, realloc_stats, done, ◌>>=◌, free_stats, aborted, ◌-w◌}
use ossl_scripts.Stats.Runs.{asked_realloc, realloc_stats-nothing, free_stats-corrupt}

-- A block from `CRYPTO_realloc(NULL, 0)` carries no header. If libc answers with an address, the
-- caller gets the address 16 bytes behind it, nothing is counted, and a later `CRYPTO_free` aborts
-- unless the memory at the address happens to hold a matching checksum.
pub realloc_nothing-free_aborts :
    (realloc : ℕ → ℕ → ℕ) (p : Process)
    → 0 < realloc 0 0
    → realloc 0 0 + 16 < 2 ^ 64
    → is_intact (realloc 0 0) (p.mem (realloc 0 0)) ≡ false
    → (realloc_stats realloc 0 0 p ≡ done (realloc 0 0 + 16) (asked_realloc realloc 0 0 p 0 0))
      × ((realloc_stats realloc 0 0 >>= free_stats) p ≡ aborted)
realloc_nothing-free_aborts realloc p pos small bad = (made, rw made freed)
  where
    moved : (realloc 0 0 + 16) % 2 ^ 64 ≡ realloc 0 0 + 16
    moved = omega arith

    back : (realloc 0 0 + 16) -w 16 ≡ realloc 0 0
    back = omega arith

    made : realloc_stats realloc 0 0 p ≡ done (realloc 0 0 + 16) (asked_realloc realloc 0 0 p 0 0)
    made =
        rw
          (
            realloc_stats-nothing realloc 0 0 p refl refl,
            ==_of_ne (realloc 0 0) 0 (omega arith),
            moved,
          )
          refl

    freed : free_stats (realloc 0 0 + 16) (asked_realloc realloc 0 0 p 0 0) ≡ aborted
    freed =
        free_stats-corrupt (realloc 0 0 + 16) (asked_realloc realloc 0 0 p 0 0) (ground arith)
          (rw (back) bad)
