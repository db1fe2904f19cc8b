-- ===== src/Stats/Runs.antt =====
-- What each wrapper of mprofile/init.c returns and leaves behind, branch by branch.
use ossl_scripts.Base.{ℕ, ◌≡◌, true, false, ◌∷◌, ◌==◌, if◌then◌else◌, Bool-cases, inl, inr}
use ossl_scripts.Words.{◌+w◌, ◌-w◌}
use ossl_scripts.Stats.{
  Memhdr, Process, done, aborted, malloc_call, realloc_call, free_call, write, header, is_intact,
  malloc_stats, free_stats, realloc_stats,
}
use ossl_scripts.Stats.Counters.{
  with_alloc, with_free, with_realloc, count_alloc_lem, count_free_lem, count_realloc_lem,
}

-- the state after a block of `sz` bytes has been placed behind a header at `mh`
abbrev pub placed : (mh sz : ℕ) → Process → Process
placed mh sz p = record p { mem = write p.mem mh (header mh sz) }

module _ (malloc : ℕ → ℕ) (sz : ℕ) (p : Process) where
  abbrev pub asked_malloc : Process
  asked_malloc = record p { calls = malloc_call (sz +w 16) ∷ p.calls }

  pub malloc_stats-null :
      (malloc (sz +w 16) == 0) ≡ true → malloc_stats malloc sz p ≡ done 0 asked_malloc
  unfolding malloc_stats
  malloc_stats-null h = rw h

  pub malloc_stats-some :
      (malloc (sz +w 16) == 0) ≡ false
      → malloc_stats malloc sz p
        ≡ done
            (malloc (sz +w 16) +w 16)
            (record (placed (malloc (sz +w 16)) sz asked_malloc) { ms = with_alloc sz p.ms })
  unfolding malloc_stats
  malloc_stats-some h = rw (h, count_alloc_lem)

module _ (b : ℕ) (p : Process) where
  pub free_stats-null :
      (b == 0) ≡ true → free_stats b p ≡ done tt (record p { calls = free_call 0 ∷ p.calls })
  unfolding free_stats
  free_stats-null h = rw h

  abbrev pub hdr : Memhdr
  hdr = p.mem (b -w 16)

  pub free_stats-corrupt :
      (b == 0) ≡ false → is_intact (b -w 16) hdr ≡ false → free_stats b p ≡ aborted
  unfolding free_stats
  free_stats-corrupt h bad = rw (h, bad)

  pub free_stats-intact :
      (b == 0) ≡ false
      → is_intact (b -w 16) hdr ≡ true
      → free_stats b p
        ≡ done tt
            (record p { ms = with_free hdr.mh_size p.ms; calls = free_call (b -w 16) ∷ p.calls })
  unfolding free_stats
  free_stats-intact h good = rw (h, good, count_free_lem)

module _ (realloc : ℕ → ℕ → ℕ) (b sz : ℕ) (p : Process) where
  abbrev pub asked_realloc : (mh size : ℕ) → Process
  asked_realloc mh size = record p { calls = realloc_call mh size ∷ p.calls }

  pub realloc_stats-corrupt :
      (b == 0) ≡ false
      → is_intact (b -w 16) (hdr b p) ≡ false
      → realloc_stats realloc b sz p ≡ aborted
  unfolding realloc_stats
  realloc_stats-corrupt h bad = rw (h, bad)

  -- `realloc(NULL, 0)`: nothing is counted and no header is written.
  pub realloc_stats-nothing :
      (b == 0) ≡ true
      → (sz == 0) ≡ true
      → realloc_stats realloc b sz p
        ≡ done (if realloc 0 0 == 0 then 0 else (realloc 0 0 +w 16)) (asked_realloc 0 0)
  unfolding realloc_stats
  realloc_stats-nothing h z = elim (Bool-cases (realloc 0 0 == 0)) [
    | inl e ↦ rw (h, z, e)
    | inr e ↦ rw (h, z, e)
  ]

  pub realloc_stats-new :
      (b == 0) ≡ true
      → (sz == 0) ≡ false
      → (realloc 0 (sz +w 16) == 0) ≡ false
      → realloc_stats realloc b sz p
        ≡ done
            (realloc 0 (sz +w 16) +w 16)
            (record (placed (realloc 0 (sz +w 16)) sz (asked_realloc 0 (sz +w 16))) {
              ms = with_alloc sz p.ms;
            })
  unfolding realloc_stats
  realloc_stats-new h z got = rw (h, z, got, count_alloc_lem)

  pub realloc_stats-new_failed :
      (b == 0) ≡ true
      → (sz == 0) ≡ false
      → (realloc 0 (sz +w 16) == 0) ≡ true
      → realloc_stats realloc b sz p ≡ done 0 (asked_realloc 0 (sz +w 16))
  unfolding realloc_stats
  realloc_stats-new_failed h z failed = rw (h, z, failed)

  module _ (live : (b == 0) ≡ false) (good : is_intact (b -w 16) (hdr b p) ≡ true) where
    pub realloc_stats-zero :
        (sz == 0) ≡ true
        → realloc_stats realloc b sz p
          ≡ done
              (if realloc (b -w 16) 0 == 0 then 0 else (realloc (b -w 16) 0 +w 16))
              (record (asked_realloc (b -w 16) 0) { ms = with_free (hdr b p).mh_size p.ms })
    unfolding realloc_stats
    realloc_stats-zero z = elim (Bool-cases (realloc (b -w 16) 0 == 0)) [
      | inl e ↦ rw (live, good, z, count_free_lem, e)
      | inr e ↦ rw (live, good, z, count_free_lem, e)
    ]

    pub realloc_stats-resized :
        (sz == 0) ≡ false
        → (realloc (b -w 16) (sz +w 16) == 0) ≡ false
        → realloc_stats realloc b sz p
          ≡ done
              (realloc (b -w 16) (sz +w 16) +w 16)
              (record (placed
                (realloc (b -w 16) (sz +w 16))
                sz
                (asked_realloc (b -w 16) (sz +w 16))) {
                  ms = with_realloc (hdr b p).mh_size sz p.ms;
                })
    unfolding realloc_stats
    realloc_stats-resized z got = rw (live, good, z, got, count_realloc_lem)

    -- a failed resize counts nothing
    pub realloc_stats-failed :
        (sz == 0) ≡ false
        → (realloc (b -w 16) (sz +w 16) == 0) ≡ true
        → realloc_stats realloc b sz p ≡ done 0 (asked_realloc (b -w 16) (sz +w 16))
    unfolding realloc_stats
    realloc_stats-failed z none = rw (live, good, z, none)
