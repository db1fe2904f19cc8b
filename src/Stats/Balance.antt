-- ===== src/Stats/Balance.antt =====
-- The counters of mprofile/init.c agree with one another after every call of a wrapper.
use ossl_scripts.Base.{ℕ, ◌≡◌, true, false, arith, ltb, ◌==◌, Bool-cases, inl, inr}
use ossl_scripts.Words.{◌+w◌, ◌-w◌}
use ossl_scripts.Stats.{
  Memstats, Process, Outcome, done, aborted, spinning, is_intact, malloc_stats, free_stats,
  realloc_stats,
}
use ossl_scripts.Stats.Counters.{with_realloc}
use ossl_scripts.Stats.Runs.{
  hdr, malloc_stats-null, malloc_stats-some, free_stats-null, free_stats-corrupt, free_stats-intact,
  realloc_stats-corrupt, realloc_stats-nothing, realloc_stats-new, realloc_stats-zero,
  realloc_stats-resized, realloc_stats-failed, realloc_stats-new_failed,
}

-- The bytes in use are those allocated less those released, modulo the width of the counters.
abbrev pub IsBalanced : Memstats → Type 0
IsBalanced m = m.ms_current ≡ m.ms_total_allocated -w m.ms_total_released

-- A run that ends or is stopped by `abort` keeps `P`; it does not run out of fuel.
abbrev pub Keeps : {A : Type 0} → (Memstats → Type 0) → Outcome A → Type 0
Keeps P (done a p) = P p.ms
Keeps P aborted = Unit
Keeps P spinning = ⊥

-- Whatever `malloc` answers, `mp_CRYPTO_malloc_stats` ends and keeps the balance.
pub malloc_stats-IsBalanced :
    (malloc : ℕ → ℕ) (sz : ℕ) (p : Process)
    → IsBalanced p.ms
    → Keeps IsBalanced (malloc_stats malloc sz p)
malloc_stats-IsBalanced malloc sz p h = elim (Bool-cases (malloc (sz +w 16) == 0)) [
  | inl failed ↦ rw (malloc_stats-null malloc sz p failed) h
  | inr got ↦ rw (malloc_stats-some malloc sz p got) (omega arith)
]

pub free_stats-IsBalanced :
    (b : ℕ) (p : Process) → IsBalanced p.ms → Keeps IsBalanced (free_stats b p)
free_stats-IsBalanced b p h = elim (Bool-cases (b == 0)) [
  | inl null ↦ rw (free_stats-null b p null) h
  | inr some_b ↦ elim (Bool-cases (is_intact (b -w 16) (hdr b p))) [
    | inl good ↦ rw (free_stats-intact b p some_b good) (omega arith)
    | inr bad ↦ rw (free_stats-corrupt b p some_b bad) tt
  ]
]

with_realloc-IsBalanced :
    (old sz : ℕ) (m : Memstats) → IsBalanced m → IsBalanced (with_realloc old sz m)
with_realloc-IsBalanced old sz m h = elim (Bool-cases (ltb sz old)) [
  | inl shrinks ↦ rw shrinks (omega arith)
  | inr grows ↦ rw grows (omega arith)
]

module _ (realloc : ℕ → ℕ → ℕ) (b sz : ℕ) (p : Process) (h : IsBalanced p.ms) where
  realloc_null-IsBalanced : (b == 0) ≡ true → Keeps IsBalanced (realloc_stats realloc b sz p)
  realloc_null-IsBalanced null = elim (Bool-cases (sz == 0)) [
    | inl z ↦ rw (realloc_stats-nothing realloc b sz p null z) h
    | inr nz ↦ elim (Bool-cases (realloc 0 (sz +w 16) == 0)) [
      | inl failed ↦ rw (realloc_stats-new_failed realloc b sz p null nz failed) h
      | inr got ↦ rw (realloc_stats-new realloc b sz p null nz got) (omega arith)
    ]
  ]

  realloc_live-IsBalanced :
      (b == 0) ≡ false
      → is_intact (b -w 16) (hdr b p) ≡ true
      → Keeps IsBalanced (realloc_stats realloc b sz p)
  realloc_live-IsBalanced live good = elim (Bool-cases (sz == 0)) [
    | inl z ↦ rw (realloc_stats-zero realloc b sz p live good z) (omega arith)
    | inr nz ↦ elim (Bool-cases (realloc (b -w 16) (sz +w 16) == 0)) [
      | inl failed ↦ rw (realloc_stats-failed realloc b sz p live good nz failed) h
      | inr got ↦
          rw (realloc_stats-resized realloc b sz p live good nz got)
            (with_realloc-IsBalanced (hdr b p).mh_size sz p.ms h)
    ]
  ]

  -- Whatever `realloc` answers, `mp_CRYPTO_realloc_stats` keeps the balance, or aborts.
  pub realloc_stats-IsBalanced : Keeps IsBalanced (realloc_stats realloc b sz p)
  realloc_stats-IsBalanced = elim (Bool-cases (b == 0)) [
    | inl null ↦ realloc_null-IsBalanced null
    | inr live ↦ elim (Bool-cases (is_intact (b -w 16) (hdr b p))) [
      | inl good ↦ realloc_live-IsBalanced live good
      | inr bad ↦ rw (realloc_stats-corrupt realloc b sz p live bad) tt
    ]
  ]
