-- ===== src/Stats/Counters.antt =====
-- The effect on the counters of mprofile/init.c of each group of updates, as a function.
use Prim.Native.Nat.{max}
use ossl_scripts.Base.{
  ℕ, suc, ◌≡◌, some, arith, ltb, if◌then◌else◌, Bool-cases, inl, inr, ◌+◌, ◌≤◌, ◌<◌, ◌^◌, ltb→lt,
  ltb→ge,
}
use ossl_scripts.Words.{◌+w◌, ◌-w◌}
use ossl_scripts.Stats.{
  Memstats, Process, done, raise_max, update_alloc, count_alloc, count_free, count_realloc,
}

-- With three rounds of fuel the loop stores the larger of the two.
pub raise_max-eq-max :
    (fuel current shared : ℕ)
    → raise_max (suc (suc (suc fuel))) current shared shared ≡ some (max shared current)
unfolding raise_max
raise_max-eq-max fuel current shared = ground arith

abbrev pub raised : ℕ → Memstats → Memstats
raised delta m = record m {
  ms_current = m.ms_current +w delta;
  ms_max = max m.ms_max (m.ms_current +w delta);
}

abbrev pub with_alloc : ℕ → Memstats → Memstats
with_alloc sz m =
    raised sz
      (record m { ms_allocs = m.ms_allocs +w 1; ms_total_allocated = m.ms_total_allocated +w sz })

abbrev pub with_free : ℕ → Memstats → Memstats
with_free size m = record m {
  ms_free = m.ms_free +w 1;
  ms_total_released = m.ms_total_released +w size;
  ms_current = m.ms_current -w size;
}

abbrev pub with_shrink : ℕ → Memstats → Memstats
with_shrink delta m = record m {
  ms_reallocs = m.ms_reallocs +w 1;
  ms_total_released = m.ms_total_released +w delta;
  ms_current = m.ms_current -w delta;
}

abbrev pub with_growth : ℕ → Memstats → Memstats
with_growth delta m = raised delta (record m {
  ms_reallocs = m.ms_reallocs +w 1;
  ms_total_allocated = m.ms_total_allocated +w delta;
})

abbrev pub with_realloc : (old sz : ℕ) → Memstats → Memstats
with_realloc old sz m = if ltb sz old then with_shrink (old -w sz) m else with_growth (sz -w old) m

update_alloc_lem :
    (delta : ℕ) (p : Process) → update_alloc delta p ≡ done tt (record p { ms = raised delta p.ms })
unfolding update_alloc
update_alloc_lem delta p =
    rw (update_alloc, raise_max-eq-max 0 (p.ms.ms_current +w delta) p.ms.ms_max)

pub count_alloc_lem :
    (sz : ℕ) (p : Process) → count_alloc sz p ≡ done tt (record p { ms = with_alloc sz p.ms })
unfolding count_alloc
count_alloc_lem sz p = rw update_alloc_lem

pub count_free_lem :
    (size : ℕ) (p : Process) → count_free size p ≡ done tt (record p { ms = with_free size p.ms })
unfolding count_free
count_free_lem size p = ground arith

pub count_realloc_lem :
    (old sz : ℕ) (p : Process)
    → count_realloc old sz p ≡ done tt (record p { ms = with_realloc old sz p.ms })
unfolding count_realloc
count_realloc_lem old sz p = elim (Bool-cases (ltb sz old)) [
  | inl shrinks ↦ rw shrinks
  | inr grows ↦ rw (grows, update_alloc_lem)
]

-- On counters that do not wrap, a resize takes the bytes in use from `old` to `sz`, and keeps the
-- maximum.
pub with_realloc_tracks :
    (old sz rest : ℕ) (m : Memstats)
    → m.ms_current ≡ old + rest
    → old + rest ≤ m.ms_max
    → m.ms_max < 2 ^ 64
    → rest + sz < 2 ^ 64
    → ((with_realloc old sz m).ms_current ≡ rest + sz)
      × ((with_realloc old sz m).ms_max ≡ max m.ms_max (rest + sz))
with_realloc_tracks old sz rest m held below bound room = elim (Bool-cases (ltb sz old)) [
  | inl shrinks ↦
      rw shrinks (omega (arith, ltb→lt sz old shrinks), omega (arith, ltb→lt sz old shrinks))
  | inr grows ↦ rw grows (omega (arith, ltb→ge sz old grows), omega (arith, ltb→ge sz old grows))
]
