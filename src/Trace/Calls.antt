-- ===== src/Trace/Calls.antt =====
-- `mp_CRYPTO_malloc_trace` of mprofile/init.c against the buffers that the program holds: the call notes
-- the event that happened.
use ossl_scripts.Profile.{record_alloc}
use ossl_scripts.Base.{
  none, some, inl, inr, Ordering-cases, ◌∷◌, refl, ◌≡◌, ◌+◌, ◌<◌, ◌%◌, ◌^◌, ℕ, Option, arith,
  ==_of_ne,
}
use ossl_scripts.Words.{◌+w◌}
use ossl_scripts.Tree.{RbTree}
use ossl_scripts.Stack.{Stray, MpsStack}
use ossl_scripts.Trace.{Env, Tracer, malloc_trace, traced, malloc_call}
use ossl_scripts.Record.History.{Live, event, opens}
use ossl_scripts.Trace.Events.{IsHeaded, Enters, Notes, noted, placed, got, note, IsHeaded-place}
use ossl_scripts.Tree.Map.{assign}
use Prim.Native.Nat.{compare}
use ossl_scripts.Stats.{Memhdr}
use ossl_scripts.Tree.Keyed.{compare-IsOrder}

-- a record at NULL, where no buffer stands
IsHeaded-null :
    (mem : ℕ → Memhdr) (m : Live) (r : ℕ)
    → IsHeaded mem m
    → IsHeaded mem (assign compare m 0 (some r))
IsHeaded-null mem m r old b q real h = elim (Ordering-cases (compare b 0)) [
  | inl less ↦ old b q real (rw less at h)
  | inr (inl same) ↦
      absurd (let e : b ≡ 0 = (compare-IsOrder.eq_iff b 0).0 same in omega (arith, e, real))
  | inr (inr more) ↦ old b q real (rw more at h)
]

module _ (T : RbTree) (stray : Stray) (env : Env T stray) {mp : ℕ} {m : Live} {s : Tracer T stray}
    (f : Enters T stray env.thread mp m s) where
  -- After a `mp_CRYPTO_malloc_trace` for which `malloc` has room the block is live, by its record,
  -- and the call notes it.
  pub malloc_trace-Notes :
      (mps : Option MpsStack) (sz : ℕ)
      → (let mh = env.malloc (sz +w 16) in (0 < mh) × (mh + 16 < 2 ^ 64) × (m (mh + 16) ≡ none))
      → (s' : Tracer T stray) × (malloc_trace T stray env mps sz s
          ≡ traced (env.malloc (sz +w 16) + 16) s')
        × Notes T stray env.answers mps mp m
            (assign compare m (env.malloc (sz +w 16) + 16) (some env.answers.rec))
            s
            s'
  unfolding malloc_trace record_alloc event opens
  malloc_trace-Notes mps sz (pos, small, absent) =
      let mh : ℕ = env.malloc (sz +w 16) in
      let moved : (mh + 16) % 2 ^ 64 ≡ mh + 16 = omega arith in
      (
        noted T stray mp (record_alloc T stray env.answers (mh + 16) sz mps)
            (placed T stray env f mh sz (malloc_call (sz +w 16))),
        rw (malloc_trace, got T stray env f, ==_of_ne mh 0 (omega arith), moved) refl,
        note T stray env.answers _ mps mp _ none s
            (placed T stray env f mh sz (malloc_call (sz +w 16))) (refl, refl) (rw absent refl) refl
            refl refl refl (IsHeaded-place s.mem m mh sz env.answers.rec pos small f.headed),
      )

  -- After a `mp_CRYPTO_malloc_trace` for which `malloc` has no room the call notes an allocation at
  -- NULL, if it is the first such.
  pub malloc_trace-Notes_failed :
      (mps : Option MpsStack) (sz : ℕ)
      → env.malloc (sz +w 16) ≡ 0
      → m 0 ≡ none
      → (s' : Tracer T stray) × (malloc_trace T stray env mps sz s ≡ traced 0 s')
        × Notes T stray env.answers mps mp m (assign compare m 0 (some env.answers.rec)) s s'
  unfolding malloc_trace record_alloc event opens
  malloc_trace-Notes_failed mps sz failed absent =
      let called : Tracer T stray = record s { calls = malloc_call (sz +w 16) ∷ s.calls } in
      (
        noted T stray mp (record_alloc T stray env.answers 0 sz mps) called,
        rw (malloc_trace, got T stray env f, failed) refl,
        note T stray env.answers _ mps mp _ none s called (refl, refl) (rw absent refl) refl refl
            refl refl (IsHeaded-null s.mem m env.answers.rec f.headed),
      )
