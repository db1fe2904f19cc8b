-- ===== src/Trace/Release.antt =====
-- The trace wrappers of mprofile/init.c that give a live buffer back to libc or move it.
use ossl_scripts.Profile.{record_free, record_realloc, record_alloc}
use ossl_scripts.Base.{
  none, some, inl, inr, refl, ◌∷◌, ◌≡◌, ◌==◌, ◌+◌, ◌<◌, ◌%◌, ◌^◌, ℕ, Option, arith, Ordering-cases,
  if◌then◌else◌, Bool-cases, ==_of_ne,
}
use ossl_scripts.Words.{◌+w◌, ◌-w◌}
use ossl_scripts.Tree.{RbTree}
use ossl_scripts.Stats.{Memhdr, LibcCall, realloc_call, free_call}
use ossl_scripts.Record.History.{Live, event, opens}
use ossl_scripts.Stack.{Stray, MpsStack}
use ossl_scripts.Trace.{Env, Tracer, realloc_trace, free_trace, realloc_trace_tail, traced}
use ossl_scripts.Trace.Events.{IsHeaded, Enters, Notes, noted, placed, got, note, IsHeaded-place}
use ossl_scripts.Tree.Map.{assign}
use Prim.Native.Nat.{compare}

IsHeaded-forget :
    (mem : ℕ → Memhdr) (m : Live) (b : ℕ) → IsHeaded mem m → IsHeaded mem (assign compare m b none)
IsHeaded-forget mem m b old j q real h = elim (Ordering-cases (compare j b)) [
  | inl less ↦ old j q real (rw less at h)
  | inr (inl same) ↦ let bad : none ≡ some q = rw same at h in cc
  | inr (inr more) ↦ old j q real (rw more at h)
]

module _ (T : RbTree) (stray : Stray) (env : Env T stray) {mp : ℕ} {m : Live} {s : Tracer T stray}
    (f : Enters T stray env.thread mp m s) where
  -- the state in which a wrapper has made the call `c`
  abbrev pub called : LibcCall → Tracer T stray
  called c = record s { calls = c ∷ s.calls }

  -- After a `mp_CRYPTO_free_trace` of a live buffer the buffer is not live, and the call notes it.
  pub free_trace-Notes :
      (mps : Option MpsStack) (b q : ℕ)
      → 0 < b
      → m b ≡ some q
      → (s' : Tracer T stray) × (free_trace T stray env mps b s ≡ traced tt s')
        × Notes T stray env.answers mps mp m (assign compare m b none) s s'
  unfolding free_trace record_free event
  free_trace-Notes mps b q real here =
      let (low, high, good) = f.headed b q real here in
      (
        noted T stray mp (record_free T stray env.answers b (s.mem (b -w 16)).mh_size mps)
            (called (free_call (b -w 16))),
        rw (free_trace, got T stray env f, ==_of_ne b 0 (omega arith), good) refl,
        note T stray env.answers _ mps mp _ (some q) s (called (free_call (b -w 16))) (refl, refl)
            (rw (==_of_ne b 0 (omega arith), here) refl) refl refl refl refl
            (IsHeaded-forget s.mem m b f.headed),
      )

  -- After a `mp_CRYPTO_realloc_trace` of a live buffer to a size that is not 0, for which `realloc`
  -- has room, the new buffer is live in place of the old one, which it may equal, and the call notes
  -- this event.
  pub realloc_trace-Notes :
      (before mps : Option MpsStack) (b q sz : ℕ)
      → 0 < b
      → m b ≡ some q
      → 0 < sz
      → (let mh = env.realloc (b -w 16) (sz +w 16) in
          (0 < mh) × (mh + 16 < 2 ^ 64) × (assign compare m b none (mh + 16) ≡ none))
      → (s' : Tracer T stray) × (realloc_trace T stray env before mps b sz s
          ≡ traced (env.realloc (b -w 16) (sz +w 16) + 16) s')
        × Notes T stray env.answers mps mp m
            (assign compare
              (assign compare m b none)
              (env.realloc (b -w 16) (sz +w 16) + 16)
              (some env.answers.rec))
            s
            s'
  unfolding realloc_trace realloc_trace_tail record_realloc event opens
  realloc_trace-Notes before mps b q sz real here some_bytes (pos, small, absent) =
      let mh : ℕ = env.realloc (b -w 16) (sz +w 16) in
      let moved : (mh + 16) % 2 ^ 64 ≡ mh + 16 = omega arith in
      let (low, high, good) = f.headed b q real here in
      let c : LibcCall = realloc_call (b -w 16) (sz +w 16) in
      (
        noted T stray mp
            (record_realloc T stray env.answers (mh + 16) sz (s.mem (b -w 16)).mh_size b mps)
            (placed T stray env f mh sz c),
        rw
            (
              realloc_trace,
              got T stray env f,
              ==_of_ne b 0 (omega arith),
              good,
              ==_of_ne sz 0 (omega arith),
              ==_of_ne mh 0 (omega arith),
              moved,
            )
            refl,
        note T stray env.answers _ mps mp _ (some q) s (placed T stray env f mh sz c) (refl, refl)
            (rw (here, absent) refl) refl refl refl refl
            (IsHeaded-place s.mem (assign compare m b none) mh sz env.answers.rec pos small
              (IsHeaded-forget s.mem m b f.headed)),
      )

  -- A release of NULL is recorded, and changes no buffer.
  pub free_null-Notes :
      (mps : Option MpsStack)
      → (s' : Tracer T stray) × (free_trace T stray env mps 0 s ≡ traced tt s')
        × Notes T stray env.answers mps mp m m s s'
  unfolding free_trace record_free event
  free_null-Notes mps = (
    noted T stray mp (record_free T stray env.answers 0 0 mps) (called (free_call 0)),
    rw (free_trace, got T stray env f) refl,
    note T stray env.answers _ mps mp _ none s (called (free_call 0)) (refl, refl) refl refl refl
        refl refl f.headed,
  )

  -- After a `mp_CRYPTO_realloc_trace` of a live buffer to no bytes the buffer is not live, and the
  -- call notes it, whatever `realloc` answers; the wrapper answers the old address unless `realloc`
  -- answers NULL.
  pub realloc_release-Notes :
      (before mps : Option MpsStack) (b q : ℕ)
      → 0 < b
      → m b ≡ some q
      → (s' : Tracer T stray) × (realloc_trace T stray env before mps b 0 s
          ≡ traced (if env.realloc (b -w 16) 0 == 0 then 0 else b) s')
        × Notes T stray env.answers before mp m (assign compare m b none) s s'
  unfolding realloc_trace realloc_trace_tail record_free event
  realloc_release-Notes before mps b q real here =
      let (low, high, good) = f.headed b q real here in
      let c : LibcCall = realloc_call (b -w 16) 0 in
      (
        noted T stray mp (record_free T stray env.answers b (s.mem (b -w 16)).mh_size before)
            (called c),
        elim (Bool-cases (env.realloc (b -w 16) 0 == 0)) [
          | inl null ↦
              rw (realloc_trace, got T stray env f, ==_of_ne b 0 (omega arith), good, null) refl
          | inr given ↦
              rw (realloc_trace, got T stray env f, ==_of_ne b 0 (omega arith), good, given) refl
        ],
        note T stray env.answers _ before mp _ (some q) s (called c) (refl, refl)
            (rw (==_of_ne b 0 (omega arith), here) refl) refl refl refl refl
            (IsHeaded-forget s.mem m b f.headed),
      )

  -- A `mp_CRYPTO_realloc_trace` of NULL to a size that is not 0, for which `realloc` has room, makes
  -- a live buffer, and the call notes it.
  pub realloc_null-Notes :
      (before mps : Option MpsStack) (sz : ℕ)
      → 0 < sz
      → (let mh = env.realloc 0 (sz +w 16) in (0 < mh) × (mh + 16 < 2 ^ 64) × (m (mh + 16) ≡ none))
      → (s' : Tracer T stray) × (realloc_trace T stray env before mps 0 sz s
          ≡ traced (env.realloc 0 (sz +w 16) + 16) s')
        × Notes T stray env.answers mps mp m
            (assign compare m (env.realloc 0 (sz +w 16) + 16) (some env.answers.rec))
            s
            s'
  unfolding realloc_trace realloc_trace_tail record_alloc event opens
  realloc_null-Notes before mps sz some_bytes (pos, small, absent) =
      let mh : ℕ = env.realloc 0 (sz +w 16) in
      let moved : (mh + 16) % 2 ^ 64 ≡ mh + 16 = omega arith in
      let c : LibcCall = realloc_call 0 (sz +w 16) in
      (
        noted T stray mp (record_alloc T stray env.answers (mh + 16) sz mps)
            (placed T stray env f mh sz c),
        rw
            (
              realloc_trace,
              got T stray env f,
              ==_of_ne sz 0 (omega arith),
              ==_of_ne mh 0 (omega arith),
              moved,
            )
            refl,
        note T stray env.answers _ mps mp _ none s (placed T stray env f mh sz c) (refl, refl)
            (rw absent refl) refl refl refl refl
            (IsHeaded-place s.mem m mh sz env.answers.rec pos small f.headed),
      )

  -- A resize of a live buffer that `realloc` refuses is not noted.
  pub realloc_trace_failed :
      (before mps : Option MpsStack) (b q sz : ℕ)
      → 0 < b
      → m b ≡ some q
      → 0 < sz
      → env.realloc (b -w 16) (sz +w 16) ≡ 0
      → realloc_trace T stray env before mps b sz s
        ≡ traced 0 (called (realloc_call (b -w 16) (sz +w 16)))
  unfolding realloc_trace realloc_trace_tail
  realloc_trace_failed before mps b q sz real here some_bytes failed =
      let (low, high, good) = f.headed b q real here in
      rw
        (
          realloc_trace,
          got T stray env f,
          ==_of_ne b 0 (omega arith),
          good,
          ==_of_ne sz 0 (omega arith),
          failed,
        )
        refl

  -- A request by `realloc` of NULL that is refused is not noted.
  pub realloc_null_failed :
      (before mps : Option MpsStack) (sz : ℕ)
      → 0 < sz
      → env.realloc 0 (sz +w 16) ≡ 0
      → realloc_trace T stray env before mps 0 sz s ≡ traced 0 (called (realloc_call 0 (sz +w 16)))
  unfolding realloc_trace realloc_trace_tail
  realloc_null_failed before mps sz some_bytes failed =
      rw (realloc_trace, got T stray env f, ==_of_ne sz 0 (omega arith), failed) refl

  -- `realloc` of NULL to no bytes is noted as a release of NULL, whatever `realloc` answers.
  pub realloc_nothing-Notes :
      (before mps : Option MpsStack)
      → (s' : Tracer T stray) × (realloc_trace T stray env before mps 0 0 s ≡ traced 0 s')
        × Notes T stray env.answers before mp m m s s'
  unfolding realloc_trace realloc_trace_tail record_free event
  realloc_nothing-Notes before mps = (
    noted T stray mp (record_free T stray env.answers 0 0 before) (called (realloc_call 0 0)),
    elim (Bool-cases (env.realloc 0 0 == 0)) [
      | inl null ↦ rw (realloc_trace, got T stray env f, null) refl
      | inr given ↦ rw (realloc_trace, got T stray env f, given) refl
    ],
    note T stray env.answers _ before mp _ none s (called (realloc_call 0 0)) (refl, refl) refl refl
        refl refl refl f.headed,
  )
