-- ===== src/Trace/Steps.antt =====
-- One call of a trace wrapper of mprofile/init.c, with any answers of libc that obey its contract, and of
-- `malloc` with at most one NULL.
use ossl_scripts.Trace.{
  aborted, crashed, Tracer, Env, Traced, malloc_trace, traced, free_trace, realloc_trace,
}
use ossl_scripts.Base.{none, some, inl, inr, refl, ◌≡◌, ◌+◌, ◌<◌, ◌^◌, ℕ, List, Option, ◌⊎◌, ◌∙◌}
use ossl_scripts.Words.{◌+w◌, ◌-w◌}
use ossl_scripts.Record.History.{Live}
use ossl_scripts.Tree.{RbTree}
use ossl_scripts.Stack.{Stray, MpsStack}
use ossl_scripts.Trace.Events.{Enters, Notes}
use mathlib.Core.Path.{subst, sym}
use ossl_scripts.Tree.Map.{assign}
use Prim.Native.Nat.{compare}
use ossl_scripts.Trace.Calls.{malloc_trace-Notes, malloc_trace-Notes_failed}
use ossl_scripts.Stats.{LibcCall}
use ossl_scripts.Trace.Release.{
  free_null-Notes, free_trace-Notes, realloc_null-Notes, realloc_trace-Notes, realloc_release-Notes,
  realloc_trace_failed, realloc_null_failed, realloc_nothing-Notes,
}

-- libc's contract for an answer that is not NULL: the block does not wrap, and is not live
pub record IsRoom (mh : ℕ) (m : Live) : Type 0 where
  pub found : 0 < mh
  pub small : mh + 16 < 2 ^ 64
  pub fresh : m (mh + 16) ≡ none

module _ (T : RbTree) (stray : Stray) where
  -- One call of a wrapper, from the buffers and the state before it to those after it. `before` is the
  -- stack that it records with a release to no bytes, and `mps` that with all else. NULL counts as a
  -- buffer from the first `malloc` that fails: the wrapper records an allocation there. What a second
  -- one leads to is `build_chains-aborts_repeat`, and no step here.
  pub data Step (env : Env T stray) (before mps : Option MpsStack) (m : Live) (s : Tracer T stray)
      : Live → Tracer T stray → Type 0 where
    mallocs :
        {s' : Tracer T stray} (sz b : ℕ)
        → IsRoom (env.malloc (sz +w 16)) m
        → malloc_trace T stray env mps sz s ≡ traced b s'
        → Step env before mps m s
            (assign compare m (env.malloc (sz +w 16) + 16) (some env.answers.rec))
            s'
    malloc_fails :
        {s' : Tracer T stray} (sz b : ℕ)
        → env.malloc (sz +w 16) ≡ 0
        → m 0 ≡ none
        → malloc_trace T stray env mps sz s ≡ traced b s'
        → Step env before mps m s (assign compare m 0 (some env.answers.rec)) s'
    frees_null :
        {s' : Tracer T stray}
        → free_trace T stray env mps 0 s ≡ traced tt s'
        → Step env before mps m s m s'
    frees :
        {s' : Tracer T stray} (b q : ℕ)
        → 0 < b
        → m b ≡ some q
        → free_trace T stray env mps b s ≡ traced tt s'
        → Step env before mps m s (assign compare m b none) s'
    reallocs_null :
        {s' : Tracer T stray} (sz b : ℕ)
        → 0 < sz
        → IsRoom (env.realloc 0 (sz +w 16)) m
        → realloc_trace T stray env before mps 0 sz s ≡ traced b s'
        → Step env before mps m s
            (assign compare m (env.realloc 0 (sz +w 16) + 16) (some env.answers.rec))
            s'
    reallocs :
        {s' : Tracer T stray} (b q sz b' : ℕ)
        → 0 < b
        → m b ≡ some q
        → 0 < sz
        → IsRoom (env.realloc (b -w 16) (sz +w 16)) (assign compare m b none)
        → realloc_trace T stray env before mps b sz s ≡ traced b' s'
        → Step env before mps m s
            (assign compare
              (assign compare m b none)
              (env.realloc (b -w 16) (sz +w 16) + 16)
              (some env.answers.rec))
            s'
    reallocs_to_zero :
        {s' : Tracer T stray} (b q b' : ℕ)
        → 0 < b
        → m b ≡ some q
        → realloc_trace T stray env before mps b 0 s ≡ traced b' s'
        → Step env before mps m s (assign compare m b none) s'
    realloc_fails :
        {s' : Tracer T stray} (b q sz b' : ℕ)
        → 0 < b
        → m b ≡ some q
        → 0 < sz
        → env.realloc (b -w 16) (sz +w 16) ≡ 0
        → realloc_trace T stray env before mps b sz s ≡ traced b' s'
        → Step env before mps m s m s'
    realloc_null_fails :
        {s' : Tracer T stray} (sz b : ℕ)
        → 0 < sz
        → env.realloc 0 (sz +w 16) ≡ 0
        → realloc_trace T stray env before mps 0 sz s ≡ traced b s'
        → Step env before mps m s m s'
    reallocs_nothing :
        {s' : Tracer T stray} (b : ℕ)
        → realloc_trace T stray env before mps 0 0 s ≡ traced b s'
        → Step env before mps m s m s'

  AtTraced : {A : Type 0} → (Tracer T stray → Type 0) → Traced T stray A → Type 0
  AtTraced P (traced a s) = P s
  AtTraced P aborted = Unit
  AtTraced P crashed = Unit

  at_traced :
      {A : Type 0} (P : Tracer T stray → Type 0) {r : Traced T stray A} {a b : A}
      {s : Tracer T stray}
      → r ≡ traced a s
      → (s' : Tracer T stray) × (r ≡ traced b s') × P s'
      → P s
  unfolding AtTraced
  at_traced P e (s', h, f) = subst (AtTraced P) (sym h ∙ e) f

  -- What a call comes to: it notes one event, with one of its stacks, or it leaves the buffers and all
  -- but the list of the calls to libc as they were.
  pub data Outcome (env : Env T stray) (before mps : Option MpsStack) (mp : ℕ) (m : Live)
      (s : Tracer T stray) : Live → Tracer T stray → Type 0 where
    notes :
        {m' : Live} {s' : Tracer T stray} (w : Option MpsStack)
        → (w ≡ before) ⊎ (w ≡ mps)
        → Notes T stray env.answers w mp m m' s s'
        → Outcome env before mps mp m s m' s'
    quiet : (cs : List LibcCall) → Outcome env before mps mp m s m (record s { calls = cs })

  quiet_at :
      {env : Env T stray} {before mps : Option MpsStack} {mp : ℕ} {m : Live} {s s' : Tracer T stray}
      {r : Traced T stray ℕ} {a b : ℕ} (cs : List LibcCall)
      → r ≡ traced a s'
      → r ≡ traced b (record s { calls = cs })
      → Outcome env before mps mp m s m s'
  unfolding AtTraced
  quiet_at {env} {before} {mps} {mp} {m} {s} cs e h =
      subst (AtTraced (Outcome env before mps mp m s m)) (sym h ∙ e) (quiet cs)

  module _ (env : Env T stray) {before mps : Option MpsStack} {mp : ℕ} {m m' : Live}
      {s s' : Tracer T stray} where
    noted_at :
        {A : Type 0} {r : Traced T stray A} {a b : A} (w : Option MpsStack)
        → (w ≡ before) ⊎ (w ≡ mps)
        → r ≡ traced a s'
        → (t : Tracer T stray) × (r ≡ traced b t) × Notes T stray env.answers w mp m m' s t
        → Outcome env before mps mp m s m' s'
    noted_at w which e h = notes w which (at_traced (Notes T stray env.answers w mp m m' s) e h)

  pub Step-Outcome :
      (env : Env T stray) {before mps : Option MpsStack} {mp : ℕ} {m m' : Live}
      {s s' : Tracer T stray}
      → Enters T stray env.thread mp m s
      → Step env before mps m s m' s'
      → Outcome env before mps mp m s m' s'
  Step-Outcome env {mps = mps} f (mallocs sz b room e) =
      noted_at env mps (inr refl) e
        (malloc_trace-Notes T stray env f mps sz (room.found, room.small, room.fresh))
  Step-Outcome env {mps = mps} f (malloc_fails sz b failed absent e) =
      noted_at env mps (inr refl) e (malloc_trace-Notes_failed T stray env f mps sz failed absent)
  Step-Outcome env {mps = mps} f (frees_null e) =
      noted_at env mps (inr refl) e (free_null-Notes T stray env f mps)
  Step-Outcome env {mps = mps} f (frees b q real here e) =
      noted_at env mps (inr refl) e (free_trace-Notes T stray env f mps b q real here)
  Step-Outcome env {before} {mps} f (reallocs_null sz b some_bytes room e) =
      noted_at env mps (inr refl) e (
        realloc_null-Notes T stray env f before mps sz some_bytes
          (room.found, room.small, room.fresh))
  Step-Outcome env {before} {mps} f (reallocs b q sz b' real here some_bytes room e) =
      noted_at env mps (inr refl) e (
        realloc_trace-Notes T stray env f before mps b q sz real here some_bytes
          (room.found, room.small, room.fresh))
  Step-Outcome env {before} {mps} f (reallocs_to_zero b q b' real here e) =
      noted_at env before (inl refl) e
        (realloc_release-Notes T stray env f before mps b q real here)
  Step-Outcome env {before} {mps} f (realloc_fails b q sz b' real here some_bytes failed e) =
      quiet_at _ e
        (realloc_trace_failed T stray env f before mps b q sz real here some_bytes failed)
  Step-Outcome env {before} {mps} f (realloc_null_fails sz b some_bytes failed e) =
      quiet_at _ e (realloc_null_failed T stray env f before mps sz some_bytes failed)
  Step-Outcome env {before} {mps} f (reallocs_nothing b e) =
      noted_at env before (inl refl) e (realloc_nothing-Notes T stray env f before mps)
