-- ===== src/Trace/Program.antt =====
-- A program of several threads on the trace wrappers of mprofile/init.c, without call stacks: one call
-- after another, by any thread, which makes its profile at its first call.
use ossl_scripts.Save.Sorted.{all_records}
use ossl_scripts.Trace.Steps.{
  Step, mallocs, malloc_fails, frees, frees_null, reallocs, reallocs_null, reallocs_to_zero,
  realloc_fails, realloc_null_fails, reallocs_nothing,
}
use ossl_scripts.Base.{
  [], none, refl, ◌∷◌, ◌≡◌, ◌++◌, ◌+◌, ◌<◌, ℕ, List, Option, arith, All, update, ◌∙◌, ◌≢◌, ==_of_ne,
  ==_refl,
}
use ossl_scripts.Tree.{RbTree}
use ossl_scripts.Stack.{Stray, MpsStack}
use ossl_scripts.Trace.{
  Tracer, Env, free_trace, realloc_trace, get_mprofile, malloc_trace, traced, create_mprofile,
}
use ossl_scripts.Record.History.{Live, nothing_live}
use ossl_scripts.Trace.Shared.{queues_of}

module _ (T : RbTree) (stray : Stray) where
  -- the records of all profiles
  abbrev pub held : Tracer T stray → List ℕ
  held s = all_records T stray (queues_of T stray s.profs) s.profiles

  -- what `malloc` owes to a call: unused addresses for the record, and for the profile of a new thread
  pub record IsNewFor (env : Env T stray) (s : Tracer T stray) : Type 0 where
    pub rec_real : 0 < env.answers.rec
    pub rec_new : All (λ e. e ≢ env.answers.rec) (held s)
    pub profile_real : 0 < env.profile
    pub profile_new : All (λ p. p ≢ env.profile) s.profiles

  -- So many calls of the threads have led to the state `s`, in which the buffers `m` are live.
  pub data Program : ℕ → Live → Tracer T stray → Type 0 where
    start :
        {s : Tracer T stray}
        → s.profiles ≡ []
        → ((t : ℕ) → s.specific t ≡ 0)
        → s.store.mpr_id ≡ 0
        → Program 0 nothing_live s
    calls :
        {n : ℕ} {m m' : Live} {s s' : Tracer T stray} (env : Env T stray)
        → Program n m s
        → IsNewFor env s
        → Step T stray env none none m s m' s'
        → Program (n + 1) m' s'

  -- the state in which a thread without a profile has made one
  abbrev pub joined : Env T stray → Tracer T stray → Tracer T stray
  joined env s = record s {
    profs = update s.profs env.profile (create_mprofile T stray);
    profiles = s.profiles ++ env.profile ∷ [];
    specific = update s.specific env.thread env.profile;
  }

  module _ (env : Env T stray) (s : Tracer T stray) (without : s.specific env.thread ≡ 0)
      (real : 0 < env.profile) where
    makes : get_mprofile T stray env s ≡ traced env.profile (joined env s)
    unfolding get_mprofile
    makes = rw (get_mprofile, without, ==_of_ne env.profile 0 (omega arith)) refl

    finds : get_mprofile T stray env (joined env s) ≡ traced env.profile (joined env s)
    unfolding get_mprofile
    finds = rw (get_mprofile, ==_refl env.thread, ==_of_ne env.profile 0 (omega arith)) refl

    joined_malloc :
        (mps : Option MpsStack) (sz : ℕ)
        → malloc_trace T stray env mps sz (joined env s) ≡ malloc_trace T stray env mps sz s
    unfolding malloc_trace
    joined_malloc mps sz = rw (malloc_trace, finds, makes) refl

    joined_free :
        (mps : Option MpsStack) (b : ℕ)
        → free_trace T stray env mps b (joined env s) ≡ free_trace T stray env mps b s
    unfolding free_trace
    joined_free mps b = rw (free_trace, finds, makes) refl

    joined_realloc :
        (before mps : Option MpsStack) (b sz : ℕ)
        → realloc_trace T stray env before mps b sz (joined env s)
          ≡ realloc_trace T stray env before mps b sz s
    unfolding realloc_trace
    joined_realloc before mps b sz = rw (realloc_trace, finds, makes) refl

    -- The first call of a thread is the same call after the thread's profile has been made.
    pub Step-joined :
        {before mps : Option MpsStack} {m m' : Live} {s' : Tracer T stray}
        → Step T stray env before mps m s m' s'
        → Step T stray env before mps m (joined env s) m' s'
    Step-joined {before} {mps} (mallocs sz b room e) = mallocs sz b room (joined_malloc mps sz ∙ e)
    Step-joined {before} {mps} (malloc_fails sz b failed absent e) =
        malloc_fails sz b failed absent (joined_malloc mps sz ∙ e)
    Step-joined {before} {mps} (frees_null e) = frees_null (joined_free mps 0 ∙ e)
    Step-joined {before} {mps} (frees b q real_b here e) =
        frees b q real_b here (joined_free mps b ∙ e)
    Step-joined {before} {mps} (reallocs_null sz b some_bytes room e) =
        reallocs_null sz b some_bytes room (joined_realloc before mps 0 sz ∙ e)
    Step-joined {before} {mps} (reallocs b q sz b' real_b here some_bytes room e) =
        reallocs b q sz b' real_b here some_bytes room (joined_realloc before mps b sz ∙ e)
    Step-joined {before} {mps} (reallocs_to_zero b q b' real_b here e) =
        reallocs_to_zero b q b' real_b here (joined_realloc before mps b 0 ∙ e)
    Step-joined {before} {mps} (realloc_fails b q sz b' real_b here some_bytes failed e) =
        realloc_fails b q sz b' real_b here some_bytes failed (joined_realloc before mps b sz ∙ e)
    Step-joined {before} {mps} (realloc_null_fails sz b some_bytes failed e) =
        realloc_null_fails sz b some_bytes failed (joined_realloc before mps 0 sz ∙ e)
    Step-joined {before} {mps} (reallocs_nothing b e) =
        reallocs_nothing b (joined_realloc before mps 0 0 ∙ e)
