-- ===== src/Trace/Runs.antt =====
-- The runs of a program of several threads on the trace wrappers of mprofile/init.c, with the records of all
-- threads as one history of the heap.
use mathlib.Core.List.Perm
use ossl_scripts.Trace.Program.{Program, held, IsNewFor, start, calls, joined, Step-joined}
use ossl_scripts.Trace.Steps.{Step, Step-Outcome, Outcome, notes, quiet}
use ossl_scripts.Trace.Together.{Tells, IsBare, after-Tells, note-after}
use ossl_scripts.Profile.Log.{NoRepeat-append}
use ossl_scripts.Profile.{create_mprofile, Mprofile}
use ossl_scripts.Trace.Shared.{
  queues_of, Among, all-append, Among-last, Among-All, all-elsewhere, Among-append,
}
use ossl_scripts.Save.Sorted.{all_records, IsPlain}
use ossl_scripts.Base.{
  [], ◌∷◌, none, inl, inr, refl, ◌≡◌, ◌==◌, ◌+◌, ◌<◌, ◌≤◌, ◌^◌, ℕ, arith, All, ==_refl, sym, ◌≢◌,
  ◌∙◌, All-insert, Bool-cases, some, ◌++◌, update_self, update, ==_of_ne, List,
}
use ossl_scripts.Tree.{RbTree}
use ossl_scripts.Stack.{Stray}
use ossl_scripts.Record.History.{Live, history, nothing_live}
use ossl_scripts.Trace.{Env, Tracer}
use mathlib.Core.Path.{subst, ap}
use mathlib.Core.List.{append-nil, Perm}
use ossl_scripts.Trace.Events.{Notes}

module _ (T : RbTree) (stray : Stray) where
  joined-held :
      (env : Env T stray) (s : Tracer T stray)
      → IsNewFor T stray env s
      → held T stray (joined T stray env s) ≡ held T stray s
  unfolding create_mprofile
  joined-held env s new =
      all-append T stray (queues_of T stray (joined T stray env s).profs) s.profiles env.profile
      ∙ ap
          (λ (mp : Mprofile T stray).
            all_records T stray (queues_of T stray (joined T stray env s).profs) s.profiles
            ++ mp.mp_tqhead)
          (update_self s.profs env.profile (create_mprofile T stray))
      ∙ append-nil (all_records T stray (queues_of T stray (joined T stray env s).profs) s.profiles)
      ∙ all-elsewhere T stray s.profs env.profile (create_mprofile T stray) s.profiles
          new.profile_new

  new_bare :
      (env : Env T stray) (s : Tracer T stray)
      → IsBare T stray (joined T stray env s).profs env.profile
  unfolding create_mprofile
  new_bare env s =
      ap (λ (mp : Mprofile T stray). mp.mp_stset)
        (update_self s.profs env.profile (create_mprofile T stray))

  away_bare :
      (profs : ℕ → Mprofile T stray) (p : ℕ) (x : Mprofile T stray) (ps : List ℕ)
      → All (λ q. q ≢ p) ps
      → All (IsBare T stray profs) ps
      → All (IsBare T stray (update profs p x)) ps
  away_bare profs p x [] out h = tt
  away_bare profs p x (q ∷ ps) out h =
      (rw (==_of_ne p q (λ e. out.0 (sym e))) h.0, away_bare profs p x ps out.1 h.1)

  joined-Tells :
      (env : Env T stray) {n : ℕ} {m : Live} {s : Tracer T stray}
      → Tells T stray n m s
      → IsNewFor T stray env s
      → Tells T stray n m (joined T stray env s)
  joined-Tells env {n} {m} {s} h new =
      let same = sym (joined-held env s new) in
      record {
        log = h.log;
        logs = h.logs;
        in_order = h.in_order;
        below_log = h.below_log;
        all = subst (Perm h.log) same h.all;
        plain = subst (IsPlain T stray s.store.recs) same h.plain;
        below = subst (All (λ e. (s.store.recs e).mpr_id ≤ n)) same h.below;
        number = h.number;
        headed = h.headed;
        apart = NoRepeat-append s.profiles env.profile h.apart new.profile_new;
        real =
            All-insert (λ p. 0 < p) s.profiles env.profile [] new.profile_real
              (rw append-nil h.real);
        bare =
            All-insert (IsBare T stray (joined T stray env s).profs) s.profiles env.profile []
              (new_bare env s)
              (rw append-nil (away_bare s.profs env.profile _ s.profiles new.profile_new h.bare));
        known = λ t. elim (Bool-cases (env.thread == t)) [
          | inl it ↦ inr (rw it (Among-last s.profiles env.profile))
          | inr other ↦ elim (h.known t) [
            | inl none_yet ↦ inl (rw other none_yet)
            | inr there ↦ inr (rw other (Among-append s.profiles env.profile there))
          ]
        ];
      }

  -- Of so many calls some have put a record into a profile.
  pub record TellsSome (calls_made : ℕ) (m : Live) (s : Tracer T stray) : Type 0 where
    pub recorded : ℕ
    pub few : recorded ≤ calls_made
    pub tells : Tells T stray recorded m s

  Outcome-Tells :
      {env : Env T stray} {n : ℕ} {m m' : Live} {s s' : Tracer T stray}
      → Tells T stray n m s
      → Among (s.specific env.thread) s.profiles
      → 0 < env.answers.rec
      → All (λ e. e ≢ env.answers.rec) (held T stray s)
      → n + 1 < 2 ^ 64
      → Outcome T stray env none none (s.specific env.thread) m s m' s'
      → TellsSome (n + 1) m' s'
  Outcome-Tells {env} {n} {m} {m'} {s} {s'} h among real new small (notes w which note) =
      let bare : w ≡ none = elim which [ inl e ↦ e | inr e ↦ e ] in
      let plain =
        subst (λ w. Notes T stray env.answers w (s.specific env.thread) m m' s s') bare note in
      record {
        recorded = n + 1;
        few = omega arith;
        tells = subst (Tells T stray (n + 1) m') (sym (note-after T stray env.answers real plain)) (
            after-Tells T stray h small env.answers plain.r (s.specific env.thread) plain.before.mem
              plain.before.calls among real new plain.unlinked plain.fits plain.headed);
      }
  Outcome-Tells {n = n} h among real new small (quiet cs) = record {
    recorded = n;
    few = omega arith;
    tells = record {
      log = h.log;
      logs = h.logs;
      in_order = h.in_order;
      below_log = h.below_log;
      all = h.all;
      plain = h.plain;
      below = h.below;
      number = h.number;
      headed = h.headed;
      apart = h.apart;
      real = h.real;
      bare = h.bare;
      known = h.known;
    };
  }

  Step-Tells :
      (env : Env T stray) {n : ℕ} {m m' : Live} {s s' : Tracer T stray}
      → Tells T stray n m s
      → Among (s.specific env.thread) s.profiles
      → 0 < env.answers.rec
      → All (λ e. e ≢ env.answers.rec) (held T stray s)
      → n + 1 < 2 ^ 64
      → Step T stray env none none m s m' s'
      → TellsSome (n + 1) m' s'
  Step-Tells env {s = s} h among real new small step = Outcome-Tells h among real new small (
      Step-Outcome T stray env
        (record {
          own = refl;
          real = Among-All (λ p. 0 < p) s.profiles h.real among;
          headed = h.headed;
        })
        step)

  nothing-Tells :
      {s : Tracer T stray}
      → s.profiles ≡ []
      → ((t : ℕ) → s.specific t ≡ 0)
      → s.store.mpr_id ≡ 0
      → Tells T stray 0 nothing_live s
  unfolding create_mprofile history all_records
  nothing-Tells {s} no_profiles no_values zero_id =
      let none_held : held T stray s ≡ [] = rw no_profiles refl in
      record {
        log = [];
        logs = record { links = []; told = refl; distinct = tt; unlinked = tt };
        in_order = tt;
        below_log = tt;
        all = subst (Perm []) (sym none_held) (Perm.refl []);
        plain =
            subst (IsPlain T stray s.store.recs) (sym none_held)
              (record { plain = tt; distinct = tt });
        below = subst (All (λ e. (s.store.recs e).mpr_id ≤ 0)) (sym none_held) tt;
        number = zero_id;
        headed = λ b q real_b e. let bad : none ≡ some q = e in cc;
        apart = rw no_profiles tt;
        real = rw no_profiles tt;
        bare = rw no_profiles tt;
        known = λ t. inl (no_values t);
      }

  more_calls :
      {n n' : ℕ} {m : Live} {s : Tracer T stray} → n ≤ n' → TellsSome n m s → TellsSome n' m s
  more_calls le t = record {
    recorded = t.recorded;
    few = omega (arith, le, t.few);
    tells = t.tells;
  }

  -- at every moment of a run the records of all threads tell of the live buffers
  pub Program-Tells :
      {n : ℕ} {m : Live} {s : Tracer T stray} → Program T stray n m s → n < 2 ^ 64 → TellsSome n m s
  Program-Tells (start {s} no_profiles no_values zero_id) small = record {
    recorded = 0;
    few = omega arith;
    tells = nothing-Tells no_profiles no_values zero_id;
  }
  Program-Tells (calls {n} {m} {m'} {s} {s'} env program new step) small =
      let t = Program-Tells program (omega (arith, small)) in
      let h = t.tells in
      let le : t.recorded + 1 ≤ n + 1 = omega (arith, t.few) in
      elim (h.known env.thread) [
        | inl without ↦ more_calls le (
            Step-Tells env (joined-Tells env h new)
              (rw (==_refl env.thread) (Among-last s.profiles env.profile)) new.rec_real
              (subst (All (λ e. e ≢ env.answers.rec)) (sym (joined-held env s new)) new.rec_new)
              (omega (arith, small, t.few))
              (Step-joined T stray env s without new.profile_real step))
        | inr among ↦
            more_calls le
              (Step-Tells env h among new.rec_real new.rec_new (omega (arith, small, t.few)) step)
      ]
