-- ===== src/Trace/Session.antt =====
-- Whole runs of a thread over the trace wrappers of mprofile/init.c, up to `build_chains` on the log.
use ossl_scripts.Trace.Steps.{Step, Step-Outcome, Outcome, notes, quiet}
use ossl_scripts.Trace.Events.{IsHeaded}
use ossl_scripts.Profile.Log.{Logs, record_event-Logs}
use ossl_scripts.Base.{[], none, some, refl, ◌≡◌, ◌<◌, ℕ, Option, List, All, ==_refl, ◌≢◌}
use ossl_scripts.Tree.{RbTree}
use ossl_scripts.Record.History.{Live, nothing_live, history}
use ossl_scripts.Stack.{Stray, MpsStack}
use ossl_scripts.Trace.{Env, Tracer}
use ossl_scripts.Profile.{create_mprofile, Answers}
use ossl_scripts.Record.{Records, build_chains, chained}
use ossl_scripts.Tree.Map.{Holds}
use Prim.Native.Nat.{compare}
use ossl_scripts.Tree.Keyed.{compare-IsOrder}
use ossl_scripts.Record.Chains.{key}
use ossl_scripts.Record.Build.{IsLog, build_chains-history, linked_all}

module _ (T : RbTree) (stray : Stray) (mp : ℕ) where
  -- what `malloc` owes to a new record: an address that the log does not use
  pub record IsNewRecord (a : Answers T stray) (log : List ℕ) : Type 0 where
    pub real : 0 < a.rec
    pub new : All (λ e. e ≢ a.rec) log

  -- The calls so far have led to the state `s`, in which the buffers `m` are live.
  pub data Session : ℕ → Live → Tracer T stray → Type 0 where
    start :
        {thread : ℕ} {s : Tracer T stray}
        → s.specific thread ≡ mp
        → 0 < mp
        → s.profs mp ≡ create_mprofile T stray
        → Session thread nothing_live s
    calls :
        {m m' : Live} {s s' : Tracer T stray} (env : Env T stray) (before mps : Option MpsStack)
        → Session env.thread m s
        → IsNewRecord env.answers (s.profs mp).mp_tqhead
        → Step T stray env before mps m s m' s'
        → Session env.thread m' s'

  -- The thread's profile stands at `mp`, its log tells of the buffers `m`, and each of these has an
  -- intact header.
  pub record Follows (thread : ℕ) (m : Live) (s : Tracer T stray) : Type 0 where
    pub own : s.specific thread ≡ mp
    pub real : 0 < mp
    pub logs : Logs T stray (s.profs mp) s.store m
    pub headed : IsHeaded s.mem m

  Step-Follows :
      (env : Env T stray) {before mps : Option MpsStack} {m m' : Live} {s s' : Tracer T stray}
      → Follows env.thread m s
      → IsNewRecord env.answers (s.profs mp).mp_tqhead
      → Step T stray env before mps m s m' s'
      → Follows env.thread m' s'
  Step-Follows env f new step =
      go f new
        (Step-Outcome T stray env (record { own = f.own; real = f.real; headed = f.headed }) step)
    where
      go :
          {env : Env T stray} {before mps : Option MpsStack} {m m' : Live} {s s' : Tracer T stray}
          → Follows env.thread m s
          → IsNewRecord env.answers (s.profs mp).mp_tqhead
          → Outcome T stray env before mps mp m s m' s'
          → Follows env.thread m' s'
      go {env} {m' = m'} f new (notes w which n) = rw n.is_noted (record {
        own = rw n.specific f.own;
        real = f.real;
        logs =
            rw (==_refl mp, n.profs, n.store)
              (record_event-Logs T stray env.answers n.r w m' n.old f.logs new.real new.new
                n.unlinked n.fits);
        headed = n.headed;
      })
      go f new (quiet cs) = record { own = f.own; real = f.real; logs = f.logs; headed = f.headed }

  pub Session-Follows :
      {thread : ℕ} {m : Live} {s : Tracer T stray} → Session thread m s → Follows thread m s
  unfolding create_mprofile history
  Session-Follows (start own real empty) = record {
    own = own;
    real = real;
    logs = record {
      links = [];
      told = rw empty refl;
      distinct = rw empty tt;
      unlinked = rw empty tt;
    };
    headed = λ b q real e. let bad : none ≡ some q = e in cc;
  }
  Session-Follows (calls env before mps session new step) =
      Step-Follows env (Session-Follows session) new step

  -- A thread makes any calls of the trace wrappers: it releases or resizes NULL or a live buffer, and
  -- `malloc` and `realloc` answer NULL, `malloc` at most once, or a block that does not wrap and is not
  -- live; `malloc` gives each record a new address. Then `build_chains` goes through the thread's log
  -- without an abort or a failed assertion. In the end its tree holds exactly the buffers that were not
  -- given back, each by its latest record, which has no successor; NULL counts as such a buffer if a
  -- `malloc` has failed.
  pub Session-chains :
      {thread : ℕ} {m : Live} {s : Tracer T stray}
      → Session thread m s
      → (recs : Records) × (t : T.Head) × (build_chains T (s.profs mp).mp_tqhead s.store.recs
          ≡ chained recs t)
        × Holds compare compare-IsOrder (key T s.store.recs) T t m
        × ((k q : ℕ) → m k ≡ some q → (recs q).mpr_next_id ≡ 0)
  Session-chains {m = m} {s = s} session =
      let logs = (Session-Follows session).logs in
      let log : IsLog T s.store.recs (s.profs mp).mp_tqhead = record {
        distinct = logs.distinct;
        unlinked = logs.unlinked;
      } in
      let (t, e, same, holds, last) =
        build_chains-history T s.store.recs (s.profs mp).mp_tqhead m logs.links log logs.told in
      (linked_all logs.links s.store.recs, t, e, holds, last)
