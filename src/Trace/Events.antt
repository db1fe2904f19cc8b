-- ===== src/Trace/Events.antt =====
-- The event that a call of a trace wrapper of mprofile/init.c notes in the profile of its thread.
-- Each live buffer has an intact header in front of it.
use ossl_scripts.Tree.Keyed.{compare-IsOrder}
use ossl_scripts.Base.{
  some, true, inl, inr, refl, ◌∷◌, ◌≡◌, ◌+◌, ◌<◌, ◌^◌, ℕ, Option, arith, update, ==_of_ne, ◌≢◌,
  Ordering-cases, sym, ◌∙◌, ==_refl,
}
use ossl_scripts.Words.{◌-w◌}
use ossl_scripts.Tree.{RbTree}
use ossl_scripts.Stats.{Memhdr, is_intact, header, LibcCall, checksum}
use ossl_scripts.Stack.{Stray, MpsStack}
use ossl_scripts.Record.History.{Live, event}
use ossl_scripts.Trace.{Env, Tracer, get_mprofile, traced}
use ossl_scripts.Profile.{Answers, Mprofile, Store, record_event}
use ossl_scripts.Record.{MprofileRecord}
use ossl_scripts.Tree.Map.{assign}
use ossl_scripts.Record.Chains.{IsUnlinked}
use Prim.Native.Nat.{compare, eq, lt, gt}

abbrev pub IsHeaded : (ℕ → Memhdr) → Live → Type 0
IsHeaded mem m =
    (b q : ℕ)
    → 0 < b
    → m b ≡ some q
    → (16 < b) × (b < 2 ^ 64) × (is_intact (b -w 16) (mem (b -w 16)) ≡ true)

pub IsHeaded-place :
    (mem : ℕ → Memhdr) (m : Live) (mh sz r : ℕ)
    → 0 < mh
    → mh + 16 < 2 ^ 64
    → IsHeaded mem m
    → IsHeaded (update mem mh (header mh sz)) (assign compare m (mh + 16) (some r))
IsHeaded-place mem m mh sz r pos small old b q real h =
    elim (Ordering-cases (compare b (mh + 16))) [
      | inl less ↦ kept (rw less at h) (λ e. let bad : lt ≡ eq = sym less ∙ e in cc)
      | inr (inl same) ↦
          let here : b ≡ mh + 16 = (compare-IsOrder.eq_iff b (mh + 16)).0 same in
          let back : b -w 16 ≡ mh = omega arith in
          (omega arith, omega arith, rw (back, ==_refl mh, ==_refl (checksum mh sz)) refl)
      | inr (inr more) ↦ kept (rw more at h) (λ e. let bad : gt ≡ eq = sym more ∙ e in cc)
    ]
  where
    kept :
        m b ≡ some q
        → compare b (mh + 16) ≢ eq
        → (16 < b)
          × (b < 2 ^ 64)
          × (is_intact (b -w 16) (update mem mh (header mh sz) (b -w 16)) ≡ true)
    kept hb ne =
        let (low, high, good) = old b q real hb in
        let apart : b ≢ mh + 16 = (λ e. ne ((compare-IsOrder.eq_iff b (mh + 16)).1 e)) in
        let away : mh ≢ b -w 16 = omega arith in (low, high, rw (==_of_ne mh (b -w 16) away) good)

module _ (T : RbTree) (stray : Stray) where
  abbrev pub noted :
      (mp : ℕ)
      → (Mprofile T stray → Store T stray → Mprofile T stray × Store T stray)
      → Tracer T stray
      → Tracer T stray
  noted mp f s = record s {
    profs = update s.profs mp (f (s.profs mp) s.store).0;
    store = (f (s.profs mp) s.store).1;
  }

  -- The thread's profile stands at `mp`, and each live buffer has an intact header.
  pub record Enters (thread mp : ℕ) (m : Live) (s : Tracer T stray) : Type 0 where
    pub own : s.specific thread ≡ mp
    pub real : 0 < mp
    pub headed : IsHeaded s.mem m

  -- From `s` to `s'` one record has been appended to the profile at `mp`, with the stack `mps`; its event
  -- leads from the buffers `m` to `m'`.
  pub record Notes (a : Answers T stray) (mps : Option MpsStack) (mp : ℕ) (m m' : Live)
      (s s' : Tracer T stray) : Type 0 where
    pub r : MprofileRecord
    pub old : Option ℕ
    pub before : Tracer T stray
    pub is_noted : s' ≡ noted mp (record_event T stray a r mps) before
    pub unlinked : IsUnlinked (λ _. r) 0
    pub fits : event r a.rec m ≡ some (m', old)
    pub specific : before.specific ≡ s.specific
    pub profiles : before.profiles ≡ s.profiles
    pub profs : before.profs ≡ s.profs
    pub store : before.store ≡ s.store
    pub headed : IsHeaded before.mem m'

  abbrev pub note :
      (a : Answers T stray) (r : MprofileRecord) (mps : Option MpsStack) (mp : ℕ) {m : Live}
      (m' : Live) (old : Option ℕ) (s before : Tracer T stray)
      → IsUnlinked (λ _. r) 0
      → event r a.rec m ≡ some (m', old)
      → before.specific ≡ s.specific
      → before.profiles ≡ s.profiles
      → before.profs ≡ s.profs
      → before.store ≡ s.store
      → IsHeaded before.mem m'
      → Notes a mps mp m m' s (noted mp (record_event T stray a r mps) before)
  note a r mps mp m' old s before unlinked fits specific profiles profs store headed = record {
    r = r;
    old = old;
    before = before;
    is_noted = refl;
    unlinked = unlinked;
    fits = fits;
    specific = specific;
    profiles = profiles;
    profs = profs;
    store = store;
    headed = headed;
  }

  module _ (env : Env T stray) {mp : ℕ} {m : Live} {s : Tracer T stray}
      (f : Enters env.thread mp m s) where
    pub got : get_mprofile T stray env s ≡ traced mp s
    unfolding get_mprofile
    got = rw (get_mprofile, f.own, ==_of_ne mp 0 (omega (arith, f.real))) refl

    -- the state in which a wrapper has placed a block of `sz` bytes at `mh`
    abbrev pub placed : (mh sz : ℕ) → LibcCall → Tracer T stray
    placed mh sz c = record s { mem = update s.mem mh (header mh sz); calls = c ∷ s.calls }
