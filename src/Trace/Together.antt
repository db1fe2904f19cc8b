-- ===== src/Trace/Together.antt =====
-- The records of all threads of a program on the trace wrappers of mprofile/init.c, in order of their
-- numbers, as one history of the heap: what one more call does to it.
use mathlib.Core.List.Perm
use mathlib.Core.List.{Perm, map, append-nil, Mem, mem-cons_self, mem-cons_of_mem}
use ossl_scripts.Save.Sorted.{id_of, IsPlain}
use ossl_scripts.Trace.Program.{held}
use ossl_scripts.Trace.Shared.{
  Among, all-IsInserted, inserted-Perm, inserted-All, inserted-NoRepeat,
}
use ossl_scripts.Profile.Log.{Logs, record_event-Logs}
use ossl_scripts.Profile.{record_event, append_record, create_mprofile, Mprofile, Answers, Store}
use ossl_scripts.Tree.Agree.{rekey-IsSorted}
use ossl_scripts.Base.{
  [], none, refl, ◌∷◌, ◌≡◌, ◌++◌, ◌+◌, ◌<◌, ◌≤◌, ◌^◌, ℕ, List, arith, All, ◌≢◌, update, ==_of_ne,
  All-insert, ◌⊎◌, some, Option, ◌∙◌, ==_refl, update_self, inl, inr, Bool-cases, ==_iff, ◌==◌,
}
use ossl_scripts.Tree.Keyed.{IsSorted, compare-IsOrder}
use ossl_scripts.Record.{MprofileRecord, Records}
use ossl_scripts.Tree.{RbTree}
use Prim.Native.Nat.{compare, lt}
use ossl_scripts.Stack.{Stray}
use ossl_scripts.Stset.{create_stset}
use mathlib.Core.Path.{subst, sym, ap}
use ossl_scripts.Record.History.{Live, event}
use ossl_scripts.Trace.{Tracer, Memhdr, LibcCall}
use ossl_scripts.Trace.Events.{IsHeaded, Notes}
use ossl_scripts.Words.{u64}
use ossl_scripts.Record.Chains.{NoRepeat, IsUnlinked}
use ossl_scripts.Save.Unique.{not-Mem}

out_of_log : (r : ℕ) (log all : List ℕ) → Perm log all → All (λ e. e ≢ r) all → All (λ e. e ≢ r) log
out_of_log r log all p out =
    go log (λ h. not-Mem (λ e. e ≢ r) r (λ ne. ne refl) all out ((Perm.mem_iff p).0 h))
  where
    go : (xs : List ℕ) → ¬ Mem r xs → All (λ e. e ≢ r) xs
    go [] out = tt
    go (x ∷ xs) out = (
      (λ e. out (subst (λ y. Mem y (x ∷ xs)) e mem-cons_self)),
      go xs (λ h. out (mem-cons_of_mem x h)),
    )

All-update :
    (P : MprofileRecord → Type 0) (recs : Records) (r : ℕ) (x : MprofileRecord) (xs : List ℕ)
    → All (λ e. e ≢ r) xs
    → All (λ e. P (recs e)) xs
    → All (λ e. P (update recs r x e)) xs
All-update P recs r x [] out h = tt
All-update P recs r x (y ∷ ys) out h =
    (rw (==_of_ne r y (λ e. out.0 (sym e))) h.0, All-update P recs r x ys out.1 h.1)

same_numbers :
    (recs : Records) (r : ℕ) (x : MprofileRecord) (xs : List ℕ)
    → All (λ e. e ≢ r) xs
    → All (λ e. (recs e).mpr_id ≡ (update recs r x e).mpr_id) xs
same_numbers recs r x [] out = tt
same_numbers recs r x (y ∷ ys) out =
    (rw (==_of_ne r y (λ e. out.0 (sym e))) refl, same_numbers recs r x ys out.1)

map-same : (f g : ℕ → ℕ) (xs : List ℕ) → All (λ e. f e ≡ g e) xs → map g xs ≡ map f xs
map-same f g [] h = refl
map-same f g (x ∷ xs) h = rw (h.0, map-same f g xs h.1) refl

-- what is at most `n` is below a later number
All-below : (f : ℕ → ℕ) (n : ℕ) (xs : List ℕ) → All (λ e. f e ≤ n) xs → All (λ e. f e ≤ n + 1) xs
All-below f n [] h = tt
All-below f n (x ∷ xs) h = (omega (arith, h.0), All-below f n xs h.1)

All-later :
    (f : ℕ → ℕ) (n r : ℕ) (xs : List ℕ)
    → f r ≡ n + 1
    → All (λ e. f e ≤ n) xs
    → All (λ e. compare (f e) (f r) ≡ lt) xs
All-later f n r [] e h = tt
All-later f n r (x ∷ xs) e h = (rw e (ground (arith, h.0)), All-later f n r xs e h.1)

All-other :
    (f : ℕ → ℕ) (n r : ℕ) (xs : List ℕ)
    → f r ≡ n + 1
    → All (λ e. f e ≤ n) xs
    → All (λ e. f e ≢ f r) xs
All-other f n r [] e h = tt
All-other f n r (x ∷ xs) e h = ((λ same. omega (arith, e, h.0, same)), All-other f n r xs e h.1)

IsSorted-last :
    (f : ℕ → ℕ) (xs : List ℕ) (r : ℕ)
    → IsSorted compare compare-IsOrder f xs
    → All (λ e. compare (f e) (f r) ≡ lt) xs
    → IsSorted compare compare-IsOrder f (xs ++ r ∷ [])
IsSorted-last f [] r s below = (tt, tt)
IsSorted-last f (x ∷ xs) r s below = (
  All-insert (λ e. compare (f x) (f e) ≡ lt) xs r [] below.0 (rw append-nil s.0),
  IsSorted-last f xs r s.1 below.1,
)

module _ (T : RbTree) (stray : Stray) where
  -- a profile with this log
  abbrev pub ghost : List ℕ → Mprofile T stray
  ghost log = record (create_mprofile T stray) { mp_tqhead = log }

  -- the profile has no stacks
  abbrev pub IsBare : (ℕ → Mprofile T stray) → ℕ → Type 0
  IsBare profs p = (profs p).mp_stset ≡ create_stset T stray

  other_queue :
      (profs : ℕ → Mprofile T stray) (p : ℕ) (x : Mprofile T stray) (ps : List ℕ)
      → x.mp_stset ≡ (profs p).mp_stset
      → All (IsBare profs) ps
      → All (IsBare (update profs p x)) ps
  other_queue profs p x [] same h = tt
  other_queue profs p x (q ∷ ps) same h = (
    elim (Bool-cases (p == q)) [
      | inl it ↦ rw it (same ∙ subst (IsBare profs) (sym ((==_iff p q).0 it)) h.0)
      | inr away ↦ rw away h.0
    ],
    other_queue profs p x ps same h.1,
  )

  -- The log lists the records of all profiles in order of their numbers, which go up to `n`, and tells
  -- of the buffers `m`.
  pub record Tells (n : ℕ) (m : Live) (s : Tracer T stray) : Type 0 where
    pub log : List ℕ
    pub logs : Logs T stray (ghost log) s.store m
    pub in_order : IsSorted compare compare-IsOrder (id_of T stray s.store.recs) log
    pub below_log : All (λ e. (s.store.recs e).mpr_id ≤ n) log
    pub all : Perm log (held T stray s)
    pub plain : IsPlain T stray s.store.recs (held T stray s)
    pub below : All (λ e. (s.store.recs e).mpr_id ≤ n) (held T stray s)
    pub number : s.store.mpr_id ≡ n
    pub headed : IsHeaded s.mem m
    pub apart : NoRepeat s.profiles
    pub real : All (λ p. 0 < p) s.profiles
    pub bare : All (IsBare s.profs) s.profiles
    pub known : (t : ℕ) → (s.specific t ≡ 0) ⊎ Among (s.specific t) s.profiles

  abbrev next_store : Answers T stray → MprofileRecord → Store T stray → Store T stray
  next_store a r st = record st {
    recs = update st.recs a.rec (record r { mpr_id = u64 (st.mpr_id + 1); mpr_stack_id = 0 });
    mpr_id = u64 (st.mpr_id + 1);
  }

  record_event-plain :
      (a : Answers T stray) (r : MprofileRecord) (mp : Mprofile T stray) (st : Store T stray)
      → 0 < a.rec
      → record_event T stray a r none mp st
        ≡ (record mp { mp_tqhead = mp.mp_tqhead ++ a.rec ∷ [] }, next_store a r st)
  unfolding record_event append_record
  record_event-plain a r mp st real = rw (record_event, ==_of_ne a.rec 0 (omega arith)) refl

  module _ (a : Answers T stray) (r : MprofileRecord) (mp : ℕ) (mem : ℕ → Memhdr)
      (cs : List LibcCall) (s : Tracer T stray) where
    -- the state after a call that has put a record at the end of the queue of the profile at `mp`
    abbrev pub after : Tracer T stray
    after = record s {
      mem = mem;
      calls = cs;
      store = next_store a r s.store;
      profs =
          update s.profs mp
            (record (s.profs mp) { mp_tqhead = (s.profs mp).mp_tqhead ++ a.rec ∷ [] });
    }

  pub note-after :
      (a : Answers T stray) {mp : ℕ} {m m' : Live} {s s' : Tracer T stray}
      → 0 < a.rec
      → (note : Notes T stray a none mp m m' s s')
      → s' ≡ after a note.r mp note.before.mem note.before.calls s
  note-after a {mp} real note =
      note.is_noted
      ∙ rw
          (
            record_event-plain a note.r (note.before.profs mp) note.before.store real,
            note.specific,
            note.profiles,
            note.profs,
            note.store,
          )
          refl

  module _ {n : ℕ} {m : Live} {s : Tracer T stray} (h : Tells n m s) (small : n + 1 < 2 ^ 64) where
    next_number : u64 (s.store.mpr_id + 1) ≡ n + 1
    next_number = rw h.number (omega (arith, small))

    -- one more record, at the end of the queue of a profile
    pub after-Tells :
        (a : Answers T stray) (r : MprofileRecord) (mp : ℕ) (mem : ℕ → Memhdr) (cs : List LibcCall)
        {m' : Live} {old : Option ℕ}
        → Among mp s.profiles
        → 0 < a.rec
        → All (λ e. e ≢ a.rec) (held T stray s)
        → IsUnlinked (λ _. r) 0
        → event r a.rec m ≡ some (m', old)
        → IsHeaded mem m'
        → Tells (n + 1) m' (after a r mp mem cs s)
    after-Tells a r mp mem cs {m'} {old} among real new unlinked fits headed =
        let out = out_of_log a.rec h.log (held T stray s) h.all new in
        let rr : MprofileRecord = record r {
          mpr_id = u64 (s.store.mpr_id + 1);
          mpr_stack_id = 0;
        } in
        let recs : Records = s.store.recs in
        let recs' : Records = update recs a.rec rr in
        let f : ℕ → ℕ = id_of T stray recs' in
        let here : f a.rec ≡ n + 1 =
          ap MprofileRecord.mpr_id (update_self recs a.rec rr) ∙ next_number in
        let all : List ℕ = held T stray s in
        let low_log = All-update (λ r. r.mpr_id ≤ n) recs a.rec rr h.log out h.below_log in
        let low = All-update (λ r. r.mpr_id ≤ n) recs a.rec rr all new h.below in
        let in_all =
          all-IsInserted T stray s.profs mp a.rec
            (record (s.profs mp) { mp_tqhead = (s.profs mp).mp_tqhead ++ a.rec ∷ [] }) s.profiles
            among h.apart refl in
        record {
          log = h.log ++ a.rec ∷ [];
          logs =
              rw (record_event-plain a r (ghost h.log) s.store real) at
                (record_event-Logs T stray a r none m' old h.logs real out unlinked fits);
          in_order =
              IsSorted-last f h.log a.rec
                (rekey-IsSorted compare compare-IsOrder (id_of T stray recs) f h.log
                  (same_numbers recs a.rec rr h.log out) h.in_order)
                (All-later f n a.rec h.log here low_log);
          below_log =
              All-insert (λ e. f e ≤ n + 1) h.log a.rec [] (omega (arith, here))
                (rw append-nil (All-below f n h.log low_log));
          all = inserted-Perm in_all h.log h.all;
          plain = record {
            plain =
                inserted-All in_all (λ e. (recs' e).mpr_stack_id ≡ 0) (rw (==_refl a.rec) refl)
                  (All-update (λ r. r.mpr_stack_id ≡ 0) recs a.rec rr all new h.plain.plain);
            distinct = inserted-NoRepeat f in_all (All-other f n a.rec all here low) (
                subst NoRepeat
                  (sym (map-same (id_of T stray recs) f all (same_numbers recs a.rec rr all new)))
                  h.plain.distinct);
          };
          below =
              inserted-All in_all (λ e. f e ≤ n + 1) (omega (arith, here)) (All-below f n all low);
          number = next_number;
          headed = headed;
          apart = h.apart;
          real = h.real;
          bare = other_queue s.profs mp _ s.profiles refl h.bare;
          known = h.known;
        }
