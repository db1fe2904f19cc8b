-- ===== src/Profile/Log.antt =====
-- Records are appended to a profile of mprofile/record.c: the history that the log tells goes on by
-- one event.
use ossl_scripts.Base.{
  ℕ, refl, [], none, some, ◌∷◌, ◌≡◌, ◌++◌, List, Option, All, ◌≢◌, update, ==_of_ne, sym, ap, ◌∙◌,
  ◌+◌, ◌<◌, arith, All-insert, ==_refl,
}
use ossl_scripts.Record.History.{
  Live, history, Link, follow, event, and_then, followed, nothing_live,
}
use ossl_scripts.Record.{Records, MprofileRecord}
use mathlib.Core.Path.{fun_ext}
use ossl_scripts.Record.Chains.{NoRepeat, IsUnlinked}
use ossl_scripts.Tree.{RbTree}
use ossl_scripts.Stack.{Stray}
use mathlib.Core.List.{append-nil}
use ossl_scripts.Profile.{Mprofile, record_event, append_record, Answers, Store, MpsStack, u64}

history-update :
    (rs : List ℕ) (recs : Records) (a : ℕ) (r : MprofileRecord) (m : Live)
    → All (λ e. e ≢ a) rs
    → history rs (update recs a r) m ≡ history rs recs m
unfolding history
history-update [] recs a r m out = refl
history-update (x ∷ xs) recs a r m out = rw (==_of_ne a x (λ e. out.0 (sym e))) (
    ap
      (λ (f : Live → Option (Live × List Link)).
        and_then (event (recs x) x m) λ m' o. followed o x (f m'))
      (fun_ext λ m'. history-update xs recs a r m' out.1))

-- the history of a log that goes on with one record
extend :
    Option (Live × List Link)
    → (Live → Option (Live × Option ℕ))
    → (r : ℕ) → Option (Live × List Link)
extend none ev r = none
extend (some (m, ls)) ev r = and_then (ev m) λ m' o. some (m', ls ++ follow o r [])

follow-append :
    (o : Option ℕ) (x : ℕ) (ls : List Link) (o' : Option ℕ) (r : ℕ)
    → follow o x (ls ++ follow o' r []) ≡ follow o x ls ++ follow o' r []
follow-append none x ls o' r = refl
follow-append (some q) x ls o' r = refl

extend-follow :
    (o : Option ℕ) (x r : ℕ) (h : Option (Live × List Link)) (ev : Live → Option (Live × Option ℕ))
    → followed o x (extend h ev r) ≡ extend (followed o x h) ev r
unfolding extend
extend-follow o x r none ev = refl
extend-follow o x r (some (m, ls)) ev = go (ev m)
  where
    go :
        (e : Option (Live × Option ℕ))
        → followed o x (and_then e λ m' o'. some (m', ls ++ follow o' r []))
          ≡ (and_then e λ m' o'. some (m', follow o x ls ++ follow o' r []))
    go none = refl
    go (some (m', o')) = ap (λ (l : List Link). some (m', l)) (follow-append o x ls o' r)

history-append :
    (rs : List ℕ) (r : ℕ) (recs : Records) (m : Live)
    → history (rs ++ r ∷ []) recs m ≡ extend (history rs recs m) (event (recs r) r) r
unfolding history extend
history-append [] r recs m = go (event (recs r) r m)
  where
    go :
        (e : Option (Live × Option ℕ))
        → (and_then e λ m' o. followed o r (some (m', [])))
          ≡ (and_then e λ m' o. some (m', [] ++ follow o r []))
    go none = refl
    go (some (m', o)) = refl
history-append (x ∷ xs) r recs m = go (λ m'. history-append xs r recs m') (event (recs x) x m)
  where
    go :
        ((m' : Live)
          → history (xs ++ r ∷ []) recs m' ≡ extend (history xs recs m') (event (recs r) r) r)
        → (e : Option (Live × Option ℕ))
        → (and_then e λ m' o. followed o x (history (xs ++ r ∷ []) recs m'))
          ≡ extend (and_then e λ m' o. followed o x (history xs recs m')) (event (recs r) r) r
    go ih none = refl
    go ih (some (m', o)) =
        ap (followed o x) (ih m') ∙ extend-follow o x r (history xs recs m') (event (recs r) r)

pub NoRepeat-append :
    (xs : List ℕ) (r : ℕ) → NoRepeat xs → All (λ e. e ≢ r) xs → NoRepeat (xs ++ r ∷ [])
NoRepeat-append [] r n out = (tt, tt)
NoRepeat-append (x ∷ xs) r n out = (
  All-insert (λ e. e ≢ x) xs r [] (λ e. out.0 (sym e)) (rw append-nil n.0),
  NoRepeat-append xs r n.1 out.1,
)

IsUnlinked-update :
    (xs : List ℕ) (recs : Records) (a : ℕ) (r : MprofileRecord)
    → All (λ e. e ≢ a) xs
    → All (IsUnlinked recs) xs
    → All (IsUnlinked (update recs a r)) xs
IsUnlinked-update [] recs a r out u = tt
IsUnlinked-update (x ∷ xs) recs a r out u =
    (rw (==_of_ne a x (λ e. out.0 (sym e))) u.0, IsUnlinked-update xs recs a r out.1 u.1)

module _ (T : RbTree) (stray : Stray) where
  -- The profile's log tells of the live buffers `m`.
  pub record Logs (mp : Mprofile T stray) (st : Store T stray) (m : Live) : Type 0 where
    pub links : List Link
    pub told : history mp.mp_tqhead st.recs nothing_live ≡ some (m, links)
    pub distinct : NoRepeat mp.mp_tqhead
    pub unlinked : All (IsUnlinked st.recs) mp.mp_tqhead

  appended :
      (a : Answers T stray) (r : MprofileRecord) (mps : Option MpsStack) (mp : Mprofile T stray)
      (st : Store T stray)
      → (sid : ℕ) × ((append_record T stray a r mps mp st).0.mp_tqhead ≡ mp.mp_tqhead ++ a.rec ∷ [])
        × ((append_record T stray a r mps mp st).1.recs
            ≡ update st.recs a.rec (record r { mpr_id = u64 (st.mpr_id + 1); mpr_stack_id = sid }))
  unfolding append_record
  appended a r none mp st = (0, refl, refl)
  appended a r (some mps) mp st = (_, refl, refl)

  extended :
      (a : Answers T stray) (r rr : MprofileRecord) {mp : Mprofile T stray} {st : Store T stray}
      {m : Live} (m' : Live) (o : Option ℕ) (mp' : Mprofile T stray) (st' : Store T stray)
      → Logs mp st m
      → All (λ e. e ≢ a.rec) mp.mp_tqhead
      → IsUnlinked (λ _. rr) 0
      → event rr a.rec m ≡ some (m', o)
      → mp'.mp_tqhead ≡ mp.mp_tqhead ++ a.rec ∷ []
      → st'.recs ≡ update st.recs a.rec rr
      → Logs mp' st' m'
  unfolding extend
  extended a r rr {mp} {st} {m} m' o mp' st' logs out un fits queue store = record {
    links = logs.links ++ follow o a.rec [];
    told =
        rw (queue, store)
          (history-append mp.mp_tqhead a.rec (update st.recs a.rec rr) nothing_live
            ∙ ap
                (λ (h : Option (Live × List Link)).
                  extend h (event (update st.recs a.rec rr a.rec) a.rec) a.rec)
                (history-update mp.mp_tqhead st.recs a.rec rr nothing_live out ∙ logs.told)
            ∙ rw (==_refl a.rec, fits) refl);
    distinct = rw queue (NoRepeat-append mp.mp_tqhead a.rec logs.distinct out);
    unlinked =
        rw (queue, store)
          (All-insert (IsUnlinked (update st.recs a.rec rr)) mp.mp_tqhead a.rec []
            (rw (==_refl a.rec) un)
            (rw append-nil (IsUnlinked-update mp.mp_tqhead st.recs a.rec rr out logs.unlinked)));
  }

  event-fields :
      (r : MprofileRecord) (id sid p : ℕ) (m : Live)
      → event (record r { mpr_id = id; mpr_stack_id = sid }) p m ≡ event r p m
  unfolding event
  event-fields r id sid p m = refl

  -- A record that fits takes the log one event further.
  pub record_event-Logs :
      (a : Answers T stray) (r : MprofileRecord) (mps : Option MpsStack) {mp : Mprofile T stray}
      {st : Store T stray} {m : Live} (m' : Live) (o : Option ℕ)
      → Logs mp st m
      → 0 < a.rec
      → All (λ e. e ≢ a.rec) mp.mp_tqhead
      → (r.mpr_next_id ≡ 0) × (r.mpr_prev_id ≡ 0)
      → event r a.rec m ≡ some (m', o)
      → Logs (record_event T stray a r mps mp st).0 (record_event T stray a r mps mp st).1 m'
  unfolding record_event
  record_event-Logs a r mps {mp} {st} {m} m' o logs pos out un fits =
      let (sid, queue, store) = appended a r mps mp st in
      rw (record_event, ==_of_ne a.rec 0 (omega arith))
        (extended a r (record r { mpr_id = u64 (st.mpr_id + 1); mpr_stack_id = sid }) m' o
          (append_record T stray a r mps mp st).0 (append_record T stray a r mps mp st).1 logs out
          un (event-fields r (u64 (st.mpr_id + 1)) sid a.rec m ∙ fits) queue store)
