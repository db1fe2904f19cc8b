-- ===== src/Record/Build.antt =====
-- `build_chains` of mprofile/record.c over a whole log.
use ossl_scripts.Base.{ℕ, refl, [], none, some, ◌∷◌, ◌≡◌, List, Option, All}
use ossl_scripts.Record.History.{
  Link, follow, history, Live, and_then, nothing_live, event, opens, followed,
}
use ossl_scripts.Tree.{RbTree}
use ossl_scripts.Record.{
  Records, chain_records, Chained, aborted, chained, and_chain, build_chains, chain_record, compare,
  state_alloc,
}
use ossl_scripts.Record.Chains.{linked, after, Inv, NoRepeat, IsSame, IsUnlinked, key}
use ossl_scripts.Record.Link.{Agrees, step-Agrees}
use ossl_scripts.Tree.Map.{Holds-init, Holds}
use mathlib.Core.Path.{subst}
use ossl_scripts.Tree.Keyed.{compare-IsOrder}

-- the store with all links made, one after the other
unfoldable pub linked_all : List Link → Records → Records
linked_all [] recs = recs
linked_all ((q, r) ∷ ls) recs = linked_all ls (linked q r recs)

linked_all-follow :
    (o : Option ℕ) (r : ℕ) (ls : List Link) (recs : Records)
    → linked_all (follow o r ls) recs ≡ linked_all ls (after o r recs)
unfolding linked_all
linked_all-follow none r ls recs = refl
linked_all-follow (some q) r ls recs = refl

module _ (T : RbTree) (orig : Records) where
  -- The code and the history of the log both refuse; or the code ends with the links of the history,
  -- and its tree holds the buffers that are still live.
  abbrev pub AgreesAll : Records → Option (Live × List Link) → Chained T → Type 0
  AgreesAll recs none c = c ≡ aborted
  AgreesAll recs (some (m, ls)) c =
      (t : T.Head) × (c ≡ chained (linked_all ls recs) t) × Inv T orig [] m (linked_all ls recs) t

  follow-AgreesAll :
      (o : Option ℕ) (r : ℕ) (recs : Records) (h : Option (Live × List Link)) (c : Chained T)
      → AgreesAll (after o r recs) h c
      → AgreesAll recs (followed o r h) c
  follow-AgreesAll o r recs none c a = a
  follow-AgreesAll o r recs (some (m, ls)) c (t, e, inv) =
      rw (linked_all-follow o r ls recs) (t, e, inv)

  chain_records-history :
      (rs : List ℕ) {m : Live} {recs : Records} {t : T.Head}
      → Inv T orig rs m recs t
      → AgreesAll recs (history rs orig m) (chain_records T rs recs t)
  unfolding history chain_records linked_all
  chain_records-history [] {recs} {t} inv = (t, refl, inv)
  chain_records-history (r ∷ rs) {m} {recs} {t} inv =
      go (λ m' recs' t' inv'. chain_records-history rs {m = m'} {recs = recs'} {t = t'} inv')
        (event (orig r) r m) (chain_record T r recs t) (step-Agrees T orig inv)
    where
      go :
          ((m' : Live) (recs' : Records) (t' : T.Head)
            → Inv T orig rs m' recs' t'
            → AgreesAll recs' (history rs orig m') (chain_records T rs recs' t'))
          → (e : Option (Live × Option ℕ)) (c : Chained T) → Agrees T orig rs r recs e c
          → AgreesAll recs
              (and_then e λ m' o. followed o r (history rs orig m'))
              (and_chain T c (chain_records T rs))
      go ih none c a = rw a refl
      go ih (some (m', o)) c (t', e, inv') = rw e (
          follow-AgreesAll o r recs (history rs orig m') (chain_records T rs (after o r recs) t')
            (ih m' (after o r recs) t' inv'))

  -- A log as the profiler hands it over: no record twice, and none linked.
  pub record IsLog (rs : List ℕ) : Type 0 where
    pub distinct : NoRepeat rs
    pub unlinked : All (IsUnlinked orig) rs

  start : (rs : List ℕ) → IsLog rs → Inv T orig rs nothing_live orig T.init
  start rs log = record {
    same = λ e. refl;
    holds = Holds-init compare compare-IsOrder (key T orig) T;
    live = λ k q h. absurd (cc);
    fresh = log.unlinked;
    distinct = log.distinct;
  }

  agrees :
      (rs : List ℕ)
      → IsLog rs
      → AgreesAll orig (history rs orig nothing_live) (build_chains T rs orig)
  unfolding build_chains
  agrees rs log = chain_records-history rs (start rs log)

  -- `build_chains` calls `abort` if some event of the log does not fit the history of the heap.
  pub build_chains-aborts :
      (rs : List ℕ)
      → IsLog rs
      → history rs orig nothing_live ≡ none
      → build_chains T rs orig ≡ aborted
  build_chains-aborts rs log h =
      subst (λ o. AgreesAll orig o (build_chains T rs orig)) h (agrees rs log)

  -- If every event of the log fits the history of the heap, `build_chains` ends, no assertion fails,
  -- its links are those of the history, in the same order, and nothing but links changes. Its tree
  -- holds the buffers that were not given back, each by its latest record, which has no successor.
  pub build_chains-history :
      (rs : List ℕ) (m : Live) (ls : List Link)
      → IsLog rs
      → history rs orig nothing_live ≡ some (m, ls)
      → (t : T.Head) × (build_chains T rs orig ≡ chained (linked_all ls orig) t)
        × IsSame T orig (linked_all ls orig)
        × Holds compare compare-IsOrder (key T orig) T t m
        × ((k q : ℕ) → m k ≡ some q → (linked_all ls orig q).mpr_next_id ≡ 0)
  build_chains-history rs m ls log h =
      let (t, e, inv) = subst (λ o. AgreesAll orig o (build_chains T rs orig)) h (agrees rs log) in
      (t, e, inv.same, inv.holds, λ k q l. (inv.live k q l).0)

  repeat_lem :
      (r s : ℕ) (rs : List ℕ)
      → (orig r).mpr_state ≡ state_alloc
      → (orig s).mpr_state ≡ state_alloc
      → (orig s).mpr_mem ≡ (orig r).mpr_mem
      → history (r ∷ s ∷ rs) orig nothing_live ≡ none
  unfolding history event opens
  repeat_lem r s rs a b e =
      rw (a, b, e, (compare-IsOrder.eq_iff (orig r).mpr_mem (orig r).mpr_mem).1 refl) refl

  -- A log of distinct and unlinked records that begins with two records of an allocation at one address
  -- makes `build_chains` abort, whatever the address (NULL too) and whatever follows.
  pub build_chains-aborts_repeat :
      (r s : ℕ) (rs : List ℕ)
      → IsLog (r ∷ s ∷ rs)
      → (orig r).mpr_state ≡ state_alloc
      → (orig s).mpr_state ≡ state_alloc
      → (orig s).mpr_mem ≡ (orig r).mpr_mem
      → build_chains T (r ∷ s ∷ rs) orig ≡ aborted
  build_chains-aborts_repeat r s rs log a b e =
      build_chains-aborts (r ∷ s ∷ rs) log (repeat_lem r s rs a b e)
