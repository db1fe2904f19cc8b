-- ===== src/Record/Chains.antt =====
-- `build_chains` of mprofile/record.c against the history of the heap that the log tells.
use Prim.Native.Nat.{compare}
use ossl_scripts.Base.{
  ℕ, refl, [], none, some, ◌∷◌, ◌≡◌, List, Option, All, update, ◌≢◌, ==_of_ne, ap, sym, inl, inr,
  Ordering-cases,
}
use ossl_scripts.Tree.{RbTree}
use ossl_scripts.Record.{
  Records, record_mem_compare, insert_record, chained, MprofileRecord, aborted,
}
use ossl_scripts.Record.History.{Live}
use ossl_scripts.Tree.Map.{
  find-Holds, Holds, insert_old-Holds, assign, insert_new-none, insert_new-Holds,
}
use ossl_scripts.Tree.Keyed.{at, compare-IsOrder}
use mathlib.Core.Path.{fun_ext, subst}
use mathlib.Core.Option.{some-injective}

abbrev pub NoRepeat : List ℕ → Type 0
NoRepeat [] = Unit
NoRepeat (r ∷ rs) = All (λ e. e ≢ r) rs × NoRepeat rs

-- the store with the record at `q` linked to its successor at `r`
unfoldable pub linked : (q r : ℕ) → Records → Records
linked q r recs =
    let recs' = update recs q (record (recs q) { mpr_next_id = (recs r).mpr_id }) in
    update recs' r (record (recs' r) { mpr_prev_id = (recs' q).mpr_id })

abbrev pub after : Option ℕ → (r : ℕ) → Records → Records
after none r recs = recs
after (some q) r recs = linked q r recs

abbrev pub IsUnlinked : Records → ℕ → Type 0
IsUnlinked recs e = ((recs e).mpr_next_id ≡ 0) × ((recs e).mpr_prev_id ≡ 0)

pub linked_elsewhere : (q r e : ℕ) (recs : Records) → e ≢ q → e ≢ r → linked q r recs e ≡ recs e
unfolding linked
linked_elsewhere q r e recs a b = rw (==_of_ne r e (λ h. b (sym h)), ==_of_ne q e (λ h. a (sym h)))

pub fresh-linked :
    (q r : ℕ) (recs : Records) (rs : List ℕ)
    → All (λ e. e ≢ q) rs
    → All (λ e. e ≢ r) rs
    → All (IsUnlinked recs) rs
    → All (IsUnlinked (linked q r recs)) rs
fresh-linked q r recs [] a b f = tt
fresh-linked q r recs (e ∷ rs) a b f =
    (rw (linked_elsewhere q r e recs a.0 b.0) f.0, fresh-linked q r recs rs a.1 b.1 f.1)

module _ (T : RbTree) (orig : Records) where
  -- the address of the buffer that a record is about
  abbrev pub key : ℕ → ℕ
  key e = (orig e).mpr_mem

  -- `recs` is the store at the start but for the links.
  abbrev pub IsSame : Records → Type 0
  IsSame recs =
      (e : ℕ)
      → recs e
        ≡ record (orig e) { mpr_next_id = (recs e).mpr_next_id; mpr_prev_id = (recs e).mpr_prev_id }

  -- Before the records `rs`: the tree holds the live buffers, whose records have no successor yet.
  pub record Inv (rs : List ℕ) (m : Live) (recs : Records) (t : T.Head) : Type 0 where
    pub same : IsSame recs
    pub holds : Holds compare compare-IsOrder key T t m
    pub live : (k q : ℕ) → m k ≡ some q → ((recs q).mpr_next_id ≡ 0) × All (λ e. e ≢ q) rs
    pub fresh : All (IsUnlinked recs) rs
    pub distinct : NoRepeat rs

  -- The record at `r` is next: it is not linked, and not among the later ones or the live ones.
  pub record Next (r : ℕ) (rs : List ℕ) (m : Live) (recs : Records) : Type 0 where
    pub unlinked : IsUnlinked recs r
    pub out : All (λ e. e ≢ r) rs
    pub not_live : (k q : ℕ) → m k ≡ some q → r ≢ q

  compare_lem :
      (recs : Records)
      → IsSame recs
      → (k : ℕ) → record_mem_compare recs k ≡ at compare compare-IsOrder key k
  compare_lem recs same k = fun_ext (λ e. ap (λ (r : MprofileRecord). compare k r.mpr_mem) (same e))

  module _ {rs : List ℕ} {m : Live} {recs : Records} {t : T.Head} (inv : Inv rs m recs t)
      (r : ℕ) where
    pub found : (k : ℕ) → T.find (record_mem_compare recs k) t ≡ m k
    found k =
        rw (compare_lem recs inv.same k) (find-Holds compare compare-IsOrder key T inv.holds k)

    pub mem_lem : (recs r).mpr_mem ≡ key r
    mem_lem = ap (λ (x : MprofileRecord). x.mpr_mem) (inv.same r)

    -- the tree with the record at `r`
    abbrev pub with_r : T.Head
    with_r = (T.insert (at compare compare-IsOrder key (key r)) r t).1

    pub insert_record-new : m (key r) ≡ none → insert_record T r recs t ≡ chained recs with_r
    unfolding insert_record
    insert_record-new absent =
        rw
          (
            insert_record,
            mem_lem,
            compare_lem recs inv.same (key r),
            insert_new-none compare compare-IsOrder key T inv.holds r absent,
          )
          refl

    pub insert_record-old : (e : ℕ) → m (key r) ≡ some e → insert_record T r recs t ≡ aborted
    unfolding insert_record
    insert_record-old e old =
        rw
          (
            insert_record,
            mem_lem,
            compare_lem recs inv.same (key r),
            insert_old-Holds compare compare-IsOrder key T inv.holds r e old,
          )
          refl

    pub Inv-insert :
        (recs r).mpr_next_id ≡ 0
        → All (λ e. e ≢ r) rs
        → m (key r) ≡ none
        → Inv rs (assign compare m (key r) (some r)) recs with_r
    Inv-insert unlinked out absent = record {
      same = inv.same;
      holds = insert_new-Holds compare compare-IsOrder key T inv.holds r absent;
      live = λ k q h. elim (Ordering-cases (compare k (key r))) [
        | inl less ↦ inv.live k q (rw less at h)
        | inr (inl same) ↦
            let hit : r ≡ q = some-injective _ _ (rw same at h) in
            subst (λ q. ((recs q).mpr_next_id ≡ 0) × All (λ e. e ≢ q) rs) hit (unlinked, out)
        | inr (inr more) ↦ inv.live k q (rw more at h)
      ];
      fresh = inv.fresh;
      distinct = inv.distinct;
    }
