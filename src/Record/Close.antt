-- ===== src/Record/Close.antt =====
-- The step of `build_chains` (mprofile/record.c) that links a record to the one before it.
use Prim.Native.Nat.{compare, lt, eq, gt}
use ossl_scripts.Base.{
  ℕ, refl, none, some, inl, inr, ◌≡◌, List, arith, ◌≢◌, ==_of_ne, sym, ◌∙◌, Ordering-cases,
}
use ossl_scripts.Tree.{RbTree}
use ossl_scripts.Record.Chains.{
  linked, IsSame, Inv, Next, key, found, linked_elsewhere, fresh-linked,
}
use ossl_scripts.Record.{Records, link, chained, close_record, aborted}
use ossl_scripts.Record.History.{Live}
use ossl_scripts.Tree.Map.{assign, Holds, remove-Holds}
use ossl_scripts.Tree.Keyed.{find_hit, compare-IsOrder}
use mathlib.Core.Path.{subst, ap}

linked-next :
    (q r : ℕ) (recs : Records) → q ≢ r → (linked q r recs r).mpr_next_id ≡ (recs r).mpr_next_id
unfolding linked
linked-next q r recs ne = ground arith

module _ (T : RbTree) (orig : Records) where
  linked-IsSame :
      (q r : ℕ) (recs : Records) → q ≢ r → IsSame T orig recs → IsSame T orig (linked q r recs)
  unfolding linked
  linked-IsSame q r recs ne same e = ground (arith, same e, same q, same r)

  link_lem :
      (q r : ℕ) (recs : Records) (t : T.Head)
      → q ≢ r
      → (recs q).mpr_next_id ≡ 0
      → (recs r).mpr_prev_id ≡ 0
      → link T q r recs t ≡ chained (linked q r recs) t
  unfolding link linked
  link_lem q r recs t ne next prev = rw (next, ==_of_ne q r ne, prev) refl

  module _ {rs : List ℕ} {m : Live} {recs : Records} {t : T.Head} (inv : Inv T orig rs m recs t)
      (r : ℕ) (here : Next T orig r rs m recs) where
    pub close_record-none : (k : ℕ) → m k ≡ none → close_record T k r recs t ≡ aborted
    unfolding close_record
    close_record-none k h = rw (close_record, found T orig inv r k, h) refl

    module _ (k q : ℕ) (old : m k ≡ some q) where
      at_q : k ≡ key T orig q
      at_q = find_hit compare compare-IsOrder (key T orig) k (T.elems t) (inv.holds.maps k ∙ old)

      q_ne_r : q ≢ r
      q_ne_r e = here.not_live k q old (sym e)

      pub close_record-some : close_record T k r recs t ≡ chained (linked q r recs) (T.remove q t)
      unfolding close_record
      close_record-some =
          rw (close_record, found T orig inv r k, old)
            (link_lem q r recs (T.remove q t) q_ne_r (inv.live k q old).0 here.unlinked.1)

      others : (j p : ℕ) → assign compare m k none j ≡ some p → (m j ≡ some p) × (p ≢ q)
      others j p h = elim (Ordering-cases (compare j k)) [
        | inl less ↦
            (rw less at h, away (rw less at h) (λ e. let bad : lt ≡ eq = sym less ∙ e in cc))
        | inr (inl same) ↦ absurd (let bad : none ≡ some p = rw same at h in cc)
        | inr (inr more) ↦
            (rw more at h, away (rw more at h) (λ e. let bad : gt ≡ eq = sym more ∙ e in cc))
      ]
        where
          away : m j ≡ some p → compare j k ≢ eq → p ≢ q
          away hj ne e = ne (
              (compare-IsOrder.eq_iff j k).1 (
                find_hit compare compare-IsOrder (key T orig) j (T.elems t) (inv.holds.maps j ∙ hj)
                ∙ ap (key T orig) e
                ∙ sym at_q))

      pub Inv-close : Inv T orig rs (assign compare m k none) (linked q r recs) (T.remove q t)
      Inv-close = record {
        same = linked-IsSame q r recs q_ne_r inv.same;
        holds =
            subst
              (λ k.
                Holds compare compare-IsOrder (key T orig) T (T.remove q t)
                  (assign compare m k none))
              (sym at_q)
              (remove-Holds compare compare-IsOrder (key T orig) T inv.holds q
                (ap m (sym at_q) ∙ old));
        live = λ j p h.
            let was = others j p h in
            (
              rw (linked_elsewhere q r p recs was.1 (λ e. here.not_live j p was.0 (sym e)))
                  (inv.live j p was.0).0,
              (inv.live j p was.0).1,
            );
        fresh = fresh-linked q r recs rs (inv.live k q old).1 here.out inv.fresh;
        distinct = inv.distinct;
      }

      pub closed-next : (linked q r recs r).mpr_next_id ≡ 0
      closed-next = linked-next q r recs q_ne_r ∙ here.unlinked.0
