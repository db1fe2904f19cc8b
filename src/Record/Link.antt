-- ===== src/Record/Link.antt =====
-- `build_chains` of mprofile/record.c follows the history of the log: it links each record to the
-- one before it of the same buffer, and stops exactly where an event does not fit.
use ossl_scripts.Base.{
  ℕ, none, some, inl, inr, ◌∷◌, ◌≡◌, List, Option, All, ◌≢◌, Option-cases, refl, ◌==◌, ap,
  if◌then◌else◌, Bool-cases,
}
use mathlib.Core.Option
use ossl_scripts.Tree.{RbTree}
use ossl_scripts.Record.{
  Records, Chained, aborted, chained, insert_record, chain_record, MprofileRecord, compare,
  close_record, and_chain,
}
use ossl_scripts.Record.History.{Live, opens, reopens, closed, event}
use ossl_scripts.Record.Chains.{
  Inv, Next, after, key, with_r, insert_record-new, Inv-insert, insert_record-old, mem_lem,
}
use ossl_scripts.Tree.Map.{assign}
use ossl_scripts.Record.Close.{close_record-none, close_record-some, Inv-close, closed-next}

module _ (T : RbTree) (orig : Records) where
  advance :
      {r : ℕ} {rs : List ℕ} {m : Live} {recs : Records} {t : T.Head}
      → Inv T orig (r ∷ rs) m recs t
      → Inv T orig rs m recs t × Next T orig r rs m recs
  advance inv = (
    record {
      same = inv.same;
      holds = inv.holds;
      live = λ k q h. ((inv.live k q h).0, (inv.live k q h).1.1);
      fresh = inv.fresh.1;
      distinct = inv.distinct.1;
    },
    record {
      unlinked = inv.fresh.0;
      out = inv.distinct.0;
      not_live = λ k q h. (inv.live k q h).1.0;
    },
  )

  module _ (rs : List ℕ) (r : ℕ) (recs : Records) where
    -- What the code does agrees with an event: both refuse, or the links and the tree are right.
    abbrev pub Agrees : Option (Live × Option ℕ) → Chained T → Type 0
    Agrees none c = c ≡ aborted
    Agrees (some (m, o)) c =
        (t : T.Head) × (c ≡ chained (after o r recs) t) × Inv T orig rs m (after o r recs) t

    insert-Agrees :
        {m : Live} {t : T.Head} (o : Option ℕ) (inv : Inv T orig rs m (after o r recs) t)
        → (after o r recs r).mpr_next_id ≡ 0
        → All (λ e. e ≢ r) rs
        → Agrees
            (Option.map (λ m'. (m', o)) (opens (key T orig r) r m))
            (insert_record T r (after o r recs) t)
    unfolding opens
    insert-Agrees {m} o inv next out = elim (Option-cases (m (key T orig r))) [
      | inl absent ↦ rw absent (
        with_r T orig inv r,
        insert_record-new T orig inv r absent,
        Inv-insert T orig inv r next out absent,
      )
      | inr (e, old) ↦ rw old (insert_record-old T orig inv r e old)
    ]

  module _ {rs : List ℕ} {r : ℕ} {m : Live} {recs : Records} {t : T.Head}
      (inv : Inv T orig (r ∷ rs) m recs t) where
    rest : Inv T orig rs m recs t
    rest = (advance inv).0

    here : Next T orig r rs m recs
    here = (advance inv).1

    close-Agrees :
        (k : ℕ)
        → Agrees rs r recs (closed (assign compare m k none) (m k)) (close_record T k r recs t)
    close-Agrees k = elim (Option-cases (m k)) [
      | inl absent ↦ rw absent (close_record-none T orig rest r here k absent)
      | inr (q, old) ↦ rw old (
        T.remove q t,
        close_record-some T orig rest r here k q old,
        Inv-close T orig rest r here k q old,
      )
    ]

    realloc-Agrees :
        (k : ℕ)
        → Agrees rs r recs
            (reopens (key T orig r) r (closed (assign compare m k none) (m k)))
            (and_chain T (close_record T k r recs t) (insert_record T r))
    realloc-Agrees k = elim (Option-cases (m k)) [
      | inl absent ↦ rw (absent, close_record-none T orig rest r here k absent) refl
      | inr (q, old) ↦
          rw (old, close_record-some T orig rest r here k q old)
            (insert-Agrees rs r recs (some q) (Inv-close T orig rest r here k q old)
              (closed-next T orig rest r here k q old) here.out)
    ]

    state_lem : (recs r).mpr_state ≡ (orig r).mpr_state
    state_lem = ap (λ (x : MprofileRecord). x.mpr_state) (inv.same r)

    realloc_lem : (recs r).mpr_realloc ≡ (orig r).mpr_realloc
    realloc_lem = ap (λ (x : MprofileRecord). x.mpr_realloc) (inv.same r)

    free-Agrees :
        Agrees rs r recs
          (if key T orig r == 0
            then some (m, none)
            else closed (assign compare m (key T orig r) none) (m (key T orig r)))
          (if key T orig r == 0 then chained recs t else close_record T (key T orig r) r recs t)
    free-Agrees = elim (Bool-cases (key T orig r == 0)) [
      | inl null ↦ rw null (t, refl, rest)
      | inr real ↦ rw real (close-Agrees (key T orig r))
    ]

    pub step-Agrees : Agrees rs r recs (event (orig r) r m) (chain_record T r recs t)
    unfolding event chain_record
    step-Agrees =
        rw (event, chain_record, state_lem, mem_lem T orig rest r, realloc_lem)
          (elim (Bool-cases ((orig r).mpr_state == 1)) [
            | inl a ↦ rw a (insert-Agrees rs r recs none rest here.unlinked.0 here.out)
            | inr na ↦ elim (Bool-cases ((orig r).mpr_state == 2)) [
              | inl f ↦ rw (na, f) free-Agrees
              | inr nf ↦ elim (Bool-cases ((orig r).mpr_state == 3)) [
                | inl re ↦ rw (na, nf, re) (realloc-Agrees (orig r).mpr_realloc)
                | inr other ↦ rw (na, nf, other) (t, refl, rest)
              ]
            ]
          ])
