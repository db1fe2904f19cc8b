-- ===== src/Stset/Recount.antt =====
-- What an addition of `mprofile_add_stack` of mprofile/stack.c does to a set, and the case that the set has
-- the stack already.
use ossl_scripts.Base.{
  some, inl, inr, refl, ◌≡◌, ◌+◌, ◌≤◌, ℕ, List, Option, ◌≢◌, Ordering-cases, ◌⊎◌, ◌==◌, ◌<◌, ◌^◌,
  arith, Bool-cases, sym, ◌∙◌, ==_iff, none, update, ap, ==_of_ne, ==_refl,
}
use ossl_scripts.Tree.{RbTree}
use ossl_scripts.Stack.{Stray, MpsStack}
use ossl_scripts.Stset.Contents.{
  hits, key_compare-IsOrder, Contains, uses, IsUsable, Contains-same, frames_at, IsStored,
}
use ossl_scripts.Stset.{Stacks, StackSet, count_up}
use ossl_scripts.Stack.Order.{key_compare}
use ossl_scripts.Stack.Frames.{frames}
use Prim.Native.Nat.{lt, eq, gt}
use ossl_scripts.Tree.Members.{Holds-key}
use mathlib.Core.Path.{subst}

module _ (T : RbTree) (stray : Stray) where
  -- What an addition does to a set with this map: the set answers the stack with the frames of `new`, whose
  -- uses are one more than before, and the uses of all other frames are the same.
  pub record Added (new : MpsStack) (m : List ℕ → Option ℕ) (objs : Stacks) (old_id p : ℕ)
      (result : Option ℕ × StackSet T stray × Stacks) : Type 0 where
    pub at : ℕ
    pub answers : result.0 ≡ some at
    pub has : List ℕ → Option ℕ
    pub ids : ℕ → Option ℕ
    pub contains : Contains T stray result.1 result.2 has ids
    pub here : has (frames new) ≡ some at
    pub counts : (k : List ℕ) → uses result.2 (has k) ≡ uses objs (m k) + hits k (frames new)
    pub from : (k : List ℕ) (e : ℕ) → has k ≡ some e → (m k ≡ some e) ⊎ ((e ≡ p) × (k ≡ frames new))
    pub next_id : result.1.stset_id ≤ old_id + 1

  pub hits_self : (k : List ℕ) → hits k k ≡ 1
  hits_self k = rw ((key_compare-IsOrder.eq_iff k k).1 refl) refl

  pub hits_ne : (k fs : List ℕ) → k ≢ fs → hits k fs ≡ 0
  hits_ne k fs ne = elim (Ordering-cases (key_compare k fs)) [
    | inl less ↦ rw less refl
    | inr (inl same) ↦ absurd (ne ((key_compare-IsOrder.eq_iff k fs).0 same))
    | inr (inr more) ↦ rw more refl
  ]

  -- two stacks with the same frames and id
  abbrev pub Kept : MpsStack → MpsStack → Type 0
  Kept x y = (frames x ≡ frames y) × (x.mps_id ≡ y.mps_id) × (IsStored y → IsStored x)

  pub update-Kept :
      (objs : Stacks) (p : ℕ) (x : MpsStack)
      → Kept x (objs p)
      → (e : ℕ) → Kept (update objs p x e) (objs e)
  update-Kept objs p x kept e = elim (Bool-cases (p == e)) [
    | inl same ↦ rw same (subst (λ e. Kept x (objs e)) ((==_iff p e).0 same) kept)
    | inr other ↦ rw other (refl, refl, λ u. u)
  ]

  -- the count does not belong to the frames or to the id
  pub count_up-Kept : (objs : Stacks) (e0 e : ℕ) → Kept (count_up T stray objs e0 e) (objs e)
  unfolding count_up
  count_up-Kept objs e0 e =
      update-Kept objs e0 _
        (
          refl,
          refl,
          λ u. record { filled = u.filled; not_empty = u.not_empty; managed = u.managed },
        )
        e

  module _ {set : StackSet T stray} {objs : Stacks} {m : List ℕ → Option ℕ} {ids : ℕ → Option ℕ}
      (h : Contains T stray set objs m ids) (new : MpsStack) (usable : IsUsable new) where
    module _ (p e0 : ℕ) (known : m (frames new) ≡ some e0)
        (small : uses objs (m (frames new)) + 1 < 2 ^ 32) where
      counts_known :
          (k : List ℕ)
          → uses (count_up T stray objs e0) (m k) ≡ uses objs (m k) + hits k (frames new)
      unfolding count_up
      counts_known k = elim (Ordering-cases (key_compare k (frames new))) [
        | inl less ↦ away (λ e. let bad : lt ≡ eq = sym less ∙ met e in cc)
        | inr (inl same) ↦
            let it : k ≡ frames new = (key_compare-IsOrder.eq_iff k (frames new)).0 same in
            let low : (objs e0).mps_count + 1 < 2 ^ 32 = rw known at small in
            rw (it, known, hits_self (frames new), uses, ==_refl e0) (omega (arith, low))
        | inr (inr more) ↦ away (λ e. let bad : gt ≡ eq = sym more ∙ met e in cc)
      ]
        where
          met : k ≡ frames new → key_compare k (frames new) ≡ eq
          met e = (key_compare-IsOrder.eq_iff k (frames new)).1 e

          other :
              (o : Option ℕ)
              → m k ≡ o
              → k ≢ frames new
              → uses (count_up T stray objs e0) o ≡ uses objs o + 0
          other none e ne = omega arith
          other (some e') e ne =
              let apart : e0 ≢ e' = (λ it. ne (
                Holds-key key_compare key_compare-IsOrder (frames_at objs) T h.by_frames_tree k e
                ∙ ap (frames_at objs) (sym it)
                ∙ sym (
                    Holds-key key_compare key_compare-IsOrder (frames_at objs) T h.by_frames_tree
                      (frames new) known))) in
              rw (uses, ==_of_ne e0 e' apart) (omega arith)

          away :
              k ≢ frames new
              → uses (count_up T stray objs e0) (m k) ≡ uses objs (m k) + hits k (frames new)
          away ne = rw (hits_ne k (frames new) ne) (other (m k) refl ne)

      pub add_known : Added new m objs set.stset_id p (some e0, set, count_up T stray objs e0)
      add_known = record {
        at = e0;
        answers = refl;
        has = m;
        ids = ids;
        contains =
            Contains-same T stray h (count_up T stray objs e0) (λ e there. count_up-Kept objs e0 e);
        here = known;
        counts = counts_known;
        from = λ k e there. inl there;
        next_id = omega arith;
      }
