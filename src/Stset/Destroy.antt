-- ===== src/Stset/Destroy.antt =====
-- `mprofile_destroy_stack` and `mprofile_destroy_stset` of mprofile/stack.c: what is freed, and what is
-- left of the trees.
use ossl_scripts.Stack.{Stray, mps_flag_managed}
use ossl_scripts.Stset.{StackSet, Stacks, RbTree, create_stset}
use ossl_scripts.Stset.Contents.{Contains, frames_at, id_at, key_compare-IsOrder}
use ossl_scripts.Base.{
  [], none, some, inl, inr, ◌∷◌, ◌≡◌, ◌==◌, ◌++◌, ℕ, List, Option, if◌then◌else◌, sym, ◌∙◌, ap,
  refl, ◌+◌, ◌<◌, ◌^◌, arith, length, ==_of_ne, ==_refl,
}
use ossl_scripts.Tree.Map.{assign, remove-Holds, assign-split, assign_ne}
use ossl_scripts.Stack.Order.{key_compare}
use Prim.Native.Nat.{compare}
use mathlib.Core.Option.{some-injective}
use ossl_scripts.Tree.Members.{Holds-key, Holds-nil, Holds-none, Holds-NoRepeat, Holds-first}
use ossl_scripts.Tree.Keyed.{compare-IsOrder}
use ossl_scripts.Tree.{erase}
use ossl_scripts.Stset.Counts.{Addition, IsRun, add_all, from_empty}
use ossl_scripts.Record.Chains.{NoRepeat}

module _ (T : RbTree) (stray : Stray) where
  -- RB_REMOVE from both trees
  abbrev pub remove_both : (e : ℕ) → StackSet T stray → StackSet T stray
  remove_both e set = record set {
    stset_rbh = T.remove e set.stset_rbh;
    stset_id_rbh = T.remove e set.stset_id_rbh;
  }

  -- `mprofile_destroy_stack` of the stack at `e`: what is freed, or none if the assertion does not hold
  unfoldable pub destroy_stack : (e : ℕ) → Stacks → Option ℕ
  destroy_stack e objs = if (objs e).mps_flags == mps_flag_managed then some e else none

  abbrev freed_first :
      Option ℕ → Option (List ℕ × StackSet T stray) → Option (List ℕ × StackSet T stray)
  freed_first none rest = none
  freed_first (some e) none = none
  freed_first (some e) (some (freed, set)) = some (e ∷ freed, set)

  -- The loop of `mprofile_destroy_stset`, over the stacks that RB_FOREACH_SAFE visits: the addresses that
  -- are freed, in this order, and the set.
  unfoldable pub destroy_stacks :
      List ℕ → StackSet T stray → Stacks → Option (List ℕ × StackSet T stray)
  unfolding destroy_stack
  destroy_stacks [] set objs = some ([], set)
  destroy_stacks (e ∷ es) set objs =
      freed_first (destroy_stack e objs) (destroy_stacks es (remove_both e set) objs)

  abbrev freed_last : (p : ℕ) → Option (List ℕ × StackSet T stray) → Option (List ℕ)
  freed_last p none = none
  freed_last p (some (freed, set)) = some (freed ++ p ∷ [])

  -- `mprofile_destroy_stset` of the set at `p`, which may be NULL: the addresses that are freed
  unfoldable pub destroy_stset : (p : ℕ) → StackSet T stray → Stacks → Option (List ℕ)
  unfolding destroy_stacks
  destroy_stset p set objs =
      if p == 0 then some [] else freed_last p (destroy_stacks (T.elems set.stset_rbh) set objs)

  module _ {set : StackSet T stray} {objs : Stacks} {m : List ℕ → Option ℕ} {ids : ℕ → Option ℕ}
      (h : Contains T stray set objs m ids) where
    -- a stack is taken off the set
    pub remove_both-Contains :
        (e : ℕ)
        → m (frames_at objs e) ≡ some e
        → Contains T stray
            (remove_both e set)
            objs
            (assign key_compare m (frames_at objs e) none)
            (assign compare ids (id_at objs e) none)
    remove_both-Contains e here = record {
      by_frames_tree =
          remove-Holds key_compare key_compare-IsOrder (frames_at objs) T h.by_frames_tree e here;
      by_id_tree =
          remove-Holds compare compare-IsOrder (id_at objs) T h.by_id_tree e
            (h.has_id (frames_at objs e) e here);
      usable = λ k x there.
          elim (assign-split key_compare key_compare-IsOrder m (frames_at objs e) none k there) [
            | inl (_, bad) ↦ absurd (cc)
            | inr (_, old) ↦ h.usable k x old
          ];
      low = λ i x there.
          elim (assign-split compare compare-IsOrder ids (id_at objs e) none i there) [
            | inl (_, bad) ↦ absurd (cc)
            | inr (_, old) ↦ h.low i x old
          ];
      has_id = λ k x there.
          elim (assign-split key_compare key_compare-IsOrder m (frames_at objs e) none k there) [
            | inl (_, bad) ↦ absurd (cc)
            | inr (apart, old) ↦
                assign_ne compare compare-IsOrder ids (id_at objs e) none (id_at objs x)
                  (λ same. apart (same_frames k x old same))
                ∙ h.has_id k x old
          ];
      has_frames = λ i x there.
          elim (assign-split compare compare-IsOrder ids (id_at objs e) none i there) [
            | inl (_, bad) ↦ absurd (cc)
            | inr (apart, old) ↦
                assign_ne key_compare key_compare-IsOrder m (frames_at objs e) none
                  (frames_at objs x) (λ same. apart (same_id i x old same))
                ∙ h.has_frames i x old
          ];
    }
      where
        -- stacks of the set with the same id have the same frames, and the other way round
        same_frames :
            (k : List ℕ) (x : ℕ) → m k ≡ some x → id_at objs x ≡ id_at objs e → k ≡ frames_at objs e
        same_frames k x old same =
            let it : x ≡ e =
              some-injective _ _
                (sym (h.has_id k x old) ∙ ap ids same ∙ h.has_id (frames_at objs e) e here) in
            Holds-key key_compare key_compare-IsOrder (frames_at objs) T h.by_frames_tree k old
            ∙ ap (frames_at objs) it

        same_id :
            (i x : ℕ) → ids i ≡ some x → frames_at objs x ≡ frames_at objs e → i ≡ id_at objs e
        same_id i x old same =
            let it : x ≡ e = some-injective _ _ (sym (h.has_frames i x old) ∙ ap m same ∙ here) in
            Holds-key compare compare-IsOrder (id_at objs) T h.by_id_tree i old ∙ ap (id_at objs) it

  destroy_stacks-frees :
      (es : List ℕ) (set : StackSet T stray) (objs : Stacks) {m : List ℕ → Option ℕ}
      {ids : ℕ → Option ℕ}
      → Contains T stray set objs m ids
      → T.elems set.stset_rbh ≡ es
      → (after : StackSet T stray) × (destroy_stacks es set objs ≡ some (es, after))
        × (T.elems after.stset_rbh ≡ [])
        × (T.elems after.stset_id_rbh ≡ [])
  unfolding destroy_stacks destroy_stack erase
  destroy_stacks-frees [] set objs {m} {ids} h e =
      let no_ids : (i : ℕ) → ids i ≡ none = λ i. absent i (ids i) refl in
      (set, refl, e, Holds-none compare compare-IsOrder (id_at objs) T h.by_id_tree no_ids)
    where
      absent : (i : ℕ) (o : Option ℕ) → ids i ≡ o → ids i ≡ none
      absent i none it = it
      absent i (some x) it = absurd (
          let bad : none ≡ some x =
            sym (
              Holds-nil key_compare key_compare-IsOrder (frames_at objs) T h.by_frames_tree e
                (frames_at objs x))
            ∙ h.has_frames i x it in
          cc)
  destroy_stacks-frees (x ∷ es) set objs {m} {ids} h e =
      let here =
        Holds-first key_compare key_compare-IsOrder (frames_at objs) T h.by_frames_tree e in
      let (after, ends, empty, empty_ids) =
        destroy_stacks-frees es (remove_both x set) objs (remove_both-Contains h x here)
          (T.elems-remove x set.stset_rbh ∙ rw (e, ==_refl x) refl) in
      (after, rw ((h.usable (frames_at objs x) x here).managed, ends) refl, empty, empty_ids)

  -- After any additions to a new set, with the conditions of `add_all-counts`, `mprofile_destroy_stset`
  -- meets no stack that is not allocated: it frees the stacks of the set, each once, and then the set,
  -- and has taken all stacks off both trees.
  pub add_all-destroy :
      (more : List Addition) (objs : Stacks) (p : ℕ)
      → IsRun more
      → length more + 1 < 2 ^ 32
      → 0 < p
      → (let (set', objs') = add_all T stray more (create_stset T stray) objs in
          (destroy_stset p set' objs' ≡ some (T.elems set'.stset_rbh ++ p ∷ []))
          × NoRepeat (T.elems set'.stset_rbh)
          × (after : StackSet T stray) × (destroy_stacks (T.elems set'.stset_rbh) set' objs'
              ≡ some (T.elems set'.stset_rbh, after))
          × (T.elems after.stset_rbh ≡ [])
          × (T.elems after.stset_id_rbh ≡ []))
  unfolding destroy_stset
  add_all-destroy more objs p run few real =
      let c = from_empty T stray more objs run few in
      let (after, ends, empty, empty_ids) = destroy_stacks-frees _ _ _ c.contains refl in
      (
        rw (==_of_ne p 0 (omega arith), ends) refl,
        Holds-NoRepeat key_compare key_compare-IsOrder
            (frames_at (add_all T stray more (create_stset T stray) objs).1) T
            c.contains.by_frames_tree,
        after,
        ends,
        empty,
        empty_ids,
      )
