-- ===== src/Stset/Adding.antt =====
-- `mprofile_add_stack` of mprofile/stack.c for a stack that the set does not have yet, and for any stack.
use ossl_scripts.Base.{
  some, inl, inr, refl, ◌≡◌, ◌+◌, ℕ, List, Option, ◌≢◌, Ordering-cases, ◌==◌, ◌<◌, ◌^◌, arith, sym,
  ◌∙◌, none, update, ap, ==_of_ne, true, false, update_self, update_ne,
}
use ossl_scripts.Tree.{RbTree}
use ossl_scripts.Stack.{Stray, MpsStack, mps_flag_managed, copy_stack}
use ossl_scripts.Stset.Contents.{
  hits, key_compare-IsOrder, Contains, uses, IsUsable, Contains-same, frames_at, id_at,
  by_frames-ComparesAs, by_id-ComparesAs, find-by_frames, IsStored,
}
use ossl_scripts.Stset.{
  Stacks, StackSet, insert_both, u32, by_frames, by_id, add_stack, add_found, add_copy,
}
use ossl_scripts.Stack.Order.{key_compare}
use ossl_scripts.Stack.Frames.{frames}
use Prim.Native.Nat.{compare}
use mathlib.Core.Path.{subst}
use ossl_scripts.Tree.Map.{assign, Holds, assign-split, assign_self, assign_ne}
use ossl_scripts.Tree.Agree.{insert_new-agrees}
use ossl_scripts.Tree.Keyed.{compare-IsOrder}
use mathlib.Core.Option.{some-injective}
use ossl_scripts.Stack.Copy.{copy_stack_lem}
use ossl_scripts.Stset.Recount.{Added, add_known}

module _ (T : RbTree) (stray : Stray) where
  module _ {set : StackSet T stray} {objs : Stacks} {m : List ℕ → Option ℕ} {ids : ℕ → Option ℕ}
      (h : Contains T stray set objs m ids) (new : MpsStack) (usable : IsUsable new) where
    module _ (p : ℕ) (absent : m (frames new) ≡ none) (fresh : (k : List ℕ) → m k ≢ some p)
        (room : set.stset_id + 1 < 2 ^ 32) (copy : MpsStack)
        (same_frames : frames copy ≡ frames new) (ready : IsStored copy) where
      abbrev stored : Stacks
      stored = update objs p (record copy { mps_id = set.stset_id })

      abbrev has_new : List ℕ → Option ℕ
      has_new = assign key_compare m (frames new) (some p)

      abbrev ids_new : ℕ → Option ℕ
      ids_new = assign compare ids set.stset_id (some p)

      -- the stacks of the set stand elsewhere
      elsewhere : (k : List ℕ) (e : ℕ) → m k ≡ some e → stored e ≡ objs e
      elsewhere k e there = update_ne objs p _ e (λ it. fresh k (there ∙ ap some (sym it)))

      stored-Contains : Contains T stray set stored m ids
      stored-Contains = Contains-same T stray h stored (λ e there.
          let it = elsewhere (frames_at objs e) e there in
          (ap frames it, ap MpsStack.mps_id it, subst IsStored (sym it)))

      key_lem : frames_at stored p ≡ frames new
      key_lem = ap frames (update_self objs p _) ∙ same_frames

      id_lem : id_at stored p ≡ set.stset_id
      id_lem = ap MpsStack.mps_id (update_self objs p _)

      stored-IsStored : IsStored (stored p)
      stored-IsStored =
          subst IsStored (sym (update_self objs p _))
            (record { filled = ready.filled; not_empty = ready.not_empty; managed = ready.managed })

      id_absent : ids set.stset_id ≡ none
      id_absent = go (ids set.stset_id) refl
        where
          go : (o : Option ℕ) → ids set.stset_id ≡ o → ids set.stset_id ≡ none
          go none e = e
          go (some x) e =
              absurd (let bad : set.stset_id < set.stset_id = h.low set.stset_id x e in omega arith)

      abbrev grown : StackSet T stray
      grown = insert_both T stray p stored (record set { stset_id = u32 (set.stset_id + 1) })

      add_new-Contains : Contains T stray grown stored has_new ids_new
      unfolding insert_both
      add_new-Contains = record {
        by_frames_tree =
            subst
              (λ k.
                Holds key_compare key_compare-IsOrder (frames_at stored) T
                  (T.insert (by_frames T stray stored (stored p)) p set.stset_rbh).1
                  (assign key_compare m k (some p)))
              key_lem
              (insert_new-agrees key_compare key_compare-IsOrder T (frames_at stored)
                (by_frames T stray stored (stored p)) p stored-Contains.by_frames_tree
                (by_frames-ComparesAs T stray stored-Contains (stored p) stored-IsStored.filled)
                (ap m key_lem ∙ absent)).2;
        by_id_tree =
            subst
              (λ i.
                Holds compare compare-IsOrder (id_at stored) T
                  (T.insert (by_id T stray stored (stored p)) p set.stset_id_rbh).1
                  (assign compare ids i (some p)))
              id_lem
              (insert_new-agrees compare compare-IsOrder T (id_at stored)
                (by_id T stray stored (stored p)) p stored-Contains.by_id_tree
                (by_id-ComparesAs T stray stored-Contains (stored p))
                (ap ids id_lem ∙ id_absent)).2;
        usable = λ k e here.
            elim (assign-split key_compare key_compare-IsOrder m (frames new) (some p) k here) [
              | inl (_, it) ↦
                  subst (λ e. IsStored (stored e)) (some-injective _ _ it) stored-IsStored
              | inr (_, old) ↦ stored-Contains.usable k e old
            ];
        low = λ i e here.
            elim (assign-split compare compare-IsOrder ids set.stset_id (some p) i here) [
              | inl (it, _) ↦ omega (arith, it)
              | inr (_, old) ↦ let less : i < set.stset_id = h.low i e old in omega (arith, less)
            ];
        has_id = λ k e here.
            elim (assign-split key_compare key_compare-IsOrder m (frames new) (some p) k here) [
              | inl (_, it) ↦
                  subst (λ e. ids_new (id_at stored e) ≡ some e) (some-injective _ _ it)
                    (ap ids_new id_lem
                      ∙ assign_self compare compare-IsOrder ids set.stset_id (some p))
              | inr (_, old) ↦
                  let there : ids (id_at stored e) ≡ some e = stored-Contains.has_id k e old in
                  assign_ne compare compare-IsOrder ids set.stset_id (some p) (id_at stored e)
                    (λ it. let bad : none ≡ some e = sym id_absent ∙ ap ids (sym it) ∙ there in cc)
                  ∙ there
            ];
        has_frames = λ i e here.
            elim (assign-split compare compare-IsOrder ids set.stset_id (some p) i here) [
              | inl (_, it) ↦
                  subst (λ e. has_new (frames_at stored e) ≡ some e) (some-injective _ _ it)
                    (ap has_new key_lem
                      ∙ assign_self key_compare key_compare-IsOrder m (frames new) (some p))
              | inr (_, old) ↦
                  let there : m (frames_at stored e) ≡ some e =
                    stored-Contains.has_frames i e old in
                  assign_ne key_compare key_compare-IsOrder m (frames new) (some p)
                    (frames_at stored e)
                    (λ it. let bad : none ≡ some e = sym absent ∙ ap m (sym it) ∙ there in cc)
                  ∙ there
            ];
      }

      counts_new :
          copy.mps_count ≡ 1
          → (k : List ℕ) → uses stored (has_new k) ≡ uses objs (m k) + hits k (frames new)
      counts_new once k = elim (Ordering-cases (key_compare k (frames new))) [
        | inl less ↦ rw (less, uses, hits) (old (m k) refl)
        | inr (inl same) ↦
            rw (same, uses, hits)
              (ap MpsStack.mps_count (update_self objs p _)
                ∙ once
                ∙ sym (
                    ap (λ o. uses objs o + 1)
                      (ap m ((key_compare-IsOrder.eq_iff k (frames new)).0 same) ∙ absent)))
        | inr (inr more) ↦ rw (more, uses, hits) (old (m k) refl)
      ]
        where
          old : (o : Option ℕ) → m k ≡ o → uses stored o ≡ uses objs o + 0
          old none e = refl
          old (some x) e = ap MpsStack.mps_count (elsewhere k x e) ∙ omega arith

    module _ (p junk : ℕ) (unmanaged : (new.mps_flags == mps_flag_managed) ≡ false) (real : 0 < p)
        (fresh : (k : List ℕ) → m k ≢ some p) (room : set.stset_id + 1 < 2 ^ 32)
        (small : uses objs (m (frames new)) + 1 < 2 ^ 32) where
      absent_case :
          (absent : m (frames new) ≡ none) (o : Option MpsStack)
          → copy_stack true junk junk new ≡ o
          → Added T stray new m objs set.stset_id p (add_copy T stray p o set objs)
      unfolding add_copy copy_stack
      absent_case absent none e = absurd (cc)
      absent_case absent (some copy) e =
          let (same, filled, _, flagged, counted) =
            copy_stack_lem junk junk new copy usable.filled e in
          let deep : copy.mps_stack_depth ≡ new.mps_stack_depth =
            ap MpsStack.mps_stack_depth (some-injective _ _ (sym e)) in
          let ready : IsStored copy = record {
            filled = filled;
            not_empty = omega (arith, deep, usable.not_empty);
            managed = rw flagged refl;
          } in
          record {
            at = p;
            answers = refl;
            has = assign key_compare m (frames new) (some p);
            ids = assign compare ids set.stset_id (some p);
            contains = add_new-Contains p absent fresh room copy same ready;
            here = assign_self key_compare key_compare-IsOrder m (frames new) (some p);
            counts = counts_new p absent fresh room copy same ready (rw unmanaged at counted);
            from = λ k e here.
                elim (assign-split key_compare key_compare-IsOrder m (frames new) (some p) k here) [
                  | inl (same, it) ↦ inr (sym (some-injective _ _ it), same)
                  | inr (_, old) ↦ inl old
                ];
            next_id = omega arith;
          }

      found_case :
          (o : Option ℕ)
          → m (frames new) ≡ o
          → Added T stray new m objs set.stset_id p (add_found T stray p junk new set objs o)
      unfolding add_found
      found_case (some e0) known = add_known T stray h new usable p e0 known small
      found_case none absent =
          rw (==_of_ne p 0 (omega arith)) (absent_case absent (copy_stack true junk junk new) refl)

      -- what `mprofile_add_stack` does to a set
      pub add_stack-Added :
          Added T stray new m objs set.stset_id p (add_stack T stray p junk new set objs)
      unfolding add_stack
      add_stack-Added =
          rw (find-by_frames T stray h new usable.filled) (found_case (m (frames new)) refl)
