-- ===== src/Stset/Self.antt =====
-- `mprofile_merge_stack` of mprofile/stack.c with the same set as source and destination, as `mprofile_save`
-- calls it for the first profile.
use ossl_scripts.Stset.Merge.{
  Sets, Merged, merged, merge_stack, merge_found, merge_single, settle_single, settle_move,
  merge_stack_self, id_key,
}
use ossl_scripts.Stset.Destroy.{remove_both, remove_both-Contains}
use ossl_scripts.Stset.Contents.{
  Contains, frames_at, id_at, key_compare-IsOrder, by_frames-ComparesAs, by_id-ComparesAs,
  find-by_id, find-by_frames,
}
use ossl_scripts.Tree.Agree.{insert_new-agrees}
use ossl_scripts.Tree.Members.{same-elems}
use ossl_scripts.Base.{
  none, some, inl, inr, refl, ◌≡◌, ℕ, List, Option, ◌∙◌, Ordering-cases, sym, ap, update, ◌==◌, ◌<◌,
  ◌^◌, arith, update_self, Bool-cases,
}
use Prim.Native.Nat.{Ordering, compare}
use ossl_scripts.Tree.{RbTree}
use ossl_scripts.Tree.Keyed.{IsOrder, compare-IsOrder}
use ossl_scripts.Stack.{Stray}
use ossl_scripts.Tree.Map.{Holds, assign, assign_self}
use ossl_scripts.Stset.{Stacks, StackSet, by_frames, by_id}
use ossl_scripts.Stack.Order.{key_compare}

module _ {ℓ} {K : Type ℓ} (cmp : K → K → Ordering) (ord : IsOrder cmp) (key : ℕ → K)
    (T : RbTree) where
  -- a map that has lost a key and got it again
  restored :
      (m : K → Option ℕ) (k : K) (e : ℕ)
      → m k ≡ some e
      → (j : K) → assign cmp (assign cmp m k none) k (some e) j ≡ m j
  restored m k e here j = elim (Ordering-cases (cmp j k)) [
    | inl less ↦ rw less refl
    | inr (inl same) ↦ rw same (sym (ap m ((ord.eq_iff j k).0 same) ∙ here))
    | inr (inr more) ↦ rw more refl
  ]

  -- so the tree has the elements that it had
  pub restored-elems :
      {t t' : T.Head} {m : K → Option ℕ} (k : K) (e : ℕ)
      → m k ≡ some e
      → Holds cmp ord key T t m
      → Holds cmp ord key T t' (assign cmp (assign cmp m k none) k (some e))
      → T.elems t' ≡ T.elems t
  restored-elems {t} {t'} {m} k e here h h' =
      same-elems cmp ord key (T.elems t') (T.elems t) h'.sorted h.sorted
        (λ j. h'.maps j ∙ restored m k e here j ∙ sym (h.maps j))

-- What a merge of the set at `s` with itself leaves: the stack is answered, and the stacks stand at their places
-- in both trees.
pub record Unmoved (T : RbTree) (stray : Stray) (s : ℕ) (sets : Sets T stray) (objs : Stacks)
    (e : ℕ) (result : Merged T stray) : Type 0 where
  pub after : Sets T stray
  pub answers : result ≡ merged e after objs
  pub frames_same : T.elems (after s).stset_rbh ≡ T.elems (sets s).stset_rbh
  pub ids_same : T.elems (after s).stset_id_rbh ≡ T.elems (sets s).stset_id_rbh
  pub next_same : (after s).stset_id ≡ (sets s).stset_id

module _ (T : RbTree) (stray : Stray) (s : ℕ) (sets : Sets T stray) {objs : Stacks}
    {m : List ℕ → Option ℕ} {ids : ℕ → Option ℕ} (h : Contains T stray (sets s) objs m ids) (e : ℕ)
    (here : m (frames_at objs e) ≡ some e) where
  abbrev lost : StackSet T stray
  lost = remove_both T stray e (sets s)

  lost-Contains :
      Contains T stray lost objs
        (assign key_compare m (frames_at objs e) none)
        (assign compare ids (id_at objs e) none)
  lost-Contains = remove_both-Contains T stray h e here

  abbrev by_frames_again : Option ℕ × T.Head
  by_frames_again = T.insert (by_frames T stray objs (objs e)) e lost.stset_rbh

  abbrev by_id_again : Option ℕ × T.Head
  by_id_again = T.insert (by_id T stray objs (objs e)) e lost.stset_id_rbh

  frames_back :
      (by_frames_again.0 ≡ none) × (T.elems by_frames_again.1 ≡ T.elems (sets s).stset_rbh)
  frames_back =
      let (answer, elems, holds) =
        insert_new-agrees key_compare key_compare-IsOrder T (frames_at objs)
          (by_frames T stray objs (objs e)) e lost-Contains.by_frames_tree
          (by_frames-ComparesAs T stray lost-Contains (objs e)
            (h.usable (frames_at objs e) e here).filled)
          (assign_self key_compare key_compare-IsOrder m (frames_at objs e) none) in
      (
        answer,
        restored-elems key_compare key_compare-IsOrder (frames_at objs) T (frames_at objs e) e here
            h.by_frames_tree holds,
      )

  id_back : (by_id_again.0 ≡ none) × (T.elems by_id_again.1 ≡ T.elems (sets s).stset_id_rbh)
  id_back =
      let (answer, elems, holds) =
        insert_new-agrees compare compare-IsOrder T (id_at objs) (by_id T stray objs (objs e)) e
          lost-Contains.by_id_tree (by_id-ComparesAs T stray lost-Contains (objs e))
          (assign_self compare compare-IsOrder ids (id_at objs e) none) in
      (
        answer,
        restored-elems compare compare-IsOrder (id_at objs) T (id_at objs e) e
            (h.has_id (frames_at objs e) e here) h.by_id_tree holds,
      )

  -- the sets behind each change
  abbrev first : Sets T stray
  first = update sets s lost

  abbrev second : Sets T stray
  second = update first s (record (first s) {
    stset_rbh = (T.insert (by_frames T stray objs (objs e)) e (first s).stset_rbh).1;
  })

  abbrev third : Sets T stray
  third = update second s (record (second s) {
    stset_id_rbh = (T.insert (by_id T stray objs (objs e)) e (second s).stset_id_rbh).1;
  })

  abbrev framed : StackSet T stray
  framed = record lost { stset_rbh = by_frames_again.1 }

  abbrev whole : StackSet T stray
  whole = record framed { stset_id_rbh = by_id_again.1 }

  at_first : first s ≡ lost
  at_first = update_self sets s lost

  at_second : second s ≡ framed
  at_second =
      update_self first s _
      ∙ ap
          (λ (set : StackSet T stray). record set {
            stset_rbh = (T.insert (by_frames T stray objs (objs e)) e set.stset_rbh).1;
          })
          at_first

  at_third : third s ≡ whole
  at_third =
      update_self second s _
      ∙ ap
          (λ (set : StackSet T stray). record set {
            stset_id_rbh = (T.insert (by_id T stray objs (objs e)) e set.stset_id_rbh).1;
          })
          at_second

  no_frames : (T.insert (by_frames T stray objs (objs e)) e (first s).stset_rbh).0 ≡ none
  no_frames =
      ap
        (λ (set : StackSet T stray). (T.insert (by_frames T stray objs (objs e)) e set.stset_rbh).0)
        at_first
      ∙ frames_back.0

  no_id : (T.insert (by_id T stray objs (objs e)) e (second s).stset_id_rbh).0 ≡ none
  no_id =
      ap (λ (set : StackSet T stray). (T.insert (by_id T stray objs (objs e)) e set.stset_id_rbh).0)
        at_second
      ∙ id_back.0

  single-Unmoved : Unmoved T stray s sets objs e (merge_single T stray s s e sets objs)
  unfolding merge_single settle_single settle_move
  single-Unmoved = record {
    after = third;
    answers =
        ap (settle_single T stray s e second objs) no_frames
        ∙ ap (settle_move T stray s e third objs) no_id;
    frames_same = ap (λ (set : StackSet T stray). T.elems set.stset_rbh) at_third ∙ frames_back.1;
    ids_same = ap (λ (set : StackSet T stray). T.elems set.stset_id_rbh) at_third ∙ id_back.1;
    next_same = ap StackSet.stset_id at_third;
  }

  -- The set at `s` holds stacks that are all allocated, filled and not empty, by their frames and by
  -- their ids; `e` is one of them, and its count lies between 1 and 2 ^ 32 - 1. Then a merge of the set
  -- with itself, for the id of `e`, answers `e`, and leaves the stacks, their counts and the elements of
  -- both trees as they were, whether the stack is used once, and taken off and put back, or more often.
  pub merge_stack-Unmoved :
      (p junk : ℕ)
      → 0 < (objs e).mps_count
      → (objs e).mps_count < 2 ^ 32
      → Unmoved T stray s sets objs e (merge_stack T stray p junk s s (id_at objs e) sets objs)
  unfolding merge_stack merge_found
  merge_stack-Unmoved p junk used small = elim (Bool-cases ((objs e).mps_count == 1)) [
    | inl once ↦ rw (merge_stack, by_its_id, once) single-Unmoved
    | inr more ↦
        rw
          (merge_stack_self T stray p junk s (id_at objs e) e sets objs by_its_id
            (find-by_frames T stray h (objs e) (h.usable (frames_at objs e) e here).filled ∙ here)
            (ground (arith, more, used)) small)
          (record {
            after = sets;
            answers = refl;
            frames_same = refl;
            ids_same = refl;
            next_same = refl;
          })
  ]
    where
      by_its_id : T.find (by_id T stray objs (id_key (id_at objs e))) (sets s).stset_id_rbh ≡ some e
      by_its_id = find-by_id T stray h (id_key (id_at objs e)) ∙ h.has_id (frames_at objs e) e here
