-- ===== src/Save/Alone.antt =====
-- `mprofile_save` of mprofile/record.c for the profile of a single thread with call stacks: each stack is merged
-- into the set that it comes from.
use mathlib.Core.List.Perm
use mathlib.Core.List.{Perm, map, perm_middle, append-nil}
use mathlib.Core.Path.{fun_ext, subst, ap, sym}
use ossl_scripts.Save.Merge.{
  Saver, Sorting, sorting, merge_record, merge_records, merge_record_stack, merge_profiles,
  mprofile_save, link_saved, destroy_other, saved, chain_saved,
}
use ossl_scripts.Save.Sorted.{id_of, still_unseen, put-perm}
use ossl_scripts.Stset.Self.{Unmoved, merge_stack-Unmoved}
use ossl_scripts.Stset.Contents.{Contains, Contains-elems, id_at}
use ossl_scripts.Stset.Merge.{Sets, merge_stack}
use ossl_scripts.Stack.{get_stack_id, Stray}
use ossl_scripts.Base.{
  some, inl, inr, refl, ◌≡◌, ◌==◌, ◌<◌, ◌^◌, ℕ, List, Option, update, ◌⊎◌, Bool-cases, ==_iff, [],
  none, ◌∷◌, ◌++◌, true, false, All, ==_refl, ◌∙◌,
}
use ossl_scripts.Tree.{RbTree}
use ossl_scripts.Record.{Records, MprofileRecord, record_id_compare, build_chains}
use ossl_scripts.Stset.{Stacks, StackSet}
use ossl_scripts.Tree.Map.{
  Holds, Holds-init, assign, insert_new-Holds, insert_new-elems, insert_new-none,
}
use ossl_scripts.Tree.Members.{Holds-key}
use Prim.Native.Nat.{compare}
use ossl_scripts.Record.Chains.{NoRepeat}
use ossl_scripts.Tree.Keyed.{IsSorted, compare-IsOrder}
use ossl_scripts.Save.Drain.{drain_lem}

module _ (T : RbTree) (stray : Stray) where
  -- The record has no stack, or one of the set with these ids, which has been counted.
  pub record IsStacked (objs : Stacks) (ids : ℕ → Option ℕ) (r : MprofileRecord) (e : ℕ)
      : Type 0 where
    pub found : ids r.mpr_stack_id ≡ some e
    pub used : 0 < (objs e).mps_count
    pub small : (objs e).mps_count < 2 ^ 32

  abbrev pub HasStack : Stacks → (ids : ℕ → Option ℕ) → MprofileRecord → Type 0
  HasStack objs ids r = (r.mpr_stack_id ≡ 0) ⊎ (e : ℕ) × IsStacked objs ids r e

  -- the set has the same stacks in the same order
  pub record SameSet (set set' : StackSet T stray) : Type 0 where
    pub frames_same : T.elems set'.stset_rbh ≡ T.elems set.stset_rbh
    pub ids_same : T.elems set'.stset_id_rbh ≡ T.elems set.stset_id_rbh
    pub next_same : set'.stset_id ≡ set.stset_id

  same-recs :
      (recs : Records) (r i : ℕ)
      → (recs r).mpr_stack_id ≡ i
      → update recs r (record (recs r) { mpr_stack_id = i }) ≡ recs
  same-recs recs r i e = fun_ext λ j. elim (Bool-cases (r == j)) [
    | inl it ↦ rw it (rw⁻¹ e (ap recs ((==_iff r j).0 it)))
    | inr other ↦ rw other refl
  ]

  -- What the loop over `rs` comes to: the tree has these records more, and the set is as it was.
  record Sorts (master : ℕ) (s : Saver T stray) (rs : List ℕ) (result : Sorting T stray)
      : Type 0 where
    tree : T.Head
    after : Sets T stray
    seen : ℕ → Option ℕ
    ends : result ≡ sorting (record s { sorter = tree; sets = after })
    holds : Holds compare compare-IsOrder (id_of T stray s.recs) T tree seen
    keeps : Perm (T.elems tree) (rs ++ T.elems s.sorter)
    same : SameSet (s.sets master) (after master)

  module _ (room : ℕ → ℕ × ℕ) (master : ℕ) {m : List ℕ → Option ℕ} {ids : ℕ → Option ℕ} where
    -- the stack of one record
    stack-SameSet :
        (r : ℕ) (s : Saver T stray)
        → Contains T stray (s.sets master) s.stacks m ids
        → HasStack s.stacks ids (s.recs r)
        → (sets' : Sets T stray) × (merge_record_stack T stray room master master r s
            ≡ sorting (record s { sets = sets' }))
          × SameSet (s.sets master) (sets' master)
    unfolding merge_record_stack get_stack_id
    stack-SameSet r s h (inl none_yet) =
        (s.sets, rw none_yet refl, record { frames_same = refl; ids_same = refl; next_same = refl })
    stack-SameSet r s h (inr (e, it)) =
        let r_id : ℕ = (s.recs r).mpr_stack_id in
        let its_id : r_id ≡ id_at s.stacks e =
          Holds-key compare compare-IsOrder (id_at s.stacks) T h.by_id_tree r_id it.found in
        let u : Unmoved T stray master s.sets s.stacks e
            (merge_stack T stray (room r).0 (room r).1 master master r_id s.sets s.stacks) =
          subst
            (λ i.
              Unmoved T stray master s.sets s.stacks e
                (merge_stack T stray (room r).0 (room r).1 master master i s.sets s.stacks))
            (sym its_id)
            (merge_stack-Unmoved T stray master s.sets h e (h.has_frames r_id e it.found) (room r).0
              (room r).1 it.used it.small) in
        elim (Bool-cases (r_id == 0)) [
          | inl zero_id ↦ (
            s.sets,
            rw zero_id refl,
            record { frames_same = refl; ids_same = refl; next_same = refl },
          )
          | inr other ↦ (
            u.after,
            rw (other, u.answers)
                (ap (λ (recs : Records). sorting (record s { sets = u.after; recs = recs }))
                  (same-recs s.recs r (id_at s.stacks e) its_id)),
            record { frames_same = u.frames_same; ids_same = u.ids_same; next_same = u.next_same },
          )
        ]

    sort_all :
        (rs : List ℕ) (s : Saver T stray) (mm : ℕ → Option ℕ)
        → Contains T stray (s.sets master) s.stacks m ids
        → All (λ r. HasStack s.stacks ids (s.recs r)) rs
        → Holds compare compare-IsOrder (id_of T stray s.recs) T s.sorter mm
        → All (λ e. mm (id_of T stray s.recs e) ≡ none) rs
        → NoRepeat (map (id_of T stray s.recs) rs)
        → Sorts master s rs (merge_records T stray room master master rs s)
    unfolding merge_records merge_record
    sort_all [] s mm h stacked holds unseen distinct = record {
      tree = s.sorter;
      after = s.sets;
      seen = mm;
      ends = refl;
      holds = holds;
      keeps = Perm.refl (T.elems s.sorter);
      same = record { frames_same = refl; ids_same = refl; next_same = refl };
    }
    sort_all (r ∷ rs) s mm h stacked holds unseen distinct =
        let f : ℕ → ℕ = id_of T stray s.recs in
        let result = T.insert (record_id_compare s.recs (s.recs r)) r s.sorter in
        let s1 : Saver T stray = record s { sorter = result.1 } in
        let (sets', moved, same1) = stack-SameSet r s1 h stacked.0 in
        let rest =
          sort_all rs (record s1 { sets = sets' }) (assign compare mm (f r) (some r))
            (Contains-elems T stray h same1.frames_same same1.ids_same same1.next_same) stacked.1
            (insert_new-Holds compare compare-IsOrder f T holds r unseen.0)
            (still_unseen T stray s.recs mm (f r) r rs distinct.0 unseen.1) distinct.1 in
        let more : Perm (T.elems result.1) (r ∷ T.elems s.sorter) =
          rw (insert_new-elems compare compare-IsOrder f T holds r unseen.0)
            (put-perm _ r (T.elems s.sorter)) in
        record {
          tree = rest.tree;
          after = rest.after;
          seen = rest.seen;
          ends = rw (insert_new-none compare compare-IsOrder f T holds r unseen.0, moved) rest.ends;
          holds = rest.holds;
          keeps =
              Perm.trans rest.keeps
                (Perm.trans (Perm.append_left rs more) (perm_middle rs (T.elems s.sorter)));
          same = record {
            frames_same = rest.same.frames_same ∙ same1.frames_same;
            ids_same = rest.same.ids_same ∙ same1.ids_same;
            next_same = rest.same.next_same ∙ same1.next_same;
          };
        }

  -- What `mprofile_save` comes to, with and without `link_chains`: the queue and the sets of stacks.
  pub record SavesAlone (room : ℕ → ℕ × ℕ) (queues : ℕ → List ℕ) (master : ℕ) (sets : Sets T stray)
      (stacks : Stacks) (recs : Records) : Type 0 where
    pub queue : List ℕ
    pub after : Sets T stray
    pub unlinked :
        mprofile_save T stray room queues (master ∷ []) false sets stacks recs
        ≡ saved queue recs after stacks
    pub linked :
        mprofile_save T stray room queues (master ∷ []) true sets stacks recs
        ≡ chain_saved T stray queue after stacks (build_chains T queue recs)
    pub in_order : IsSorted compare compare-IsOrder (id_of T stray recs) queue
    pub all : Perm queue (queues master)
    pub same : SameSet (sets master) (after master)

  -- There is one profile. Its set holds stacks that are all allocated, filled and not empty, by their
  -- frames and by their ids; its records have distinct numbers, and each has no stack or one of the set
  -- whose count lies between 1 and 2 ^ 32 - 1. Then no assertion of `mprofile_save` fails: the queue has
  -- the records, each once and in order of their numbers, no stack or count changes, and the set has
  -- the same stacks in the same order. Without `link_chains` no record changes, and with it the records
  -- are those that `build_chains` makes of this queue.
  pub mprofile_save-SameSet :
      (room : ℕ → ℕ × ℕ) (queues : ℕ → List ℕ) (master : ℕ) (sets : Sets T stray) (stacks : Stacks)
      (recs : Records) {m : List ℕ → Option ℕ} {ids : ℕ → Option ℕ}
      → Contains T stray (sets master) stacks m ids
      → All (λ r. HasStack stacks ids (recs r)) (queues master)
      → NoRepeat (map (id_of T stray recs) (queues master))
      → SavesAlone room queues master sets stacks recs
  unfolding mprofile_save merge_profiles destroy_other link_saved
  mprofile_save-SameSet room queues master sets stacks recs h stacked distinct =
      let s : Saver T stray = record {
        sets = sets;
        stacks = stacks;
        recs = recs;
        sorter = T.init;
      } in
      let end =
        sort_all room master (queues master) s (λ _. none) h stacked
          (Holds-init compare compare-IsOrder (id_of T stray recs) T) (unseen (queues master))
          distinct in
      record {
        queue = T.elems end.tree;
        after = end.after;
        unlinked = rw (end.ends, ==_refl master, drain_lem T end.tree []) refl;
        linked = rw (end.ends, ==_refl master, drain_lem T end.tree []) refl;
        in_order = end.holds.sorted;
        all =
            subst (Perm (T.elems end.tree))
              (ap (λ l. queues master ++ l) T.elems-init ∙ append-nil (queues master)) end.keeps;
        same = end.same;
      }
    where
      unseen : (xs : List ℕ) → All (λ e. ◌≡◌ {A = Option ℕ} none none) xs
      unseen [] = tt
      unseen (x ∷ xs) = (refl, unseen xs)
