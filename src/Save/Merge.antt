-- ===== src/Save/Merge.antt =====
-- mprofile/record.c: `mprofile_save`, up to the output. The records of all profiles go into a tree by
-- their numbers, their stacks into the set of the first profile, and back into one queue.
use ossl_scripts.Base.{
  [], none, some, ◌∷◌, ◌==◌, ℕ, List, Option, Bool, if◌then◌else◌, length, update,
}
use ossl_scripts.Tree.{RbTree}
use ossl_scripts.Stack.{Stray, get_stack_id}
use ossl_scripts.Record.{Chained, Records, record_id_compare, chained, build_chains}
use ossl_scripts.Save.{drain}
use ossl_scripts.Stset.Merge.{Merged, Sets, merge_stack, merged}
use ossl_scripts.Stset.{Stacks, StackSet}
use ossl_scripts.Stset.Destroy.{destroy_stacks}

module _ (T : RbTree) (stray : Stray) where
  -- The memory that the loop works on: the sets of the profiles by address, the stacks, the records,
  -- and `sorter`.
  pub record Saver : Type 0 where
    pub sets : Sets T stray
    pub stacks : Stacks
    pub recs : Records
    pub sorter : T.Head

  -- `aborted` is `abort()`, `failed` an assertion that does not hold
  pub data Sorting : Type 0 where
    sorting : Saver → Sorting
    aborted : Sorting
    failed : Sorting

  abbrev pub and_sort : Sorting → (Saver → Sorting) → Sorting
  and_sort (sorting s) k = k s
  and_sort aborted k = aborted
  and_sort failed k = failed

  -- the record at `r` gets the id of the merged stack
  abbrev relabel : (r : ℕ) → Saver → Merged T stray → Sorting
  relabel r s (merged e sets stacks) = sorting (record s {
    sets = sets;
    stacks = stacks;
    recs = update s.recs r (record (s.recs r) { mpr_stack_id = get_stack_id (some (stacks e)) });
  })
  relabel r s ossl_scripts.Stset.Merge.aborted = aborted
  relabel r s ossl_scripts.Stset.Merge.failed = failed

  -- The stack of the record at `r`, if it has one. `room` says what `malloc` answers, and what an
  -- unset word holds, should the stack have to be copied.
  unfoldable pub merge_record_stack : (room : ℕ → ℕ × ℕ) → (master mp r : ℕ) → Saver → Sorting
  merge_record_stack room master mp r s =
      let id = (s.recs r).mpr_stack_id in
      if id == 0
      then sorting s
      else relabel r s (merge_stack T stray (room r).0 (room r).1 master mp id s.sets s.stacks)

  -- the assertion that `RB_INSERT` has answered NULL
  abbrev pub assert_new : Option ℕ → Saver → (Saver → Sorting) → Sorting
  assert_new none s k = k s
  assert_new (some _) s k = failed

  -- one round of the inner loop, for the record at `r` of the profile at `mp`
  unfoldable pub merge_record : (room : ℕ → ℕ × ℕ) → (master mp r : ℕ) → Saver → Sorting
  unfolding merge_record_stack
  merge_record room master mp r s =
      let result = T.insert (record_id_compare s.recs (s.recs r)) r s.sorter in
      assert_new result.0 (record s { sorter = result.1 }) (merge_record_stack room master mp r)

  -- the inner loop, over the queue of the profile at `mp`
  unfoldable pub merge_records : (room : ℕ → ℕ × ℕ) → (master mp : ℕ) → List ℕ → Saver → Sorting
  merge_records room master mp [] s = sorting s
  merge_records room master mp (r ∷ rs) s =
      and_sort (merge_record room master mp r s) (merge_records room master mp rs)

  abbrev pub destroyed : (mp : ℕ) → Saver → Option (List ℕ × StackSet T stray) → Sorting
  destroyed mp s none = failed
  destroyed mp s (some (freed, set)) = sorting (record s { sets = update s.sets mp set })

  -- `mprofile_destroy` of a profile other than `master`. Its queue is empty by then, and the stacks of
  -- its set are freed; an assertion fails at a stack that is not allocated.
  unfoldable pub destroy_other : (master mp : ℕ) → Saver → Sorting
  unfolding destroy_stacks
  destroy_other master mp s =
      if master == mp
      then sorting s
      else destroyed mp s
          (destroy_stacks T stray (T.elems (s.sets mp).stset_rbh) (s.sets mp) s.stacks)

  -- the outer loop, over the queue of profiles
  unfoldable pub merge_profiles :
      (room : ℕ → ℕ × ℕ) → (queues : ℕ → List ℕ) → (master : ℕ) → List ℕ → Saver → Sorting
  unfolding merge_records destroy_other
  merge_profiles room queues master [] s = sorting s
  merge_profiles room queues master (mp ∷ mps) s =
      and_sort (merge_records room master mp (queues mp) s)
        (λ s. and_sort (destroy_other master mp s) (merge_profiles room queues master mps))

  -- `saved`: the queue of the first profile and the records, and its set of stacks. `crashed`: there
  -- is no profile, and NULL is followed.
  pub data Saved : Type 0 where
    saved : (queue : List ℕ) → Records → Sets T stray → Stacks → Saved
    aborted : Saved
    failed : Saved
    crashed : Saved

  -- what `build_chains` makes of the queue
  abbrev pub chain_saved : (queue : List ℕ) → Sets T stray → Stacks → Chained T → Saved
  chain_saved queue sets stacks (chained recs tree) = saved queue recs sets stacks
  chain_saved queue sets stacks ossl_scripts.Record.aborted = aborted
  chain_saved queue sets stacks ossl_scripts.Record.failed = failed

  unfoldable pub link_saved :
      (link_chains : Bool) → (queue : List ℕ) → Sets T stray → Stacks → Records → Saved
  link_saved link_chains queue sets stacks recs =
      if link_chains
      then chain_saved queue sets stacks (build_chains T queue recs)
      else saved queue recs sets stacks

  -- The end of `mprofile_save`. The tree is emptied in as many rounds as it has records.
  abbrev pub drained : (link_chains : Bool) → Saver → Option (List ℕ) → Saved
  drained link_chains s none = crashed
  drained link_chains s (some queue) = link_saved link_chains queue s.sets s.stacks s.recs

  abbrev pub finish_save : (link_chains : Bool) → Sorting → Saved
  finish_save link_chains (sorting s) =
      drained link_chains s (drain T (length (T.elems s.sorter)) s.sorter [])
  finish_save link_chains ossl_scripts.Save.Merge.Sorting.aborted = aborted
  finish_save link_chains ossl_scripts.Save.Merge.Sorting.failed = failed

  -- `mprofile_save` of the profiles with these queues, without the output; the first one is `master`
  unfoldable pub mprofile_save :
      (room : ℕ → ℕ × ℕ)
      → (queues : ℕ → List ℕ) → (profiles : List ℕ) → (link_chains : Bool) → Sets T stray
      → Stacks
      → Records
      → Saved
  unfolding merge_profiles link_saved
  mprofile_save room queues [] link_chains sets stacks recs = crashed
  mprofile_save room queues (master ∷ mps) link_chains sets stacks recs = finish_save link_chains (
      merge_profiles room queues master (master ∷ mps)
        (record { sets = sets; stacks = stacks; recs = recs; sorter = T.init }))
