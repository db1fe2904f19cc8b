-- ===== src/Stset/Tests.antt =====
-- Sets of call stacks of mprofile/stack.c, and the theorems at them.
use ossl_scripts.Record.{MprofileRecord, Records, state_alloc}
use ossl_scripts.Save.Alone.{mprofile_save-SameSet, IsStacked, SavesAlone}
use ossl_scripts.Stack.{
  stack_compare, scan, decide_at, word, stack_id_compare, copy_stack, MpsStack, Stray,
  mps_flag_managed,
}
use ossl_scripts.Stset.{
  add_stack, add_found, add_copy, insert_both, count_up, count_down, Stacks, create_stset,
  by_frames, by_id, StackSet,
}
use ossl_scripts.Stset.Merge.{
  merge_stack, merge_found, merge_single, merge_shared, settle_single, settle_move,
  merge_stack_self, Sets, Merged, merged,
}
use ossl_scripts.Base.{
  [], refl, none, ◌⊎◌, ◌∷◌, ◌≡◌, ◌==◌, ◌+◌, ℕ, List, arith, if◌then◌else◌, some, ◌<◌, ◌++◌, sym,
  inr,
}
use ossl_scripts.Tree.Model.{sorted_list}
use ossl_scripts.Stset.Counts.{
  add_all, Addition, IsRun, occurrences, IsGiven, add_all-counts, add_all-ids, from_empty, Counted,
}
use ossl_scripts.Stack.Frames.{frames}
use ossl_scripts.Stset.Contents.{find-by_frames, find-by_id}
use ossl_scripts.Stset.Destroy.{destroy_stset, destroy_stacks, destroy_stack, add_all-destroy}
use ossl_scripts.Record.Chains.{NoRepeat}
use ossl_scripts.Tree.{erase, put}
use ossl_scripts.Stset.Self.{Unmoved, merge_stack-Unmoved}

abbrev no_words : Stray
no_words = record { before = λ _. 0; behind = λ _. 0 }

-- a stack of one frame
abbrev one_frame : (frame id count : ℕ) → MpsStack
one_frame frame id count = record {
  mps_stack_limit = 1;
  mps_id = id;
  mps_stack_depth = 1;
  mps_flags = mps_flag_managed;
  mps_count = count;
  mps_thread = 0;
  mps_stack = frame ∷ 0 ∷ [];
}

abbrev stacks : Stacks
stacks e =
    if e == 11
    then one_frame 10 1 2
    else if e == 21
    then one_frame 10 1 1
    else if e == 22
    then one_frame 20 2 1
    else one_frame 30 3 2

-- The set at 1 has one stack. That at 2 has the same stack, another one, and a third that is used
-- twice.
abbrev two_sets : Sets sorted_list no_words
unfolding sorted_list
two_sets s =
    if s == 1
    then record { stset_id = 2; stset_rbh = 11 ∷ []; stset_id_rbh = 11 ∷ [] }
    else record { stset_id = 4; stset_rbh = 21 ∷ 22 ∷ 23 ∷ []; stset_id_rbh = 21 ∷ 22 ∷ 23 ∷ [] }

-- the ids that the records get when the stacks of the set at 2 are merged into that at 1
merged_ids : (ids : List ℕ) → Sets sorted_list no_words → Stacks → List ℕ
merged_ids [] sets objs = []
merged_ids (i ∷ ids) sets objs =
    go (merged_ids ids) (merge_stack sorted_list no_words (100 + i) 0 1 2 i sets objs)
  where
    go : (Sets sorted_list no_words → Stacks → List ℕ) → Merged sorted_list no_words → List ℕ
    go next (merged e sets objs) = (objs e).mps_id ∷ next sets objs
    go next ossl_scripts.Stset.Merge.aborted = []
    go next ossl_scripts.Stset.Merge.failed = []

-- The second stack keeps its id 2, which the set at 1 then gives to the third one too.
merged_ids_run : merged_ids (1 ∷ 2 ∷ 3 ∷ []) two_sets stacks ≡ 1 ∷ 2 ∷ 2 ∷ []
unfolding merged_ids merge_stack merge_found merge_single merge_shared settle_single settle_move
    add_stack add_found add_copy insert_both count_up count_down copy_stack sorted_list
    stack_compare scan decide_at word stack_id_compare
merged_ids_run = refl

-- three calls with two different stacks of a caller
abbrev given : MpsStack → MpsStack
given m = record m { mps_flags = 0 }

abbrev addition : (at frame : ℕ) → Addition
addition at frame = record { at = at; junk = 0; stack = given (one_frame frame 0 0) }

abbrev three_calls : List Addition
three_calls = addition 31 10 ∷ addition 32 20 ∷ addition 33 10 ∷ []

fresh_one : (at frame : ℕ) → 0 < at → IsGiven (addition at frame)
fresh_one at frame real = record {
  usable = record { filled = omega arith; not_empty = omega arith };
  unmanaged = refl;
  real = real;
}

three_calls-IsRun : IsRun three_calls
unfolding IsRun
three_calls-IsRun = (
  fresh_one 31 10 (omega arith),
  (omega arith, (omega arith, tt)),
  (fresh_one 32 20 (omega arith), (omega arith, tt), (fresh_one 33 10 (omega arith), tt, tt)),
)

add_all-counts_example :
    (let (set, objs) =
        add_all sorted_list no_words three_calls (create_stset sorted_list no_words) stacks in
      ((sorted_list.find (by_frames sorted_list no_words objs (one_frame 10 0 0)) set.stset_rbh
          ≡ none)
        × (occurrences (10 ∷ []) three_calls ≡ 0))
      ⊎ ((e : ℕ) × (sorted_list.find
              (by_frames sorted_list no_words objs (one_frame 10 0 0))
              set.stset_rbh
            ≡ some e)
          × ((objs e).mps_count ≡ occurrences (10 ∷ []) three_calls)
          × (0 < occurrences (10 ∷ []) three_calls)))
add_all-counts_example =
    add_all-counts sorted_list no_words three_calls stacks (one_frame 10 0 0) three_calls-IsRun
      (omega arith) (omega arith)

add_all-ids_example :
    (let (set, objs) =
        add_all sorted_list no_words three_calls (create_stset sorted_list no_words) stacks in
      (frames (objs 31) ≡ 10 ∷ [])
      × ((objs 31).mps_id < set.stset_id)
      × (sorted_list.find (by_id sorted_list no_words objs (objs 31)) set.stset_id_rbh ≡ some 31))
unfolding sorted_list add_all add_stack add_found add_copy insert_both count_up copy_stack
    create_stset stack_compare scan decide_at word stack_id_compare
add_all-ids_example =
    add_all-ids sorted_list no_words three_calls stacks (one_frame 10 0 0) 31 three_calls-IsRun
      (omega arith) (omega arith) refl

add_all-destroy_example :
    (let (set, objs) =
        add_all sorted_list no_words three_calls (create_stset sorted_list no_words) stacks in
      (destroy_stset sorted_list no_words 5 set objs
        ≡ some (sorted_list.elems set.stset_rbh ++ 5 ∷ []))
      × NoRepeat (sorted_list.elems set.stset_rbh)
      × (after : StackSet sorted_list no_words) × (destroy_stacks sorted_list no_words
            (sorted_list.elems set.stset_rbh)
            set
            objs
          ≡ some (sorted_list.elems set.stset_rbh, after))
      × (sorted_list.elems after.stset_rbh ≡ [])
      × (sorted_list.elems after.stset_id_rbh ≡ []))
add_all-destroy_example =
    add_all-destroy sorted_list no_words three_calls stacks 5 three_calls-IsRun (omega arith)
      (omega arith)

-- the set of the three calls has two stacks; these are freed, and then the set
destroy_run :
    (let (set, objs) =
        add_all sorted_list no_words three_calls (create_stset sorted_list no_words) stacks in
      destroy_stset sorted_list no_words 5 set objs)
    ≡ some (31 ∷ 32 ∷ 5 ∷ [])
unfolding destroy_stset destroy_stacks destroy_stack sorted_list add_all add_stack add_found
    add_copy insert_both count_up copy_stack create_stset stack_compare scan decide_at word
    stack_id_compare erase put
destroy_run = refl

abbrev counted : StackSet sorted_list no_words × Stacks
counted = add_all sorted_list no_words three_calls (create_stset sorted_list no_words) stacks

merge_stack-Unmoved_example :
    Unmoved sorted_list no_words 1
      (λ _. counted.0)
      counted.1
      32
      (merge_stack sorted_list no_words 0 0 1 1 2 (λ _. counted.0) counted.1)
unfolding sorted_list add_all add_stack add_found add_copy insert_both count_up copy_stack
    create_stset stack_compare scan decide_at word stack_id_compare
merge_stack-Unmoved_example =
    merge_stack-Unmoved sorted_list no_words 1 (λ _. counted.0)
      (from_empty sorted_list no_words three_calls stacks three_calls-IsRun (omega arith)).contains
      32
      (sym (
        find-by_frames sorted_list no_words
          (from_empty sorted_list no_words three_calls stacks three_calls-IsRun
            (omega arith)).contains
          (counted.1 32) (omega arith)))
      0 0 (omega arith) (omega arith)

-- the records of the three calls, with the ids of their stacks
abbrev three_records : Records
three_records e = record {
  mpr_id = e;
  mpr_mem = 4096 + e;
  mpr_realloc = 0;
  mpr_delta = 16;
  mpr_state = state_alloc;
  mpr_stack_id = if e == 42 then 2 else 1;
  mpr_prev_id = 0;
  mpr_next_id = 0;
  mpr_ts = record { tv_sec = e; tv_nsec = 0 };
}

abbrev run : Counted sorted_list no_words (λ _. 0) three_calls counted.0 counted.1
run = from_empty sorted_list no_words three_calls stacks three_calls-IsRun (omega arith)

first_stack :
    (r : MprofileRecord)
    → r.mpr_stack_id ≡ 1
    → IsStacked sorted_list no_words counted.1 run.ids r 31
unfolding sorted_list add_all add_stack add_found add_copy insert_both count_up copy_stack
    create_stset stack_compare scan decide_at word stack_id_compare
first_stack r e = record {
  found = rw e (sym (find-by_id sorted_list no_words run.contains (one_frame 0 1 0)));
  used = omega arith;
  small = omega arith;
}

second_stack : IsStacked sorted_list no_words counted.1 run.ids (three_records 42) 32
unfolding sorted_list add_all add_stack add_found add_copy insert_both count_up copy_stack
    create_stset stack_compare scan decide_at word stack_id_compare
second_stack = record {
  found = sym (find-by_id sorted_list no_words run.contains (one_frame 0 2 0));
  used = omega arith;
  small = omega arith;
}

mprofile_save-SameSet_example :
    SavesAlone sorted_list no_words
      (λ _. (0, 0))
      (λ _. 41 ∷ 42 ∷ 43 ∷ [])
      5
      (λ _. counted.0)
      counted.1
      three_records
mprofile_save-SameSet_example =
    mprofile_save-SameSet sorted_list no_words (λ _. (0, 0)) (λ _. 41 ∷ 42 ∷ 43 ∷ []) 5
      (λ _. counted.0) counted.1 three_records run.contains
      (
        inr (31, first_stack (three_records 41) refl),
        (inr (32, second_stack), (inr (31, first_stack (three_records 43) refl), tt)),
      )
      (ground arith)
