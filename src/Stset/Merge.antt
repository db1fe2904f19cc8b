-- ===== src/Stset/Merge.antt =====
-- mprofile/stack.c: `mprofile_merge_stack`. The sets stand in a store by address, since
-- `mprofile_save` merges the set of the first profile with itself.
use ossl_scripts.Base.{
  [], none, some, refl, ◌≡◌, ◌==◌, ◌+◌, ◌<◌, ◌^◌, ℕ, Option, arith, update, if◌then◌else◌, ==_of_ne,
  inl, inr, Bool-cases, ==_refl, ==_iff, ◌-◌, ◌∙◌,
}
use ossl_scripts.Tree.{RbTree}
use ossl_scripts.Stack.{MpsStack, Stray}
use ossl_scripts.Stset.{count_up, StackSet, Stacks, add_stack, count_down, by_id, u32, by_frames}
use mathlib.Core.Path.{fun_ext, ap}

-- the sets of stacks, by address
abbrev pub Sets : (T : RbTree) → Stray → Type 0
Sets T stray = ℕ → StackSet T stray

-- `key`: zero in all fields but the id
abbrev pub id_key : (id : ℕ) → MpsStack
id_key id = record {
  mps_stack_limit = 0;
  mps_id = id;
  mps_stack_depth = 0;
  mps_flags = 0;
  mps_count = 0;
  mps_thread = 0;
  mps_stack = [];
}

module _ (T : RbTree) (stray : Stray) where
  -- `aborted` is `abort()`, `failed` an assertion that does not hold
  pub data Merged : Type 0 where
    merged : ℕ → Sets T stray → Stacks → Merged
    aborted : Merged
    failed : Merged

  -- the answer of the second `RB_INSERT` by id
  abbrev settle_id : (e : ℕ) → Sets T stray → Stacks → Option ℕ → Merged
  settle_id e sets objs none = merged e sets objs
  settle_id e sets objs (some _) = failed

  -- The stack at `e` is in the tree of `dst` by frames. `clash` is what `RB_INSERT` by id answered:
  -- a stack with the same id makes it draw a new one.
  unfoldable pub settle_move : (dst e : ℕ) → Sets T stray → Stacks → (clash : Option ℕ) → Merged
  settle_move dst e sets objs none = merged e sets objs
  settle_move dst e sets objs (some _) =
      let set = sets dst in
      let objs' = update objs e (record (objs e) { mps_id = set.stset_id }) in
      let result = T.insert (by_id T stray objs' (objs' e)) e set.stset_id_rbh in
      settle_id e
        (update sets dst
          (record set { stset_id = u32 (set.stset_id + 1); stset_id_rbh = result.1 }))
        objs' result.0

  -- `found` is what `RB_INSERT` by frames answered for the stack at `e`.
  unfoldable pub settle_single : (dst e : ℕ) → Sets T stray → Stacks → (found : Option ℕ) → Merged
  unfolding settle_move
  settle_single dst e sets objs none =
      let set = sets dst in
      let result = T.insert (by_id T stray objs (objs e)) e set.stset_id_rbh in
      settle_move dst e (update sets dst (record set { stset_id_rbh = result.1 })) objs result.0
  settle_single dst e sets objs (some same) = merged same sets (count_up T stray objs same)

  -- a stack that is used once is moved
  unfoldable pub merge_single : (dst src e : ℕ) → Sets T stray → Stacks → Merged
  unfolding settle_single
  merge_single dst src e sets objs =
      let from = sets src in
      let sets' = update sets src (record from {
        stset_rbh = T.remove e from.stset_rbh;
        stset_id_rbh = T.remove e from.stset_id_rbh;
      }) in
      let set = sets' dst in
      let result = T.insert (by_frames T stray objs (objs e)) e set.stset_rbh in
      settle_single dst e (update sets' dst (record set { stset_rbh = result.1 })) objs result.0

  -- the end of the branch of a copy, with what `mprofile_add_stack` answers
  abbrev settle_copy : (dst e : ℕ) → Sets T stray → Option ℕ × StackSet T stray × Stacks → Merged
  settle_copy dst e sets (none, _, _) = aborted
  settle_copy dst e sets (some new, set, objs) =
      merged new (update sets dst set) (count_down T stray objs e)

  -- a stack that is used more than once is counted in `dst`, or copied there
  unfoldable pub merge_shared :
      (p junk : ℕ) → (dst e : ℕ) → Sets T stray → Stacks → (found : Option ℕ) → Merged
  merge_shared p junk dst e sets objs none =
      settle_copy dst e sets (add_stack T stray p junk (objs e) (sets dst) objs)
  merge_shared p junk dst e sets objs (some same) =
      merged same sets (count_down T stray (count_up T stray objs same) e)

  -- what `mprofile_merge_stack` does with the stack that it finds in `src`
  unfoldable pub merge_found :
      (p junk : ℕ) → (dst src : ℕ) → Sets T stray → Stacks → (old : Option ℕ) → Merged
  unfolding merge_single merge_shared
  merge_found p junk dst src sets objs none = failed
  merge_found p junk dst src sets objs (some e) =
      if (objs e).mps_count == 1
      then merge_single dst src e sets objs
      else merge_shared p junk dst e sets objs
          (T.find (by_frames T stray objs (objs e)) (sets dst).stset_rbh)

  -- `mprofile_merge_stack` of the sets at `dst` and `src`; `p` and `junk` as in `add_stack`
  unfoldable pub merge_stack :
      (p junk : ℕ) → (dst src stack_id : ℕ) → Sets T stray → Stacks → Merged
  unfolding merge_found
  merge_stack p junk dst src stack_id sets objs =
      merge_found p junk dst src sets objs
        (T.find (by_id T stray objs (id_key stack_id)) (sets src).stset_id_rbh)

  counted_back :
      (objs : Stacks) (e : ℕ)
      → (objs e).mps_count < 2 ^ 32
      → count_down T stray (count_up T stray objs e) e ≡ objs
  unfolding count_up count_down
  counted_back objs e small = fun_ext λ j. elim (Bool-cases (e == j)) [
    | inl same ↦
        let n : ℕ = (objs e).mps_count in
        let back : u32 (u32 (n + 1) + 2 ^ 32 - 1) ≡ n = omega arith in
        rw (same, ==_refl e)
          (ap (λ (c : ℕ). record (objs e) { mps_count = c }) back ∙ ap objs ((==_iff e j).0 same))
    | inr other ↦ rw (other) refl
  ]

  -- Merging a set with itself, as is done with the set of the first profile, leaves a stack that is
  -- used more than once as it was: nothing is copied and no count changes.
  pub merge_stack_self :
      (p junk s stack_id e : ℕ) (sets : Sets T stray) (objs : Stacks)
      → T.find (by_id T stray objs (id_key stack_id)) (sets s).stset_id_rbh ≡ some e
      → T.find (by_frames T stray objs (objs e)) (sets s).stset_rbh ≡ some e
      → 1 < (objs e).mps_count
      → (objs e).mps_count < 2 ^ 32
      → merge_stack p junk s s stack_id sets objs ≡ merged e sets objs
  unfolding merge_stack merge_found merge_shared
  merge_stack_self p junk s stack_id e sets objs by_its_id by_its_frames many small =
      rw
        (
          merge_stack,
          by_its_id,
          ==_of_ne (objs e).mps_count 1 (omega (arith, many)),
          by_its_frames,
          counted_back objs e small,
        )
        refl
