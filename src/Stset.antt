-- ===== src/Stset.antt =====
-- mprofile/stack.c: `struct mprofile_stack_set`, the set of the call stacks of a profile. Stacks
-- stand in a store by address; a set has them in two trees, by frames and by id.
use Prim.Native.Nat.{Ordering}
use ossl_scripts.Base.{none, some, ◌==◌, ◌+◌, ◌-◌, ◌%◌, ◌^◌, ℕ, Option, update, not}
use ossl_scripts.Tree.{RbTree}
pub mod Contents
pub mod Recount
pub mod Adding
pub mod Counts
pub mod Destroy
pub mod Merge
pub mod Self
mod Tests
use ossl_scripts.Stack.{MpsStack, Stray, stack_id_compare, copy_stack, stack_compare}

-- the store of stacks: allocated memory, by address
abbrev pub Stacks : Type 0
Stacks = ℕ → MpsStack

-- `unsigned int`
abbrev pub u32 : ℕ → ℕ
u32 n = n % 2 ^ 32

module _ (T : RbTree) (stray : Stray) where
  pub record StackSet : Type 0 where
    pub stset_id : ℕ
    pub stset_rbh : T.Head
    pub stset_id_rbh : T.Head

  -- `mprofile_create_stset`, given that `malloc` has room
  unfoldable pub create_stset : StackSet
  create_stset = record { stset_id = 1; stset_rbh = T.init; stset_id_rbh = T.init }

  -- the comparison of the stack `new` with the elements of the tree by frames, or by id
  abbrev pub by_frames : Stacks → MpsStack → ℕ → Ordering
  by_frames objs new e = stack_compare stray new (objs e)

  abbrev pub by_id : Stacks → MpsStack → ℕ → Ordering
  by_id objs new e = stack_id_compare new (objs e)

  -- `mps->mps_count++` and `mps->mps_count--` of the stack at `e`
  pub count_up : Stacks → ℕ → Stacks
  count_up objs e = update objs e (record (objs e) { mps_count = u32 ((objs e).mps_count + 1) })

  pub count_down : Stacks → ℕ → Stacks
  count_down objs e =
      update objs e (record (objs e) { mps_count = u32 ((objs e).mps_count + 2 ^ 32 - 1) })

  -- `RB_INSERT` into both trees of the stack at `p`, the answers not read
  pub insert_both : (p : ℕ) → Stacks → StackSet → StackSet
  insert_both p objs set = record set {
    stset_rbh = (T.insert (by_frames objs (objs p)) p set.stset_rbh).1;
    stset_id_rbh = (T.insert (by_id objs (objs p)) p set.stset_id_rbh).1;
  }

  -- The part of `mprofile_add_stack` for a stack that is not in the set; `p` is what `malloc`
  -- answers to `mprofile_copy_stack`, and `copy` the copy.
  pub add_copy : (p : ℕ) → Option MpsStack → StackSet → Stacks → Option ℕ × StackSet × Stacks
  unfolding insert_both
  add_copy p none set objs = (none, set, objs)
  add_copy p (some copy) set objs =
      let objs' = update objs p (record copy { mps_id = set.stset_id }) in
      let set' = record set { stset_id = u32 (set.stset_id + 1) } in
      (some p, insert_both p objs' set', objs')

  -- what `mprofile_add_stack` does with the answer of RB_FIND
  pub add_found :
      (p junk : ℕ) → (new : MpsStack) → StackSet → Stacks → Option ℕ → Option ℕ × StackSet × Stacks
  unfolding count_up add_copy copy_stack
  add_found p junk new set objs (some e) = (some e, set, count_up objs e)
  add_found p junk new set objs none = add_copy p (copy_stack (not (p == 0)) junk junk new) set objs

  -- `mprofile_add_stack`: the stack in the set, or NULL if there is no memory
  pub add_stack : (p junk : ℕ) → (new : MpsStack) → StackSet → Stacks → Option ℕ × StackSet × Stacks
  unfolding add_found
  add_stack p junk new set objs =
      add_found p junk new set objs (T.find (by_frames objs new) set.stset_rbh)
