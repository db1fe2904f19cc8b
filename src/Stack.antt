-- ===== src/Stack.antt =====
-- mprofile/stack.c: one call stack, `struct mprofile_stack`, and the functions that make, fill,
-- copy, walk and compare it.
use Prim.Native.Nat.{Ordering, compare, lt, eq, gt}
use ossl_scripts.Base.{
  ℕ, zero, suc, Option, Bool, take, some, List, if◌then◌else◌, get_or, ltb, ◌∷◌, ◌==◌, set, none,
  ◌++◌, ◌+◌, ◌-◌, [], ◌/◌, ◌*◌, replicate,
}
pub mod Order
pub mod Frames
pub mod Walk
pub mod Compare
pub mod Copy
mod Tests

-- The RB_ENTRY links belong to the sets that a stack is in. `mps_stack` holds the words of the
-- array, those behind the depth included.
pub record MpsStack : Type 0 where
  pub mps_stack_limit : ℕ
  pub mps_id : ℕ
  pub mps_stack_depth : ℕ
  pub mps_flags : ℕ
  pub mps_count : ℕ
  pub mps_thread : ℕ
  pub mps_stack : List ℕ

abbrev pub mps_stack_words : ℕ
mps_stack_words = 64

abbrev pub mps_flag_managed : ℕ
mps_flag_managed = 1

-- `sizeof (mprofile_stack_t)` on a 64-bit machine, and `sizeof (unsigned long long)`
abbrev pub sizeof_stack : ℕ
sizeof_stack = 104

abbrev pub sizeof_word : ℕ
sizeof_word = 8

-- What is read outside an array: the word before its first, and the word behind its last.
pub record Stray : Type 0 where
  pub before : MpsStack → ℕ
  pub behind : MpsStack → ℕ

module _ (stray : Stray) where
  -- `mps->mps_stack[i]` for `i` from 0 on
  unfoldable pub word : MpsStack → ℕ → ℕ
  word m i = get_or m.mps_stack i (stray.behind m)

  -- The `while` of `stack_compare`, with `rounds` frames left before the depth: the index at which
  -- it stops. The comparison of two words stands before the test of the index.
  unfoldable pub scan : (a b : MpsStack) → (rounds i : ℕ) → ℕ
  scan a b zero i = i
  scan a b (suc rounds) i =
      let rest = scan a b rounds (suc i) in if word a i == word b i then rest else i

  -- the words that decide; the index is -1 if both stacks are empty
  unfoldable pub decide_at : (a b : MpsStack) → (i : ℕ) → Ordering
  decide_at a b i =
      if i == b.mps_stack_depth
      then (if i == 0
          then compare (stray.before a) (stray.before b)
          else compare (word a (i - 1)) (word b (i - 1)))
      else compare (word a i) (word b i)

  -- `stack_compare`: -1, 0 and 1 are `lt`, `eq` and `gt`
  unfoldable pub stack_compare : MpsStack → MpsStack → Ordering
  stack_compare a b =
      if ltb a.mps_stack_depth b.mps_stack_depth
      then lt
      else if ltb b.mps_stack_depth a.mps_stack_depth
      then gt
      else decide_at a b (scan a b b.mps_stack_depth 0)

-- `stack_id_compare`
unfoldable pub stack_id_compare : MpsStack → MpsStack → Ordering
stack_id_compare a b =
    if ltb a.mps_id b.mps_id then lt else if ltb b.mps_id a.mps_id then gt else eq

-- `mprofile_init_stack` on a buffer of the caller, of `buf_sz` bytes. `none` is NULL.
pub init_stack : (buf_sz : ℕ) → Option MpsStack
init_stack buf_sz =
    if ltb buf_sz (sizeof_stack + sizeof_word)
    then none
    else some (record {
      mps_stack_limit = (buf_sz - sizeof_stack) / sizeof_word;
      mps_id = 0;
      mps_stack_depth = 0;
      mps_flags = 0;
      mps_count = 0;
      mps_thread = 0;
      mps_stack = replicate ((buf_sz - sizeof_stack) / sizeof_word) 0;
    })

-- The part of `mprofile_init_stack` that allocates (`buf == NULL`): `got` is what `malloc` answers
-- to the request for `sizeof_stack + 64 * 8` bytes. `mps += sizeof (mprofile_stack_t)` counts in
-- whole structures, so the address of the structure, the first part, is far behind the block.
pub init_stack_managed : (got thread : ℕ) → Option (ℕ × MpsStack)
init_stack_managed got thread =
    if got == 0
    then none
    else some (
      got + sizeof_stack * sizeof_stack,
      record {
        mps_stack_limit = mps_stack_words;
        mps_id = 0;
        mps_stack_depth = 0;
        mps_flags = mps_flag_managed;
        mps_count = 0;
        mps_thread = thread;
        mps_stack = replicate mps_stack_words 0;
      },
    )

-- `mprofile_push_frame`; a NULL stack is `none`
pub push_frame : MpsStack → ℕ → MpsStack
push_frame m frame =
    if ltb m.mps_stack_depth m.mps_stack_limit
    then record m {
      mps_stack = set m.mps_stack m.mps_stack_depth frame;
      mps_stack_depth = m.mps_stack_depth + 1;
    }
    else m

-- `collect_backtrace` of mprofile/init.c: the unwinder hands over the frames `fs` one by one.
pub collect_backtrace : MpsStack → List ℕ → MpsStack
collect_backtrace m [] = m
collect_backtrace m (f ∷ fs) = collect_backtrace (push_frame m f) fs

-- `mprofile_copy_stack`: the copy has room for one word more than the depth, which is not set
-- (`junk`). `malloc_ok` says whether `malloc` gave the memory; the id comes from the caller.
unfoldable pub copy_stack : (malloc_ok : Bool) → (junk junk_id : ℕ) → MpsStack → Option MpsStack
copy_stack malloc_ok junk junk_id m =
    if malloc_ok
    then some (record {
      mps_stack_limit = m.mps_stack_depth;
      mps_id = junk_id;
      mps_stack_depth = m.mps_stack_depth;
      mps_flags = mps_flag_managed;
      mps_count = if m.mps_flags == mps_flag_managed then m.mps_count else 1;
      mps_thread = if m.mps_flags == mps_flag_managed then m.mps_thread else 0;
      mps_stack = take m.mps_stack_depth m.mps_stack ++ junk ∷ [];
    })
    else none

-- `mprofile_walk_stack`, with the state that `walk_f` works on
unfoldable pub walk_words : {S : Type 0} → (ℕ → S → S) → List ℕ → S → S
walk_words walk_f [] s = s
walk_words walk_f (w ∷ ws) s = walk_words walk_f ws (walk_f w s)

unfoldable pub walk_stack : {S : Type 0} → MpsStack → (ℕ → S → S) → S → S
unfolding walk_words
walk_stack m walk_f s = walk_words walk_f (take m.mps_stack_depth m.mps_stack) s

-- `mprofile_get_stack_id`, `mprofile_get_stack_count` and `mprofile_get_thread_id`
unfoldable pub get_stack_id : Option MpsStack → ℕ
get_stack_id none = 0
get_stack_id (some m) = m.mps_id

unfoldable pub get_stack_count : Option MpsStack → ℕ
get_stack_count none = 0
get_stack_count (some m) = m.mps_count

unfoldable pub get_thread_id : Option MpsStack → ℕ
get_thread_id none = 0
get_thread_id (some m) = m.mps_thread
