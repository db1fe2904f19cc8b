-- ===== src/Profile.antt =====
-- mprofile/record.c: `struct mprofile`, and the functions that append a record to a profile. A
-- profile's tail queue is the list of its records' addresses.
pub mod Log
pub mod Destroy
use mathlib.Core.Option
use ossl_scripts.Base.{[], none, some, ◌∷◌, ◌==◌, ◌++◌, ◌+◌, ℕ, List, Option, if◌then◌else◌, update}
use ossl_scripts.Words.{◌-w◌, u64}
use ossl_scripts.Tree.{RbTree}
use ossl_scripts.Stack.{Stray, MpsStack, get_stack_id}
use ossl_scripts.Stset.{create_stset, StackSet, Stacks, add_stack}
use ossl_scripts.Stats.{Timespec}
use ossl_scripts.Record.{Records, MprofileRecord, state_realloc, state_free, state_alloc}

module _ (T : RbTree) (stray : Stray) where
  pub record Mprofile : Type 0 where
    pub mp_tqhead : List ℕ
    pub mp_stset : StackSet T stray

  -- The memory that the profiler allocates, and the number of the last record.
  pub record Store : Type 0 where
    pub recs : Records
    pub stacks : Stacks
    pub mpr_id : ℕ

  -- `mprofile_create`, given that `malloc` has room
  unfoldable pub create_mprofile : Mprofile
  create_mprofile = record { mp_tqhead = []; mp_stset = create_stset T stray }

  -- What `malloc` and the clock answer to one `mprofile_record_*`: the addresses of the record and
  -- of a new stack, what an unset word holds, and the time.
  pub record Answers : Type 0 where
    pub rec : ℕ
    pub stack : ℕ
    pub junk : ℕ
    pub now : Timespec

  -- `create_mprofile_record`: the time, and zero in all other fields
  abbrev pub blank : Timespec → MprofileRecord
  blank now = record {
    mpr_id = 0;
    mpr_mem = 0;
    mpr_realloc = 0;
    mpr_delta = 0;
    mpr_state = 0;
    mpr_stack_id = 0;
    mpr_prev_id = 0;
    mpr_next_id = 0;
    mpr_ts = now;
  }

  -- The end of each `mprofile_record_*`: the record gets the next number and goes to the end of the
  -- queue, the stack goes into the set, and its id into the record.
  unfoldable pub append_record :
      Answers → MprofileRecord → Option MpsStack → Mprofile → Store → Mprofile × Store
  append_record a r none mp st =
      let id = u64 (st.mpr_id + 1) in
      (
        record mp { mp_tqhead = mp.mp_tqhead ++ a.rec ∷ [] },
        record st {
          recs = update st.recs a.rec (record r { mpr_id = id; mpr_stack_id = 0 });
          mpr_id = id;
        },
      )
  append_record a r (some mps) mp st =
      let id = u64 (st.mpr_id + 1) in
      let (found, set, stacks) = add_stack T stray a.stack a.junk mps mp.mp_stset st.stacks in
      (
        record { mp_tqhead = mp.mp_tqhead ++ a.rec ∷ []; mp_stset = set },
        record {
          recs =
              update st.recs a.rec
                (record r { mpr_id = id; mpr_stack_id = get_stack_id (Option.map stacks found) });
          stacks = stacks;
          mpr_id = id;
        },
      )

  -- if there is no memory for the record, nothing is recorded
  unfoldable pub record_event :
      Answers → MprofileRecord → Option MpsStack → Mprofile → Store → Mprofile × Store
  unfolding append_record
  record_event a r mps mp st = if a.rec == 0 then (mp, st) else append_record a r mps mp st

  -- `mprofile_record_alloc`
  unfoldable pub record_alloc :
      Answers → (buf buf_sz : ℕ) → Option MpsStack → Mprofile → Store → Mprofile × Store
  record_alloc a buf buf_sz =
      record_event a
        (record (blank a.now) { mpr_mem = buf; mpr_delta = buf_sz; mpr_state = state_alloc })

  -- `mprofile_record_free`; `sz * -1` modulo the width
  unfoldable pub record_free :
      Answers → (buf sz : ℕ) → Option MpsStack → Mprofile → Store → Mprofile × Store
  record_free a buf sz =
      record_event a
        (record (blank a.now) { mpr_mem = buf; mpr_delta = 0 -w sz; mpr_state = state_free })

  -- `mprofile_record_realloc`
  unfoldable pub record_realloc :
      Answers
      → (buf buf_sz orig_sz old_buf : ℕ) → Option MpsStack
      → Mprofile
      → Store
      → Mprofile × Store
  record_realloc a buf buf_sz orig_sz old_buf = record_event a (record (blank a.now) {
    mpr_mem = buf;
    mpr_delta = buf_sz -w orig_sz;
    mpr_realloc = old_buf;
    mpr_state = state_realloc;
  })
