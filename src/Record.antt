-- ===== src/Record.antt =====
-- mprofile/record.c: `struct mprofile_record`, and `build_chains`, which links the records of one
-- buffer. Records stand in a store by address; a profile is the list of its records' addresses.
use Prim.Native.Nat.{Ordering, compare}
use ossl_scripts.Base.{[], none, some, ◌∷◌, ◌==◌, ℕ, List, if◌then◌else◌, not, update, Option}
use ossl_scripts.Stats.{Timespec}
use ossl_scripts.Tree.{RbTree}
pub mod History
pub mod Chains
pub mod Close
pub mod Link
pub mod Build
mod Tests

pub record MprofileRecord : Type 0 where
  pub mpr_id : ℕ
  pub mpr_mem : ℕ
  pub mpr_realloc : ℕ
  pub mpr_delta : ℕ  -- ssize_t, as its 64-bit pattern
  pub mpr_state : ℕ
  pub mpr_stack_id : ℕ
  pub mpr_prev_id : ℕ
  pub mpr_next_id : ℕ
  pub mpr_ts : Timespec

-- the values of `mpr_state`
abbrev pub state_alloc : ℕ
state_alloc = 1

abbrev pub state_free : ℕ
state_free = 2

abbrev pub state_realloc : ℕ
state_realloc = 3

abbrev pub Records : Type 0
Records = ℕ → MprofileRecord

-- `record_id_compare` and `record_mem_compare`, of the record `a` with that at `e`
abbrev pub record_id_compare : Records → MprofileRecord → ℕ → Ordering
record_id_compare recs a e = compare a.mpr_id (recs e).mpr_id

abbrev pub record_mem_compare : Records → (mem : ℕ) → ℕ → Ordering
record_mem_compare recs mem e = compare mem (recs e).mpr_mem

module _ (T : RbTree) where
  -- `aborted` is `abort()`, `failed` an assertion that does not hold
  pub data Chained : Type 0 where
    chained : Records → T.Head → Chained
    aborted : Chained
    failed : Chained

  -- The two assertions and assignments that link the record at `q` to its successor at `r`.
  pub link : (q r : ℕ) → Records → T.Head → Chained
  link q r recs tree =
      if not ((recs q).mpr_next_id == 0)
      then failed
      else let recs' = update recs q (record (recs q) { mpr_next_id = (recs r).mpr_id }) in
        if not ((recs' r).mpr_prev_id == 0)
        then failed
        else chained (update recs' r (record (recs' r) { mpr_prev_id = (recs' q).mpr_id })) tree

  -- the answer of RB_INSERT must be NULL
  abbrev pub settle : Records → Option ℕ → T.Head → Chained
  settle recs none tree = chained recs tree
  settle recs (some _) tree = aborted

  -- `RB_INSERT` of the record at `r`, which must not meet another one
  pub insert_record : (r : ℕ) → Records → T.Head → Chained
  insert_record r recs tree =
      let result = T.insert (record_mem_compare recs (recs r).mpr_mem) r tree in
      settle recs result.0 result.1

  -- the answer of RB_FIND must not be NULL
  abbrev pub unlist : (r : ℕ) → Records → T.Head → Option ℕ → Chained
  unlist r recs tree none = aborted
  unlist r recs tree (some q) = link q r recs (T.remove q tree)

  -- takes the record of the buffer at `mem` out of the tree and links it to the one at `r`
  pub close_record : (mem r : ℕ) → Records → T.Head → Chained
  close_record mem r recs tree = unlist r recs tree (T.find (record_mem_compare recs mem) tree)

  abbrev pub and_chain : Chained → (Records → T.Head → Chained) → Chained
  and_chain (chained recs tree) k = k recs tree
  and_chain aborted k = aborted
  and_chain failed k = failed

  -- the body of the loop of `build_chains`
  pub chain_record : (r : ℕ) → Records → T.Head → Chained
  chain_record r recs tree =
      if (recs r).mpr_state == state_alloc
      then insert_record r recs tree
      else if (recs r).mpr_state == state_free
      then (if (recs r).mpr_mem == 0
          then chained recs tree
          else close_record (recs r).mpr_mem r recs tree)
      else if (recs r).mpr_state == state_realloc
      then and_chain (close_record (recs r).mpr_realloc r recs tree) (insert_record r)
      else chained recs tree

  chain_records : List ℕ → Records → T.Head → Chained
  chain_records [] recs tree = chained recs tree
  chain_records (r ∷ rs) recs tree = and_chain (chain_record r recs tree) (chain_records rs)

  -- `build_chains`
  pub build_chains : List ℕ → Records → Chained
  unfolding chain_records
  build_chains rs recs = chain_records rs recs T.init
