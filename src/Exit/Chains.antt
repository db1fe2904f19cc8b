-- ===== src/Exit/Chains.antt =====
-- Mode 4: the records that `save_profile_trace_link_chains` of mprofile/init.c writes are linked as the
-- history of the heap says, however many threads they come from.
use mathlib.Core.List.Perm
use mathlib.Core.List.{Perm}
use ossl_scripts.Base.{some, ◌∷◌, ◌≡◌, ℕ, List, Bool, All}
use ossl_scripts.Exit.{
  Outside, RbTree, Stray, Timespec, save_profile_trace_link_chains, Sets, Stacks, Records,
}
use ossl_scripts.Exit.Valid.{IsPlainOutside, Writes, write_master-Writes}
use ossl_scripts.Save.Others.{IsOwned}
use ossl_scripts.Record.History.{Live, Link, history, nothing_live}
use ossl_scripts.Save.Sorted.{IsPlain, all_records, id_of, mprofile_save-IsSorted}
use ossl_scripts.Tree.Keyed.{IsSorted, compare-IsOrder}
use Prim.Native.Nat.{compare}
use ossl_scripts.Record.Chains.{IsUnlinked}
use ossl_scripts.Record.Build.{linked_all, IsLog, build_chains-history}
use ossl_scripts.Save.Unique.{sorted_unique, IsSorted-NoRepeat}

module _ (o : Outside) (plain : IsPlainOutside o) (T : RbTree) (stray : Stray) (stacktrace : Bool)
    (start_time_tv : Timespec) where
  -- The records of all threads have no stack and distinct numbers, and are not linked yet; `log` lists
  -- them in order of their numbers, and the events that it tells of fit the history of the heap. The
  -- stacks in the sets of all profiles but the first have been allocated. The texts from outside are
  -- printable ASCII without quotation mark and backslash. libelf knows its version, `reallocarray`
  -- answers an array to a request for elements, and each file that libelf can read has a function with
  -- a name; `qsort` only reorders its table, and `bsearch` answers an entry of it. Then the hook at
  -- exit comes to its end: the file is what `profile_save` prints of the records of `log` in this order,
  -- with the links of the history, and of the stacks of the first profile, and is JSON.
  pub save_profile_trace_link_chains-history :
      (queues : ℕ → List ℕ) (master : ℕ) (mps : List ℕ) (sets : Sets T stray) (objs : Stacks)
      (recs : Records) (log : List ℕ) (m : Live) (ls : List Link)
      → IsPlain T stray recs (all_records T stray queues (master ∷ mps))
      → All (λ mp. IsOwned T stray objs (sets mp)) mps
      → IsSorted compare compare-IsOrder (id_of T stray recs) log
      → Perm log (all_records T stray queues (master ∷ mps))
      → All (IsUnlinked recs) log
      → history log recs nothing_live ≡ some (m, ls)
      → Writes o plain T stray stacktrace start_time_tv log
          (linked_all ls recs)
          (sets master)
          objs
          (save_profile_trace_link_chains T stray o stacktrace start_time_tv queues
            (master ∷ mps)
            sets
            objs
            recs)
  unfolding save_profile_trace_link_chains
  save_profile_trace_link_chains-history queues master mps sets objs recs log m ls p owned sorted
        same unlinked fits =
      let saves = mprofile_save-IsSorted T stray o.room queues master mps sets objs recs p owned in
      let ours : saves.queue ≡ log =
        sorted_unique (id_of T stray recs) saves.queue log saves.in_order sorted
          (Perm.trans saves.all (Perm.symm same)) in
      let is_log : IsLog T recs log = record {
        distinct = IsSorted-NoRepeat (id_of T stray recs) log sorted;
        unlinked = unlinked;
      } in
      let (t, chains, same_fields, holds, last) =
        build_chains-history T recs log m ls is_log fits in
      rw (saves.linked, ours, chains, saves.same)
        (write_master-Writes o plain T stray stacktrace start_time_tv log (linked_all ls recs)
          (sets master) objs)
