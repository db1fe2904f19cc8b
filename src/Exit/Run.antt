-- ===== src/Exit/Run.antt =====
-- A whole run in mode 4 or 2: the calls of the program's threads on the wrappers of mprofile/init.c, and
-- then the hook `save_profile_trace_link_chains` or `save_profile_trace`.
use mathlib.Core.List.Perm
use ossl_scripts.Save.Sorted.{mprofile_save-IsSorted, id_of, all_records}
use ossl_scripts.Save.Others.{IsOwned, create_stset-IsOwned}
use ossl_scripts.Trace.Together.{IsBare}
use ossl_scripts.Record.{Records}
use mathlib.Core.Path.{subst, sym}
use ossl_scripts.Save.Unique.{sorted_unique}
use ossl_scripts.Exit.{
  save_profile_trace, Sets, Outside, save_profile_trace_link_chains, RbTree, Stray, Timespec,
  Exited,
}
use mathlib.Core.List.{Perm}
use ossl_scripts.Exit.Valid.{IsPlainOutside, Writes, write_master-Writes}
use ossl_scripts.Exit.Chains.{save_profile_trace_link_chains-history}
use ossl_scripts.Record.Build.{linked_all}
use ossl_scripts.Trace.Program.{Program}
use ossl_scripts.Trace.Runs.{Program-Tells}
use ossl_scripts.Trace.Shared.{queues_of}
use ossl_scripts.Base.{[], some, ◌∷◌, ◌≡◌, ◌<◌, ◌^◌, ℕ, List, Bool, All}
use ossl_scripts.Record.History.{Live, Link, history, nothing_live}
use ossl_scripts.Trace.{Tracer}
use ossl_scripts.Tree.Keyed.{IsSorted, compare-IsOrder}
use Prim.Native.Nat.{compare}

module _ (o : Outside) (T : RbTree) (stray : Stray) (stacktrace : Bool)
    (start_time_tv : Timespec) where
  -- empty sets hold no stack that was not allocated
  bare-IsOwned :
      (s : Tracer T stray) (mps : List ℕ)
      → All (IsBare T stray s.profs) mps
      → All (λ mp. IsOwned T stray s.store.stacks (s.profs mp).mp_stset) mps
  bare-IsOwned s [] h = tt
  bare-IsOwned s (mp ∷ mps) h = (
    subst (IsOwned T stray s.store.stacks) (sym h.0) (create_stset-IsOwned T stray s.store.stacks),
    bare-IsOwned s mps h.1,
  )

  -- The records of all threads in order of their numbers: they tell of the live buffers, as one
  -- history of the heap, and a run has written them with the links that `linked` puts to them.
  pub record Leaves (plain : IsPlainOutside o) (m : Live) (s : Tracer T stray) (master : ℕ)
      (linked : List Link → Records) (result : Exited) : Type 0 where
    pub log : List ℕ
    pub links : List Link
    pub told : history log s.store.recs nothing_live ≡ some (m, links)
    pub in_order : IsSorted compare compare-IsOrder (id_of T stray s.store.recs) log
    pub all : Perm log (all_records T stray (queues_of T stray s.profs) s.profiles)
    pub writes :
        Writes o plain T stray stacktrace start_time_tv log
          (linked links)
          (s.profs master).mp_stset
          s.store.stacks
          result

  -- The threads of a program make at least one and fewer than 2 ^ 64 calls of the trace wrappers
  -- without call stacks, one after another; they release or resize NULL or live buffers, which may come from another thread. `malloc` and
  -- `realloc` answer NULL, `malloc` at most once, or a block that does not wrap and is not live, and
  -- there is memory for profiles and records. The texts from outside are printable ASCII without quotation mark
  -- and backslash. libelf knows its version, `reallocarray` answers an array to a request for elements,
  -- and each file that libelf can read has a function with a name; `qsort` only reorders its table, and
  -- `bsearch` answers an entry of it. Then the hook of mode 4 comes to its end. The records of all
  -- threads, each once, in order of their numbers, tell as one history of the heap of the buffers that
  -- are live at the end, and of NULL if a `malloc` has failed; the file is what `profile_save` prints of
  -- them in this order, with the links of this history, and is JSON.
  pub Program-file :
      {n : ℕ} {m : Live} {s : Tracer T stray} (master : ℕ) (mps : List ℕ) (plain : IsPlainOutside o)
      → Program T stray n m s
      → n < 2 ^ 64
      → s.profiles ≡ master ∷ mps
      → Leaves plain m s master
          (λ links. linked_all links s.store.recs)
          (save_profile_trace_link_chains T stray o stacktrace start_time_tv
            (queues_of T stray s.profs)
            s.profiles
            (λ mp. (s.profs mp).mp_stset)
            s.store.stacks
            s.store.recs)
  Program-file {m = m} {s = s} master mps plain program few here =
      let h = (Program-Tells T stray program few).tells in
      let bare : All (IsBare T stray s.profs) (master ∷ mps) = rw here at h.bare in
      record {
        log = h.log;
        links = h.logs.links;
        told = h.logs.told;
        in_order = h.in_order;
        all = h.all;
        writes = rw here (
            save_profile_trace_link_chains-history o plain T stray stacktrace start_time_tv
              (queues_of T stray s.profs) master mps (λ mp. (s.profs mp).mp_stset) s.store.stacks
              s.store.recs h.log m h.logs.links (rw here at h.plain) (bare-IsOwned s mps bare.1)
              h.in_order (rw here at h.all) h.logs.unlinked h.logs.told);
      }

  -- The same for the hook of mode 2, which links nothing. The threads of a program make at least
  -- one and fewer than 2 ^ 64 calls of the trace wrappers without call stacks, one after another, and release or resize NULL or live buffers.
  -- `malloc` and `realloc` answer NULL, `malloc` at most once, or a block that does not wrap and is not
  -- live, and there is memory for profiles and records. The texts from outside are printable ASCII without quotation mark
  -- and backslash. libelf knows its version, `reallocarray` answers an array to a request for elements,
  -- and each file that libelf can read has a function with a name; `qsort` only reorders its table, and
  -- `bsearch` answers an entry of it. Then the hook comes to its end. The records of all
  -- threads, each once, in order of their numbers, tell as one history of the heap of the buffers that
  -- are live at the end, and of NULL if a `malloc` has failed; the file is what `profile_save` prints of
  -- them in this order, as they were recorded, and is JSON.
  pub Program-trace_file :
      {n : ℕ} {m : Live} {s : Tracer T stray} (master : ℕ) (mps : List ℕ) (plain : IsPlainOutside o)
      → Program T stray n m s
      → n < 2 ^ 64
      → s.profiles ≡ master ∷ mps
      → Leaves plain m s master
          (λ _. s.store.recs)
          (save_profile_trace T stray o stacktrace start_time_tv
            (queues_of T stray s.profs)
            s.profiles
            (λ mp. (s.profs mp).mp_stset)
            s.store.stacks
            s.store.recs)
  unfolding save_profile_trace
  Program-trace_file {m = m} {s = s} master mps plain program few here =
      let h = (Program-Tells T stray program few).tells in
      let sets : Sets T stray = λ mp. (s.profs mp).mp_stset in
      let bare : All (IsBare T stray s.profs) (master ∷ mps) = rw here at h.bare in
      let saves =
        mprofile_save-IsSorted T stray o.room (queues_of T stray s.profs) master mps sets
          s.store.stacks s.store.recs (rw here at h.plain) (bare-IsOwned s mps bare.1) in
      let ours : saves.queue ≡ h.log =
        sorted_unique (id_of T stray s.store.recs) saves.queue h.log saves.in_order h.in_order
          (Perm.trans saves.all (Perm.symm (rw here at h.all))) in
      record {
        log = h.log;
        links = h.logs.links;
        told = h.logs.told;
        in_order = h.in_order;
        all = h.all;
        writes =
            rw (here, saves.unlinked, ours, saves.same)
              (write_master-Writes o plain T stray stacktrace start_time_tv h.log s.store.recs
                (sets master) s.store.stacks);
      }
