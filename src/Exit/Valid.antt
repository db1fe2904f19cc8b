-- ===== src/Exit/Valid.antt =====
-- The file that the profiler leaves at exit is JSON.
use ossl_scripts.Base.{
  none, some, Option, ◌∷◌, ◌≡◌, ◌<◌, ℕ, List, true, refl, Bool, All, length, ap,
}
use ossl_scripts.Exit.{
  Outside, symbols, RbTree, MpsStack, Stray, Timespec, save_profile_trace, write_master,
  master_file, write_with, load_next, Exited, Records, Sets, Stacks, stacks_of, written,
  kelf_snprintsym, Opened, opened, exited, Elf, Sym, StackSet,
}
use ossl_scripts.Ksyms.{ElfFile}
use ossl_scripts.Ksyms.Open.{elf_file}
use ossl_scripts.Ksyms.Names.{IsSort, FindsEntry, HasNames, kelf_snprintsym-NameOf}
use ossl_scripts.Ksyms.Loads.{HasFunction, GoesOn, IsLoaded, open_file-GoesOn}
use ossl_scripts.Output.Valid.{IsPlainEnv, profile_save-IsJson}
use ossl_scripts.Output.Numerals.{AllPlain}
use ossl_scripts.Shlibs.Load.{load_syms-keeps}
use ossl_scripts.Output.Json.{IsJson}
use ossl_scripts.Save.Sorted.{IsPlain, all_records, mprofile_save-IsSorted}
use ossl_scripts.Save.Others.{IsOwned}
use Prim.Native.Nat.{Ordering}

-- The texts from outside are plain. libelf knows its version, `reallocarray` answers an array to a
-- request for one element or more, and each file that can be read has a function with a name. `qsort`
-- only reorders, and `bsearch` answers an entry.
pub record IsPlainOutside (o : Outside) : Type 1 where
  pub sorts : IsSort o.qsort
  pub lengths :
      (c : Sym → Sym → Ordering) (table : List Sym) → length (o.qsort c table) ≡ length table
  pub finds : FindsEntry o.bsearch
  pub annotation : IsPlainEnv o.env
  pub version : o.version_ok ≡ true
  pub gives : (n : ℕ) → 0 < n → o.reallocarray n ≡ true
  pub files :
      (name : List ℕ) (elf : Elf) (file : ElfFile)
      → o.file name ≡ some (some elf)
      → elf_file elf ≡ some file
      → HasNames AllPlain file × HasFunction file

module _ (o : Outside) (plain : IsPlainOutside o) where
  load_next-GoesOn :
      (name : List ℕ) (state : Opened) (base : ℕ)
      → GoesOn (IsLoaded AllPlain) state
      → GoesOn (IsLoaded AllPlain) (load_next o name state base)
  load_next-GoesOn name (opened syms) base loaded = rw plain.version (
      open_file-GoesOn AllPlain o.qsort plain.sorts plain.lengths o.bsearch plain.finds
        o.reallocarray plain.gives (o.file name) syms base (plain.files name) loaded)
  load_next-GoesOn name exited base bad = bad

  symbols-GoesOn : (stacks : List MpsStack) → GoesOn (IsLoaded AllPlain) (symbols o stacks)
  unfolding symbols
  symbols-GoesOn stacks =
      load_syms-keeps (load_next o) (GoesOn (IsLoaded AllPlain)) load_next-GoesOn o.dladdr stacks
        (opened none) (tt, tt)

  module _ (T : RbTree) (stray : Stray) (stacktrace : Bool) (start_time_tv : Timespec) where
    -- A run that has come to its end: the symbols have been loaded, and the file is what `profile_save`
    -- prints, with these symbols, of this queue, these records and the stacks of this set. It is JSON.
    pub record Writes (queue : List ℕ) (recs : Records) (set : StackSet T stray) (objs : Stacks)
        (result : Exited) : Type 0 where
      pub syms : Option (List Sym)
      pub loads : symbols o (stacks_of T stray set objs) ≡ opened syms
      pub ends :
          result ≡ written (master_file T stray o stacktrace start_time_tv syms queue recs set objs)
      pub json : IsJson (master_file T stray o stacktrace start_time_tv syms queue recs set objs)

    pub write_master-Writes :
        (queue : List ℕ) (recs : Records) (set : StackSet T stray) (objs : Stacks)
        → Writes queue recs set objs
            (write_master T stray o stacktrace start_time_tv queue recs set objs)
    unfolding write_master master_file
    write_master-Writes queue recs set objs =
        let stacks = stacks_of T stray set objs in
        go (symbols o stacks) refl (symbols-GoesOn stacks)
      where
        go :
            (state : Opened)
            → symbols o (stacks_of T stray set objs) ≡ state
            → GoesOn (IsLoaded AllPlain) state
            → Writes queue recs set objs
                (write_master T stray o stacktrace start_time_tv queue recs set objs)
        go (opened syms) e loaded = record {
          syms = syms;
          loads = e;
          ends = ap (write_with T stray o stacktrace start_time_tv queue recs set objs) e;
          json =
              profile_save-IsJson (λ frame. kelf_snprintsym o.qsort o.bsearch syms frame 0)
                (λ frame.
                  kelf_snprintsym-NameOf AllPlain o.qsort plain.sorts o.bsearch plain.finds syms
                    frame 0 loaded.0)
                stacktrace start_time_tv o.env plain.annotation recs queue
                (stacks_of T stray set objs);
        }
        go exited e bad = absurd bad

    -- The hook of mode 2, with the texts from outside printable ASCII without quotation mark and
    -- backslash. No record has a stack, no two records have one number, there is a profile, and the
    -- stacks in the sets of the others have been allocated. libelf knows its version, `reallocarray`
    -- answers an array to a request for elements, and each file that libelf can read has a function with
    -- a name; `qsort` only reorders its table, and `bsearch` answers an entry of it. Then the hook
    -- comes to its end, and the file that it has written is JSON.
    pub save_profile_trace-IsJson :
        (queues : ℕ → List ℕ) (master : ℕ) (mps : List ℕ) (sets : Sets T stray) (objs : Stacks)
        (recs : Records)
        → IsPlain T stray recs (all_records T stray queues (master ∷ mps))
        → All (λ mp. IsOwned T stray objs (sets mp)) mps
        → (file : List ℕ) × (save_profile_trace T stray o stacktrace start_time_tv queues
              (master ∷ mps)
              sets
              objs
              recs
            ≡ written file)
          × IsJson file
    unfolding save_profile_trace
    save_profile_trace-IsJson queues master mps sets objs recs p owned =
        let saves =
          mprofile_save-IsSorted T stray o.room queues master mps sets objs recs p owned in
        let writes = write_master-Writes saves.queue recs (saves.after master) objs in
        (
          master_file T stray o stacktrace start_time_tv writes.syms saves.queue recs
              (saves.after master) objs,
          rw saves.unlinked writes.ends,
          writes.json,
        )
