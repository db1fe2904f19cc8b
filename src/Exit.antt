-- ===== src/Exit.antt =====
-- The end of a run in the modes 2 to 5: `save_profile_trace` and `save_profile_trace_link_chains` of
-- mprofile/init.c, and the end of `mprofile_save` of mprofile/record.c, which loads the symbols and
-- writes the file. `mprofile_done`, which comes last, leaves the file as it is.
use ossl_scripts.Base.{[], none, true, false, ◌∷◌, ℕ, List, Option, Bool, sym, set}
use ossl_scripts.Ksyms.{Sym, kelf_snprintsym}
use ossl_scripts.Ksyms.Open.{Elf, Opened, opened, exited, open_file}
use ossl_scripts.Tree.{RbTree}
use ossl_scripts.Stack.{MpsStack, Stray}
use Prim.Native.Nat.{Ordering}
use ossl_scripts.Shlibs.{load_syms, DlInfo, stacks_of}
use ossl_scripts.Stats.{Timespec}
use ossl_scripts.Save.Merge.{mprofile_save, Saved, saved}
use ossl_scripts.Stset.Merge.{Sets}
use ossl_scripts.Record.{Records}
use ossl_scripts.Stset.{Stacks, StackSet}
use ossl_scripts.Output.{profile_save}
pub mod Valid
pub mod Chains
pub mod Run
mod Tests
mod RunTests

-- What the program asks of the outside: libc, libdl and libelf.
pub record Outside : Type 1 where
  pub qsort : (Sym → Sym → Ordering) → List Sym → List Sym
  pub bsearch : (Sym → Ordering) → List Sym → Option Sym
  pub dladdr : (frame : ℕ) → Option DlInfo
  pub version_ok : Bool
  pub reallocarray : ℕ → Bool
  pub file : (name : List ℕ) → Option (Option Elf)  -- what `open`, and then `elf_begin`, answers
  pub env : Option (List ℕ)  -- MPROFILE_ANNOTATION
  pub room : ℕ → ℕ × ℕ

-- `kelf_open` of one library after another; the program may have ended
abbrev pub load_next : Outside → (name : List ℕ) → Opened → (base : ℕ) → Opened
load_next o name (opened syms) base =
    open_file o.qsort o.bsearch o.reallocarray o.version_ok (o.file name) syms base
load_next o name ossl_scripts.Ksyms.Open.exited base = exited

-- `syms` behind `load_syms` of a profile with these stacks; it starts as NULL
pub symbols : Outside → List MpsStack → Opened
symbols o stacks = load_syms o.dladdr (load_next o) stacks (opened none)

-- What has become of the run: the file that it wrote, or how it ended before. `ended` is an `err` or
-- `errx` of `kelf_open`.
pub data Exited : Type 0 where
  written : (file : List ℕ) → Exited
  ended : Exited
  aborted : Exited
  failed : Exited
  crashed : Exited

module _ (T : RbTree) (stray : Stray) (o : Outside) (stacktrace : Bool)
    (start_time_tv : Timespec) where
  -- `profile_save`, with the symbols, for a profile with this queue and set
  unfoldable pub master_file :
      (syms : Option (List Sym)) → (queue : List ℕ) → Records → StackSet T stray → Stacks → List ℕ
  master_file syms queue recs set objs =
      profile_save (λ frame. kelf_snprintsym o.qsort o.bsearch syms frame 0) stacktrace
        start_time_tv o.env recs queue (stacks_of T stray set objs) []

  abbrev pub write_with : (queue : List ℕ) → Records → StackSet T stray → Stacks → Opened → Exited
  write_with queue recs set objs (opened syms) = written (master_file syms queue recs set objs)
  write_with queue recs set objs ossl_scripts.Ksyms.Open.exited = ended

  -- the two calls at the end of `mprofile_save`
  unfoldable pub write_master : (queue : List ℕ) → Records → StackSet T stray → Stacks → Exited
  unfolding symbols
  write_master queue recs set objs =
      write_with queue recs set objs (symbols o (stacks_of T stray set objs))

  abbrev pub write_saved : (master : ℕ) → Saved T stray → Exited
  write_saved master (saved queue recs sets objs) = write_master queue recs (sets master) objs
  write_saved master ossl_scripts.Save.Merge.Saved.aborted = aborted
  write_saved master ossl_scripts.Save.Merge.Saved.failed = failed
  write_saved master ossl_scripts.Save.Merge.Saved.crashed = crashed

  -- the whole `mprofile_save`
  unfoldable pub save_file :
      (link_chains : Bool)
      → (queues : ℕ → List ℕ) → (profiles : List ℕ) → Sets T stray
      → Stacks
      → Records
      → Exited
  unfolding write_master mprofile_save
  save_file link_chains queues [] sets objs recs = crashed
  save_file link_chains queues (master ∷ mps) sets objs recs =
      write_saved master
        (mprofile_save T stray o.room queues (master ∷ mps) link_chains sets objs recs)

  unfoldable pub save_profile_trace :
      (queues : ℕ → List ℕ) → (profiles : List ℕ) → Sets T stray → Stacks → Records → Exited
  unfolding save_file
  save_profile_trace = save_file false

  unfoldable pub save_profile_trace_link_chains :
      (queues : ℕ → List ℕ) → (profiles : List ℕ) → Sets T stray → Stacks → Records → Exited
  unfolding save_file
  save_profile_trace_link_chains = save_file true
