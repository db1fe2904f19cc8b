-- ===== src/Shlibs.antt =====
-- mprofile/record.c: the table of shared libraries, `add_shlib`, `walk_stack`, `load_syms` and
-- `mprofile_done`. What `dladdr` and libelf answer is a parameter.
use ossl_scripts.Base.{
  [], none, some, true, false, ◌∷◌, ◌==◌, ℕ, List, Option, Bool, ◌&&◌, map, if◌then◌else◌,
  replicate,
}
use ossl_scripts.Stack.{MpsStack, Stray}
use ossl_scripts.Tree.{RbTree}
use ossl_scripts.Stset.{StackSet, Stacks}
pub mod Table
pub mod Room
pub mod Load
mod Tests

-- whether two texts are equal, as `strcmp` finds
unfoldable pub str_eq : List ℕ → List ℕ → Bool
str_eq [] [] = true
str_eq [] (c ∷ cs) = false
str_eq (b ∷ bs) [] = false
str_eq (b ∷ bs) (c ∷ cs) = b == c && str_eq bs cs

-- `struct shlib`; the name is `none` for NULL
pub record Shlib : Type 0 where
  pub shl_name : Option (List ℕ)
  pub shl_base : ℕ

abbrev pub max_shlibs : ℕ
max_shlibs = 32

abbrev pub no_shlib : Shlib
no_shlib = record { shl_name = none; shl_base = 0 }

-- `shlibs`, as static storage starts
abbrev pub no_shlibs : List Shlib
no_shlibs = replicate max_shlibs no_shlib

-- what `dladdr` finds: `dli_fname` and `dli_fbase`
abbrev pub DlInfo : Type 0
DlInfo = List ℕ × ℕ

-- one round of the loop of `add_shlib` at the entry `s` with this name, and `rest` what the next rounds
-- make of the entries behind it
abbrev pub place : DlInfo → Shlib → (ss rest : List Shlib) → Option (List ℕ) → List Shlib
place dli s ss rest none = record { shl_name = some dli.0; shl_base = dli.1 } ∷ ss
place dli s ss rest (some name) = if str_eq name dli.0 then s ∷ ss else s ∷ rest

-- `add_shlib`, where `strdup` is given memory for the name (no failure of it is modelled), from one
-- entry of the table on. With a full table the loop
-- looks at the entry behind the last one as well, and returns whatever stands there.
unfoldable pub add_shlib : DlInfo → List Shlib → List Shlib
add_shlib dli [] = []
add_shlib dli (s ∷ ss) = let rest = add_shlib dli ss in place dli s ss rest s.shl_name

-- with what `dladdr` answers
abbrev pub add_dlinfo : Option DlInfo → List Shlib → List Shlib
add_dlinfo none table = table
add_dlinfo (some dli) table = add_shlib dli table

module _ (dladdr : (frame : ℕ) → Option DlInfo) where
  -- `walk_stack`, called for each frame of a stack
  pub walk_stack : (frame : ℕ) → List Shlib → List Shlib
  unfolding add_shlib
  walk_stack frame table = add_dlinfo (dladdr frame) table

  -- the loop of `load_syms` over the stacks
  pub walk_stacks : List MpsStack → List Shlib → List Shlib
  unfolding walk_stack
  walk_stacks [] table = table
  walk_stacks (m ∷ ms) table = walk_stacks ms (ossl_scripts.Stack.walk_stack m walk_stack table)

-- `mprofile_get_next_stack`: from NULL on, the stacks of the set one after the other
abbrev pub stacks_of : (T : RbTree) (stray : Stray) → StackSet T stray → Stacks → List MpsStack
stacks_of T stray set objs = map objs (T.elems set.stset_rbh)

abbrev pub open_named :
    {S : Type 0} → (kelf_open : List ℕ → S → ℕ → S) → Shlib → Option (List ℕ) → S → S
open_named kelf_open s none syms = syms
open_named kelf_open s (some name) syms = kelf_open name syms s.shl_base

-- the last loop of `load_syms`, with `kelf_open` on the name and base of each library
pub open_shlibs : {S : Type 0} → (kelf_open : List ℕ → S → ℕ → S) → List Shlib → S → S
open_shlibs kelf_open [] syms = syms
open_shlibs kelf_open (s ∷ ss) syms =
    open_shlibs kelf_open ss (open_named kelf_open s s.shl_name syms)

-- `load_syms` of a profile with these stacks
pub load_syms :
    {S : Type 0}
    → (dladdr : (frame : ℕ) → Option DlInfo) → (kelf_open : List ℕ → S → ℕ → S) → List MpsStack
    → (syms : S) → S
unfolding walk_stacks open_shlibs
load_syms dladdr kelf_open stacks syms =
    open_shlibs kelf_open (walk_stacks dladdr stacks no_shlibs) syms

-- `mprofile_done`: the names are freed, and the table is not used again
pub mprofile_done : List Shlib → List Shlib
mprofile_done = map free_name
  where
    free_name : Shlib → Shlib
    free_name s = record s { shl_name = none }
