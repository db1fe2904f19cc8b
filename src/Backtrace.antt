-- ===== src/Backtrace.antt =====
-- backtrace.test/backtrace.c, as it is compiled without _LIBUNWIND: the handler of SIGTRAP that records
-- one call stack, and the functions that print it. Its ksyms.c is a copy of mprofile/ksyms.c that puts a
-- newline in front of what it prints. `_Unwind_Backtrace` calls its function once for each frame.
use mathlib.Core.Option
use ossl_scripts.Base.{
  [], zero, suc, none, some, true, ◌∷◌, ◌++◌, ◌/◌, ◌*◌, ◌^◌, ℕ, List, Option, Bool, if◌then◌else◌,
  get_or, codes, ltb, replicate, take, length,
}
use ossl_scripts.Ksyms.{Printed}
use ossl_scripts.Shlibs.{DlInfo, Shlib, add_dlinfo, no_shlib}
use Prim.Native.Nat.{bit_and}
use ossl_scripts.Output.{printed_text}
pub mod Handler
pub mod Libraries
pub mod Symbols
mod Tests

abbrev pub max_stack_depth : ℕ
max_stack_depth = 64

-- `hex_tab`
abbrev pub hex_tab : List ℕ
hex_tab = codes "0123456789abcedf"

-- the loop of `write_hex`, with `i - 1` in place of `i`
unfoldable pub hex_rounds : (i mask x : ℕ) → List ℕ
hex_rounds zero mask x = []
hex_rounds (suc i) mask x =
    get_or hex_tab (bit_and x mask / 2 ^ (i * 4)) 0 ∷ hex_rounds i (mask / 2 ^ 4) x

-- what `write_hex` writes
unfoldable pub write_hex : (x : ℕ) → List ℕ
unfolding hex_rounds
write_hex x = codes "0x" ++ hex_rounds 16 (15 * 2 ^ 60) x

-- The words of `stack` below `top`, and `done`.
pub record Trap : Type 0 where
  pub stack : List ℕ
  pub done : Bool

-- `collect_backtrace`; `none` if it writes behind the array, which it does not test
unfoldable pub collect_backtrace : (frame : ℕ) → List ℕ → Option (List ℕ)
collect_backtrace frame stack =
    if ltb (length stack) max_stack_depth then some (stack ++ frame ∷ []) else none

-- `_Unwind_Backtrace` with it
unfoldable pub collect_frames : List ℕ → (stack : List ℕ) → Option (List ℕ)
unfolding collect_backtrace
collect_frames [] stack = some stack
collect_frames (f ∷ fs) stack = Option.bind (collect_backtrace f stack) (collect_frames fs)

-- `sigtrap_hndl`, on a stack of these frames
unfoldable pub sigtrap_hndl : (frames : List ℕ) → Trap → Option Trap
unfolding collect_frames
sigtrap_hndl frames t =
    if t.done
    then some t
    else Option.map (λ s. record { stack = s; done = true }) (collect_frames frames [])

-- the first loop of `load_syms`, over the frames
unfoldable pub walk_frames :
    (dladdr : (frame : ℕ) → Option DlInfo) → List ℕ → List Shlib → List Shlib
walk_frames dladdr [] table = table
walk_frames dladdr (f ∷ fs) table = walk_frames dladdr fs (add_dlinfo (dladdr f) table)

-- one round of the second loop of `load_syms`, which ends at the first entry without a name; `rest` is
-- what the next rounds do
abbrev pub open_first :
    {S : Type 0}
    → (kelf_open : List ℕ → S → ℕ → S) → Shlib
    → Option (List ℕ)
    → (rest : S → S) → S
    → S
open_first kelf_open s none rest syms = syms
open_first kelf_open s (some name) rest syms = rest (kelf_open name syms s.shl_base)

unfoldable pub open_names : {S : Type 0} → (kelf_open : List ℕ → S → ℕ → S) → List Shlib → S → S
open_names kelf_open [] syms = syms
open_names kelf_open (s ∷ ss) syms =
    open_first kelf_open s s.shl_name (open_names kelf_open ss) syms

-- `shlibs`, as static storage starts
abbrev pub empty_table : List Shlib
empty_table = replicate max_stack_depth no_shlib

unfoldable pub load_syms :
    {S : Type 0}
    → (dladdr : (frame : ℕ) → Option DlInfo) → (kelf_open : List ℕ → S → ℕ → S) → (stack : List ℕ)
    → (syms : S) → S
unfolding walk_frames open_names
load_syms dladdr kelf_open stack syms =
    open_names kelf_open (walk_frames dladdr stack empty_table) syms

-- the text of `kelf_snprintsym` in this copy, in a buffer of 80 bytes
unfoldable pub line_of : Printed → List ℕ
line_of p = take 79 (codes "\n" ++ printed_text p)

-- the loop of `bt_print_stack`
unfoldable pub print_frames : (snprintsym : (frame : ℕ) → Printed) → List ℕ → List ℕ
unfolding line_of
print_frames snprintsym [] = []
print_frames snprintsym (f ∷ fs) = line_of (snprintsym f) ++ print_frames snprintsym fs
