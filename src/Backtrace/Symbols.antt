-- ===== src/Backtrace/Symbols.antt =====
-- backtrace.test/ksyms.c, whose functions have the text of those of mprofile/ksyms.c, but for the newline in
-- front of what `kelf_snprintsym` prints.
use ossl_scripts.Ksyms.{Sym, kelf_snprintsym, sym_compare_sort, sym_compare_search}
use ossl_scripts.Backtrace.{load_syms, print_frames}
use ossl_scripts.Ksyms.Open.{exited, Elf, Opened, open_file, opened}
use ossl_scripts.Base.{ℕ, List, Option, Bool, none, some, ◌≡◌}
use Prim.Native.Nat.{Ordering}
use ossl_scripts.Shlibs.{DlInfo}
use mathlib.Core.Path.{subst}

-- `sym_compare_sort` and `sym_compare_search`
abbrev pub compare_sort : Sym → Sym → Ordering
compare_sort = sym_compare_sort

abbrev pub compare_search : (key : ℕ) → Sym → Ordering
compare_search = sym_compare_search

-- `kelf_open`, of what `open` and `elf_begin` answer
abbrev pub open_symbols :
    (qsort : (Sym → Sym → Ordering) → List Sym → List Sym)
    (bsearch : (Sym → Ordering) → List Sym → Option Sym) (reallocarray : ℕ → Bool)
    → (version_ok : Bool) → (file : Option (Option Elf)) → Option (List Sym)
    → (base : ℕ) → Opened
open_symbols = open_file

module _ (qsort : (Sym → Sym → Ordering) → List Sym → List Sym)
    (bsearch : (Sym → Ordering) → List Sym → Option Sym) (reallocarray : ℕ → Bool)
    (version_ok : Bool) (dladdr : (frame : ℕ) → Option DlInfo)
    (file : (name : List ℕ) → Option (Option Elf)) where
  -- `kelf_open` of one library after another; the program may have ended
  abbrev pub open_next : (name : List ℕ) → Opened → (base : ℕ) → Opened
  open_next name (opened syms) base =
      open_symbols qsort bsearch reallocarray version_ok (file name) syms base
  open_next name exited base = exited

  -- what is printed, and the table of symbols; `ended`: the program has ended
  pub data Shown : Type 0 where
    shown : (text : List ℕ) → Option (List Sym) → Shown
    ended : Shown

  abbrev pub show : (stack : List ℕ) → Opened → Shown
  show stack (opened syms) =
      shown (print_frames (λ frame. kelf_snprintsym qsort bsearch syms frame 0) stack) syms
  show stack exited = ended

  -- `bt_print_stack` of the frames in the buffer; the symbols are loaded unless a table is there
  unfoldable pub bt_print_stack : (stack : List ℕ) → (syms : Option (List Sym)) → Shown
  unfolding load_syms
  bt_print_stack stack none = show stack (load_syms dladdr open_next stack (opened none))
  bt_print_stack stack (some table) = show stack (opened (some table))

  -- Once a call of `bt_print_stack` has made a table, another call on the same frames prints the same, and
  -- keeps the table.
  pub bt_print_stack-again :
      (stack text : List ℕ) (table : List Sym)
      → bt_print_stack stack none ≡ shown text (some table)
      → bt_print_stack stack (some table) ≡ shown text (some table)
  unfolding bt_print_stack
  bt_print_stack-again stack text table e = go (load_syms dladdr open_next stack (opened none)) e
    where
      go :
          (o : Opened)
          → show stack o ≡ shown text (some table)
          → show stack (opened (some table)) ≡ shown text (some table)
      go (opened none) e = absurd (cc)
      go (opened (some table')) e =
          let same : table' ≡ table = cc in
          subst (λ t. show stack (opened (some t)) ≡ shown text (some table)) same e
      go exited e = absurd (cc)
