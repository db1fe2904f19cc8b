-- ===== src/Ksyms.antt =====
-- mprofile/ksyms.c: the table of symbols that `kelf_open` makes and `kelf_snprintsym` searches.
use ossl_scripts.Base.{
  [], zero, suc, none, some, ◌∷◌, ◌==◌, ◌++◌, ℕ, List, Option, if◌then◌else◌, length, ltb, leb,
}
use ossl_scripts.Words.{◌+w◌, ◌-w◌}
use Prim.Native.Nat.{Ordering, compare, lt, gt, eq}
-- What libelf reads from a file, `qsort` and `bsearch` are parameters.
pub mod Open
pub mod Last
pub mod Sections
pub mod Table
pub mod Lookup
pub mod Names
pub mod Loads
pub mod Model
mod Tests
mod OpenTests

pub record Sym : Type 0 where
  pub sym_name : List ℕ
  pub sym_value : ℕ
  pub sym_size : ℕ

-- the part of a GElf_Sym that is read; `st_type` is GELF_ST_TYPE of its information
pub record GElfSym : Type 0 where
  pub st_name : ℕ
  pub st_type : ℕ
  pub st_value : ℕ
  pub st_size : ℕ

-- What libelf answers for a file: the number of entries of its symbol table, `gelf_getsym`, and
-- `elf_strptr` in its string table.
pub record ElfFile : Type 0 where
  pub symtab_size : ℕ
  pub getsym : ℕ → Option GElfSym
  pub strptr : ℕ → Option (List ℕ)

abbrev pub stt_func : ℕ
stt_func = 2

abbrev pub sym_compare_sort : Sym → Sym → Ordering
sym_compare_sort a b = compare a.sym_value b.sym_value

-- `sym_compare_search`, of the key's address with an entry
pub sym_compare_search : (key : ℕ) → Sym → Ordering
sym_compare_search key entry =
    if ltb key entry.sym_value
    then lt
    else if leb (entry.sym_value +w entry.sym_size) key
    then gt
    else eq

-- the end of the table, with the name that `elf_strptr` answers
abbrev pub add_named : (base : ℕ) → GElfSym → List Sym → (name : Option (List ℕ)) → List Sym
add_named base sym table none = table
add_named base sym table (some name) =
    table
    ++ record { sym_name = name; sym_value = sym.st_value +w base; sym_size = sym.st_size } ∷ []

-- one round of the loop, with what `gelf_getsym` answers
abbrev pub add_symbol : ElfFile → (base : ℕ) → List Sym → Option GElfSym → List Sym
add_symbol elf base table none = table
add_symbol elf base table (some sym) =
    if sym.st_type == stt_func then add_named base sym table (elf.strptr sym.st_name) else table

-- the loop over the symbol table, from the entry `i` on
pub add_symbols : ElfFile → (base rounds i : ℕ) → List Sym → List Sym
add_symbols elf base zero i table = table
add_symbols elf base (suc rounds) i table =
    add_symbols elf base rounds (suc i) (add_symbol elf base table (elf.getsym i))

-- the size of a symbol, with the symbol behind it
abbrev pub sized : Sym → Sym → Sym
sized s next = if s.sym_size == 0 then record s { sym_size = next.sym_value -w s.sym_value } else s

-- the loop that gives a size to the symbols that have none
pub fill_sizes : List Sym → List Sym
fill_sizes [] = []
fill_sizes (s ∷ []) = s ∷ []
fill_sizes (s ∷ t ∷ rest) = sized s t ∷ fill_sizes (t ∷ rest)

-- the table so far; `syms` is NULL before the first file
abbrev pub table_of : Option (List Sym) → List Sym
table_of none = []
table_of (some table) = table

-- what `kelf_snprintsym` prints: a name and an offset if that is not 0, or the address
pub data Printed : Type 0 where
  symbol_offset : (name : List ℕ) → (offset : ℕ) → Printed
  symbol : (name : List ℕ) → Printed
  address : (pc : ℕ) → Printed

module _ (qsort : (Sym → Sym → Ordering) → List Sym → List Sym)
    (bsearch : (Sym → Ordering) → List Sym → Option Sym) where
  -- `kelf_open`, given memory: a file that cannot be read leaves the table as it is. The loop starts
  -- at the number of symbols in the table and ends at the size of both together.
  pub kelf_open : (file : Option ElfFile) → Option (List Sym) → (base : ℕ) → Option (List Sym)
  unfolding add_symbols fill_sizes
  kelf_open none syms base = syms
  kelf_open (some elf) syms base =
      let table = table_of syms in
      some (
        fill_sizes
          (qsort sym_compare_sort (add_symbols elf base elf.symtab_size (length table) table)))

  -- with what `bsearch` answers
  pub print_entry : (pc off : ℕ) → Option Sym → Printed
  print_entry pc off none = address pc
  print_entry pc off (some entry) =
      let offset = pc -w (entry.sym_value +w off) in
      if offset == 0 then symbol entry.sym_name else symbol_offset entry.sym_name offset

  pub kelf_snprintsym : Option (List Sym) → (pc off : ℕ) → Printed
  unfolding print_entry
  kelf_snprintsym none pc off = address pc
  kelf_snprintsym (some table) pc off =
      print_entry pc off (bsearch (sym_compare_search (pc +w off)) table)
