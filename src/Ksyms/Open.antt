-- ===== src/Ksyms/Open.antt =====
-- `kelf_open` of mprofile/ksyms.c from the name of a file on: what libelf answers for the sections leads to
-- the symbol table, or to the exit of the program.
use ossl_scripts.Ksyms.{GElfSym, ElfFile, Sym, kelf_open, add_symbols, table_of, Ordering}
use ossl_scripts.Base.{
  [], none, some, true, ◌∷◌, ◌==◌, ◌+◌, ◌/◌, ℕ, List, Option, Bool, ◌&&◌, if◌then◌else◌, length,
  not, codes, ◌++◌,
}
use ossl_scripts.Shlibs.{str_eq}

-- the part of a GElf_Shdr that is read
pub record GElfShdr : Type 0 where
  pub sh_name : ℕ
  pub sh_type : ℕ
  pub sh_size : ℕ
  pub sh_entsize : ℕ

-- What libelf answers for a section: `elf_ndxscn`, `gelf_getshdr`, and `gelf_getsym` in what `elf_rawdata`
-- answers.
pub record Scn : Type 0 where
  pub ndxscn : ℕ
  pub shdr : Option GElfShdr
  pub rawdata : Option (ℕ → Option GElfSym)

-- What libelf answers for an open file: `elf_kind`, `elf_getshdrstrndx`, the sections in the order of
-- `elf_nextscn`, and `elf_strptr` of a section.
pub record Elf : Type 0 where
  pub kind : ℕ
  pub shstrndx : Option ℕ
  pub scns : List Scn
  pub strptr : ℕ → ℕ → Option (List ℕ)

abbrev pub elf_k_elf : ℕ
elf_k_elf = 3

abbrev pub sht_symtab : ℕ
sht_symtab = 2

abbrev pub sht_strtab : ℕ
sht_strtab = 3

abbrev pub size_max : ℕ
size_max = 18446744073709551615

-- `symtab` with `symtab_size`, and `strtabndx`
pub record Found : Type 0 where
  pub symtab : Option Scn
  pub symtab_size : ℕ
  pub strtabndx : ℕ

-- the two tests of a section by its name
unfoldable pub is_symtab : List ℕ → GElfShdr → Bool
is_symtab name shdr =
    str_eq name (codes ".symtab") && shdr.sh_type == sht_symtab && not (shdr.sh_entsize == 0)

unfoldable pub is_strtab : List ℕ → GElfShdr → Bool
is_strtab name shdr = str_eq name (codes ".strtab") && shdr.sh_type == sht_strtab

abbrev pub note_symtab : Scn → List ℕ → GElfShdr → Found → Found
note_symtab scn name shdr found =
    if is_symtab name shdr
    then record found { symtab = some scn; symtab_size = shdr.sh_size / shdr.sh_entsize }
    else found

abbrev pub note_strtab : Scn → List ℕ → GElfShdr → Found → Found
note_strtab scn name shdr found =
    if is_strtab name shdr then record found { strtabndx = scn.ndxscn } else found

-- one round of the loop over the sections, with the name that `elf_strptr` answers; none is `goto bad`
abbrev pub note_named : Scn → GElfShdr → Found → (name : Option (List ℕ)) → Option Found
note_named scn shdr found none = none
note_named scn shdr found (some name) =
    some (note_strtab scn name shdr (note_symtab scn name shdr found))

abbrev pub note_scn : Elf → (shstrndx : ℕ) → Scn → Found → (shdr : Option GElfShdr) → Option Found
note_scn elf shstrndx scn found none = none
note_scn elf shstrndx scn found (some shdr) =
    note_named scn shdr found (elf.strptr shstrndx shdr.sh_name)

-- the loop over the sections
abbrev pub go_on : Option Found → (Found → Option Found) → Option Found
go_on none next = none
go_on (some found) next = next found

unfoldable pub scan_scns : Elf → (shstrndx : ℕ) → List Scn → Found → Option Found
scan_scns elf shstrndx [] found = some found
scan_scns elf shstrndx (scn ∷ scns) found =
    go_on (note_scn elf shstrndx scn found scn.shdr) (scan_scns elf shstrndx scns)

-- the end of the chain, with what `elf_rawdata` answers
abbrev with_data : Elf → Found → (rawdata : Option (ℕ → Option GElfSym)) → Option ElfFile
with_data elf found none = none
with_data elf found (some getsym) = some (record {
  symtab_size = found.symtab_size;
  getsym = getsym;
  strptr = elf.strptr found.strtabndx;
})

-- the tests behind the loop
abbrev read_symtab : Elf → Found → (symtab : Option Scn) → Option ElfFile
read_symtab elf found none = none
read_symtab elf found (some scn) =
    if found.strtabndx == size_max then none else with_data elf found scn.rawdata

abbrev nothing_found : Found
nothing_found = record { symtab = none; symtab_size = 0; strtabndx = size_max }

abbrev read_found : Elf → Option Found → Option ElfFile
read_found elf none = none
read_found elf (some found) = read_symtab elf found found.symtab

abbrev read_scns : Elf → (shstrndx : Option ℕ) → Option ElfFile
read_scns elf none = none
read_scns elf (some shstrndx) = read_found elf (scan_scns elf shstrndx elf.scns nothing_found)

-- what `kelf_open` gets to know of a file that `elf_begin` takes; none is `goto bad`
unfoldable pub elf_file : Elf → Option ElfFile
unfolding scan_scns
elf_file elf = if elf.kind == elf_k_elf then read_scns elf elf.shstrndx else none

-- `exited`: `err` or `errx` has ended the program
pub data Opened : Type 0 where
  opened : Option (List Sym) → Opened
  exited : Opened

module _ (qsort : (Sym → Sym → Ordering) → List Sym → List Sym)
    (bsearch : (Sym → Ordering) → List Sym → Option Sym) (reallocarray : ℕ → Bool) where
  -- the first allocation: `calloc` is given the memory, and `reallocarray` says for a count whether it
  -- answers an array
  abbrev has_room : ElfFile → Option (List Sym) → Bool
  has_room elf none = true
  has_room elf (some table) = reallocarray (length table + elf.symtab_size)

  abbrev fill : Option (List Sym) → (base : ℕ) → Option ElfFile → Opened
  fill syms base none = opened syms
  fill syms base (some elf) =
      let table = table_of syms in
      if not (has_room elf syms)
      then exited
      else if not
          (reallocarray (length (add_symbols elf base elf.symtab_size (length table) table)))
      then exited
      else opened (kelf_open qsort bsearch (some elf) syms base)

  -- what `elf_begin` answers
  abbrev begin_elf : Option (List Sym) → (base : ℕ) → Option Elf → Opened
  begin_elf syms base none = opened syms
  begin_elf syms base (some elf) = fill syms base (elf_file elf)

  -- `kelf_open`: what `elf_version` answers is `version_ok`, and `file` what `open` and then `elf_begin`
  -- answer to the name
  unfoldable pub open_file :
      (version_ok : Bool) → (file : Option (Option Elf)) → Option (List Sym) → (base : ℕ) → Opened
  unfolding kelf_open add_symbols elf_file
  open_file version_ok none syms base = if version_ok then opened syms else exited
  open_file version_ok (some elf) syms base = if version_ok then begin_elf syms base elf else exited

-- what `kelf_close` frees: a name, the table, and the structure that points to it
pub data Freed : Type 0 where
  freed_name : List ℕ → Freed
  freed_table : Freed
  freed_syms : Freed

-- the loop over the table
pub free_names : List Sym → List Freed
free_names [] = []
free_names (s ∷ ss) = freed_name s.sym_name ∷ free_names ss

-- `kelf_close`: what is freed, in this order
pub kelf_close : Option (List Sym) → List Freed
unfolding free_names
kelf_close none = []
kelf_close (some table) = free_names table ++ freed_table ∷ freed_syms ∷ []
