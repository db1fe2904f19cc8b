-- ===== src/Ksyms/Tests.antt =====
-- Tables of symbols of mprofile/ksyms.c, and the theorems at them.
use ossl_scripts.Base.{
  [], none, some, refl, ◌∷◌, ◌≡◌, ◌==◌, ◌<◌, ◌≤◌, ℕ, List, arith, get_elem?, if◌then◌else◌,
  ==_of_ne, ◌⊎◌,
}
use ossl_scripts.Ksyms.{
  kelf_snprintsym, kelf_open, Sym, ElfFile, add_symbols, address, fill_sizes, sym_compare_search,
  eq,
}
use ossl_scripts.Ksyms.Model.{sort_by, search_first, search_first-IsSearch, insert_by}
use ossl_scripts.Ksyms.Lookup.{IsNamed, kelf_snprintsym_lem}
use ossl_scripts.Ksyms.Table.{kelf_open-skips, fill_sizes-covers}

abbrev symbol_at : (name value size : ℕ) → Sym
symbol_at name value size = record { sym_name = name ∷ []; sym_value = value; sym_size = size }

-- 1 has no size and 2 follows it
abbrev table : List Sym
table = symbol_at 1 4096 0 ∷ symbol_at 2 4352 16 ∷ []

-- two functions, not in order of their addresses, and an object
abbrev file : ElfFile
file = record {
  symtab_size = 3;
  getsym = λ i.
      if i == 0
      then some (record { st_name = 2; st_type = 2; st_value = 256; st_size = 16 })
      else if i == 1
      then some (record { st_name = 9; st_type = 1; st_value = 512; st_size = 8 })
      else some (record { st_name = 1; st_type = 2; st_value = 0; st_size = 0 });
  strptr = λ n. some (n ∷ []);
}

-- the same file without the first function
abbrev other_file : ElfFile
other_file = record file { getsym = λ i. if i == 0 then none else file.getsym i }

opened_run :
    kelf_open sort_by search_first (some file) none 4096
    ≡ some (symbol_at 1 4096 256 ∷ symbol_at 2 4352 16 ∷ [])
unfolding kelf_open add_symbols fill_sizes sort_by insert_by
opened_run = refl

kelf_open-skips_example :
    kelf_open sort_by search_first (some other_file) (some table) 8192
    ≡ kelf_open sort_by search_first (some file) (some table) 8192
kelf_open-skips_example =
    kelf_open-skips sort_by search_first file other_file table 8192 refl refl
      (λ j h. rw (==_of_ne j 0 (omega arith)) refl)

fill_sizes-covers_example :
    (s' : Sym) × (get_elem? (fill_sizes table) 0 ≡ some s')
    × (s'.sym_name ≡ 1 ∷ [])
    × ((pc : ℕ) → 4096 ≤ pc → pc < 4352 → sym_compare_search pc s' ≡ eq)
fill_sizes-covers_example =
    fill_sizes-covers table 0 (symbol_at 1 4096 0) (symbol_at 2 4352 16) refl refl refl
      (omega arith)

kelf_snprintsym_lem_example :
    ((search_first (sym_compare_search 4360) table ≡ none)
      × (kelf_snprintsym sort_by search_first (some table) 4360 0 ≡ address 4360))
    ⊎ ((e : Sym) × (search_first (sym_compare_search 4360) table ≡ some e)
        × IsNamed sort_by search_first 4360
            (kelf_snprintsym sort_by search_first (some table) 4360 0)
            e)
kelf_snprintsym_lem_example =
    kelf_snprintsym_lem sort_by search_first table 4360 search_first-IsSearch (omega arith)
