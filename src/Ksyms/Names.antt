-- ===== src/Ksyms/Names.antt =====
-- A property that the names in the files have, the names that `kelf_snprintsym` of mprofile/ksyms.c
-- prints have as well.
use ossl_scripts.Base.{
  [], zero, suc, none, some, inl, inr, refl, ◌∷◌, ◌≡◌, ◌==◌, ◌++◌, ℕ, List, Option, sym, All,
  Bool-cases, length,
}
use ossl_scripts.Words.{◌+w◌, ◌-w◌}
use ossl_scripts.Ksyms.{
  ElfFile, Printed, fill_sizes, Sym, GElfSym, symbol_offset, Ordering, add_symbols, sized,
  kelf_open, add_named, kelf_snprintsym, print_entry, symbol, add_symbol, table_of, address,
  sym_compare_search, sym_compare_sort, stt_func,
}

-- `qsort` only moves the entries of a table.
abbrev pub IsSort : ((Sym → Sym → Ordering) → List Sym → List Sym) → Type 1
IsSort qsort =
    (P : Sym → Type 0) (c : Sym → Sym → Ordering) (table : List Sym)
    → All P table
    → All P (qsort c table)

-- `bsearch` answers an entry of the table.
abbrev pub FindsEntry : ((Sym → Ordering) → List Sym → Option Sym) → Type 1
FindsEntry bsearch =
    (P : Sym → Type 0) (c : Sym → Ordering) (table : List Sym) (e : Sym)
    → bsearch c table ≡ some e
    → All P table
    → P e

module _ (P : List ℕ → Type 0) where
  abbrev IsNamed : Sym → Type 0
  IsNamed s = P s.sym_name

  abbrev pub AllNamed : Option (List Sym) → Type 0
  AllNamed syms = All IsNamed (table_of syms)

  -- every name that `elf_strptr` answers
  abbrev pub HasNames : ElfFile → Type 0
  HasNames elf = (i : ℕ) (name : List ℕ) → elf.strptr i ≡ some name → P name

  -- the name of what is printed, where there is one
  abbrev pub NameOf : Printed → Type 0
  NameOf (symbol_offset name offset) = P name
  NameOf (symbol name) = P name
  NameOf (address pc) = Unit

  append-IsNamed : (xs ys : List Sym) → All IsNamed xs → All IsNamed ys → All IsNamed (xs ++ ys)
  append-IsNamed [] ys p q = q
  append-IsNamed (x ∷ xs) ys (p, ps) q = (p, append-IsNamed xs ys ps q)

  add_named-IsNamed :
      (base : ℕ) (sym : GElfSym) (table : List Sym) (name : Option (List ℕ))
      → ((n : List ℕ) → name ≡ some n → P n)
      → All IsNamed table
      → All IsNamed (add_named base sym table name)
  add_named-IsNamed base sym table none names p = p
  add_named-IsNamed base sym table (some name) names p =
      append-IsNamed table (_ ∷ []) p (names name refl, tt)

  module _ (elf : ElfFile) (names : HasNames elf) where
    add_symbol-IsNamed :
        (base : ℕ) (table : List Sym) (sym : Option GElfSym)
        → All IsNamed table
        → All IsNamed (add_symbol elf base table sym)
    add_symbol-IsNamed base table none p = p
    add_symbol-IsNamed base table (some sym) p = elim (Bool-cases (sym.st_type == stt_func)) [
      | inl function ↦
          rw function
            (add_named-IsNamed base sym table (elf.strptr sym.st_name) (names sym.st_name) p)
      | inr other ↦ rw other p
    ]

    add_symbols-IsNamed :
        (base rounds i : ℕ) (table : List Sym)
        → All IsNamed table
        → All IsNamed (add_symbols elf base rounds i table)
    unfolding add_symbols
    add_symbols-IsNamed base zero i table p = p
    add_symbols-IsNamed base (suc rounds) i table p =
        add_symbols-IsNamed base rounds (suc i) (add_symbol elf base table (elf.getsym i))
          (add_symbol-IsNamed base table (elf.getsym i) p)

  sized-IsNamed : (s t : Sym) → IsNamed s → IsNamed (sized s t)
  sized-IsNamed s t p = elim (Bool-cases (s.sym_size == 0)) [
    | inl none_yet ↦ rw none_yet p
    | inr has ↦ rw has p
  ]

  fill_sizes-IsNamed : (table : List Sym) → All IsNamed table → All IsNamed (fill_sizes table)
  unfolding fill_sizes
  fill_sizes-IsNamed [] p = p
  fill_sizes-IsNamed (s ∷ []) p = p
  fill_sizes-IsNamed (s ∷ t ∷ rest) (p, ps) =
      (sized-IsNamed s t p, fill_sizes-IsNamed (t ∷ rest) ps)

  module _ (qsort : (Sym → Sym → Ordering) → List Sym → List Sym) (sorts : IsSort qsort)
      (bsearch : (Sym → Ordering) → List Sym → Option Sym) (finds : FindsEntry bsearch) where
    pub kelf_open-AllNamed :
        (file : Option ElfFile) (syms : Option (List Sym)) (base : ℕ)
        → ((elf : ElfFile) → file ≡ some elf → HasNames elf)
        → AllNamed syms
        → AllNamed (kelf_open qsort bsearch file syms base)
    unfolding kelf_open
    kelf_open-AllNamed none syms base names p = p
    kelf_open-AllNamed (some elf) syms base names p = fill_sizes-IsNamed _ (
        sorts IsNamed sym_compare_sort _ (
          add_symbols-IsNamed elf (names elf refl) base elf.symtab_size (length (table_of syms))
            (table_of syms) p))

    print_entry-NameOf :
        (pc off : ℕ) (e : Option Sym)
        → ((s : Sym) → e ≡ some s → IsNamed s)
        → NameOf (print_entry qsort bsearch pc off e)
    unfolding print_entry
    print_entry-NameOf pc off none p = tt
    print_entry-NameOf pc off (some s) p = elim (Bool-cases ((pc -w (s.sym_value +w off)) == 0)) [
      | inl start ↦ rw start (p s refl)
      | inr inside ↦ rw inside (p s refl)
    ]

    pub kelf_snprintsym-NameOf :
        (syms : Option (List Sym)) (pc off : ℕ)
        → AllNamed syms
        → NameOf (kelf_snprintsym qsort bsearch syms pc off)
    unfolding kelf_snprintsym
    kelf_snprintsym-NameOf none pc off p = tt
    kelf_snprintsym-NameOf (some table) pc off p =
        print_entry-NameOf pc off (bsearch (sym_compare_search (pc +w off)) table)
          (λ s found. finds IsNamed (sym_compare_search (pc +w off)) table s found p)
