-- ===== src/Ksyms/Table.antt =====
-- What `kelf_open` of mprofile/ksyms.c puts into the table.
use ossl_scripts.Base.{
  [], zero, suc, some, refl, ◌∷◌, ◌≡◌, ◌<◌, ◌≤◌, ◌^◌, ℕ, List, Option, arith, get_elem?, length,
  ◌∙◌, ap, none, ◌+◌, ◌%◌,
}
use ossl_scripts.Ksyms.{
  kelf_open, add_symbols, fill_sizes, Sym, ElfFile, Ordering, add_symbol, sym_compare_search, eq,
  GElfSym, sized,
}
use ossl_scripts.Words.{◌-w◌}

add_symbol-names :
    (elf elf' : ElfFile) (base : ℕ) (table : List Sym) (o : Option GElfSym)
    → elf'.strptr ≡ elf.strptr
    → add_symbol elf' base table o ≡ add_symbol elf base table o
add_symbol-names elf elf' base table none names = refl
add_symbol-names elf elf' base table (some sym) names = rw names refl

sized-covers :
    (s t : Sym)
    → s.sym_size ≡ 0
    → t.sym_value < 2 ^ 64
    → ((sized s t).sym_name ≡ s.sym_name)
      × ((pc : ℕ) → s.sym_value ≤ pc → pc < t.sym_value → sym_compare_search pc (sized s t) ≡ eq)
unfolding sym_compare_search
sized-covers s t none_yet small = rw none_yet (
  refl,
  λ pc low high.
      let up : (s.sym_value + (t.sym_value -w s.sym_value)) % 2 ^ 64 ≡ t.sym_value = omega arith in
      rw up (ground arith),
)

add_symbols-skips :
    (elf elf' : ElfFile) (base rounds i : ℕ) (table : List Sym)
    → elf'.strptr ≡ elf.strptr
    → ((j : ℕ) → i ≤ j → elf'.getsym j ≡ elf.getsym j)
    → add_symbols elf' base rounds i table ≡ add_symbols elf base rounds i table
unfolding add_symbols
add_symbols-skips elf elf' base zero i table names same = refl
add_symbols-skips elf elf' base (suc rounds) i table names same = rw (same i (omega arith)) (
    add_symbols-skips elf elf' base rounds (suc i) (add_symbol elf' base table (elf.getsym i)) names
      (λ j h. same j (omega arith))
    ∙ ap (λ (t : List Sym). add_symbols elf base rounds (suc i) t)
        (add_symbol-names elf elf' base table (elf.getsym i) names))

-- The entries of a further file that stand before the number of symbols in the table are not read:
-- two files that differ there only give the same table.
pub kelf_open-skips :
    (qsort : (Sym → Sym → Ordering) → List Sym → List Sym)
    (bsearch : (Sym → Ordering) → List Sym → Option Sym) (elf elf' : ElfFile) (table : List Sym)
    (base : ℕ)
    → elf'.symtab_size ≡ elf.symtab_size
    → elf'.strptr ≡ elf.strptr
    → ((j : ℕ) → length table ≤ j → elf'.getsym j ≡ elf.getsym j)
    → kelf_open qsort bsearch (some elf') (some table) base
      ≡ kelf_open qsort bsearch (some elf) (some table) base
unfolding kelf_open
kelf_open-skips qsort bsearch elf elf' table base size names same =
    rw (size, add_symbols-skips elf elf' base elf.symtab_size (length table) table names same) refl

-- A symbol without a size that has another one behind it keeps its name, and compares equal to every
-- address from its own up to the other one's, which is a 64-bit word.
pub fill_sizes-covers :
    (table : List Sym) (i : ℕ) (s t : Sym)
    → get_elem? table i ≡ some s
    → get_elem? table (suc i) ≡ some t
    → s.sym_size ≡ 0
    → t.sym_value < 2 ^ 64
    → (s' : Sym) × (get_elem? (fill_sizes table) i ≡ some s')
      × (s'.sym_name ≡ s.sym_name)
      × ((pc : ℕ) → s.sym_value ≤ pc → pc < t.sym_value → sym_compare_search pc s' ≡ eq)
unfolding fill_sizes
fill_sizes-covers [] i s t here next none_yet small = absurd (let bad : none ≡ some s = here in cc)
fill_sizes-covers (x ∷ []) i s t here next none_yet small =
    absurd (let bad : none ≡ some t = next in cc)
fill_sizes-covers (x ∷ y ∷ rest) zero s t here next none_yet small =
    let same : x ≡ s = cc in
    let behind : y ≡ t = cc in
    let (name, found) = sized-covers s t none_yet small in
    (sized s t, rw (same, behind) refl, name, found)
fill_sizes-covers (x ∷ y ∷ rest) (suc i) s t here next none_yet small =
    fill_sizes-covers (y ∷ rest) i s t here next none_yet small
