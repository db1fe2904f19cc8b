-- ===== src/Ksyms/Loads.antt =====
-- `kelf_open` of mprofile/ksyms.c on files that have a function: it returns, with names of the files.
use ossl_scripts.Ksyms.Open.{Elf, Opened, opened, exited, open_file, elf_file}
use ossl_scripts.Ksyms.{
  ElfFile, Sym, GElfSym, Ordering, stt_func, add_symbols, add_symbol, kelf_open, table_of,
  fill_sizes, sym_compare_sort,
}
use ossl_scripts.Ksyms.Names.{IsSort, HasNames, AllNamed, kelf_open-AllNamed, FindsEntry}
use ossl_scripts.Ksyms.Sections.{add_symbols-fits}
use mathlib.Core.Option.{some-injective}
use ossl_scripts.Base.{
  [], none, some, zero, suc, true, inl, inr, refl, ◌∷◌, ◌≡◌, ◌<◌, ◌≤◌, ◌+◌, ◌==◌, ℕ, List, Option,
  arith, length, length-append, Bool, Bool-cases, ap, ◌∙◌, ◌≢◌, ==_iff,
}

-- the file has a function with a name among its symbols
pub record HasFunction (elf : ElfFile) : Type 0 where
  pub index : ℕ
  pub inside : index < elf.symtab_size
  pub sym : GElfSym
  pub got : elf.getsym index ≡ some sym
  pub function : sym.st_type ≡ stt_func
  pub name : List ℕ
  pub named : elf.strptr sym.st_name ≡ some name

module _ (elf : ElfFile) (f : HasFunction elf) where
  added-some :
      (base : ℕ) (table : List Sym) → 0 < length (add_symbol elf base table (elf.getsym f.index))
  added-some base table =
      rw (f.got, f.function, f.named) (omega (arith, length-append table (_ ∷ [])))

  -- the loop that starts in front of the function makes a table that is not empty
  add_symbols-some :
      (base rounds i : ℕ) (table : List Sym)
      → i ≤ f.index
      → f.index < i + rounds
      → 0 < length (add_symbols elf base rounds i table)
  unfolding add_symbols
  add_symbols-some base zero i table low high = absurd (omega (arith, low, high))
  add_symbols-some base (suc rounds) i table low high = elim (Bool-cases (i == f.index)) [
    | inl here ↦
        let e : i ≡ f.index = (==_iff i f.index).0 here in
        let grown : 0 < length (add_symbol elf base table (elf.getsym i)) =
          rw e (added-some base table) in
        let (more, _) =
          add_symbols-fits elf base rounds (suc i) (add_symbol elf base table (elf.getsym i)) in
        omega (arith, grown, more)
    | inr later ↦
        let ne : i ≢ f.index = ground (arith, later) in
        add_symbols-some base rounds (suc i) (add_symbol elf base table (elf.getsym i))
          (omega (arith, ne, low)) (omega (arith, high))
  ]

length-fill_sizes : (table : List Sym) → length (fill_sizes table) ≡ length table
unfolding fill_sizes
length-fill_sizes [] = refl
length-fill_sizes (s ∷ []) = refl
length-fill_sizes (s ∷ t ∷ rest) = ap suc (length-fill_sizes (t ∷ rest))

-- there is no table yet, or one that is not empty
abbrev pub IsStarted : Option (List Sym) → Type 0
IsStarted none = Unit
IsStarted (some table) = 0 < length table

-- the program goes on, with such a table
abbrev pub GoesOn : (Option (List Sym) → Type 0) → Opened → Type 0
GoesOn Q (opened syms) = Q syms
GoesOn Q exited = ⊥

-- What the table holds: names of the files, and at least one, unless there is no table.
abbrev pub IsLoaded : (List ℕ → Type 0) → Option (List Sym) → Type 0
IsLoaded P syms = AllNamed P syms × IsStarted syms

module _ (P : List ℕ → Type 0) (qsort : (Sym → Sym → Ordering) → List Sym → List Sym)
    (sorts : IsSort qsort)
    (lengths : (c : Sym → Sym → Ordering) (table : List Sym)
      → length (qsort c table) ≡ length table)
    (bsearch : (Sym → Ordering) → List Sym → Option Sym) (finds : FindsEntry bsearch)
    (reallocarray : ℕ → Bool) (gives : (n : ℕ) → 0 < n → reallocarray n ≡ true) where
  kelf_open-IsStarted :
      (elf : ElfFile) (syms : Option (List Sym)) (base : ℕ)
      → 0 < length (add_symbols elf base elf.symtab_size (length (table_of syms)) (table_of syms))
      → IsStarted (kelf_open qsort bsearch (some elf) syms base)
  unfolding kelf_open
  kelf_open-IsStarted elf syms base grown =
      let table = add_symbols elf base elf.symtab_size (length (table_of syms)) (table_of syms) in
      let e : length (fill_sizes (qsort sym_compare_sort table)) ≡ length table =
        length-fill_sizes (qsort sym_compare_sort table) ∙ lengths sym_compare_sort table in
      rw e grown

  pub open_file-GoesOn :
      (file : Option (Option Elf)) (syms : Option (List Sym)) (base : ℕ)
      → ((elf : Elf) (f : ElfFile)
          → file ≡ some (some elf)
          → elf_file elf ≡ some f
          → HasNames P f × HasFunction f)
      → IsLoaded P syms
      → GoesOn (IsLoaded P) (open_file qsort bsearch reallocarray true file syms base)
  unfolding open_file
  open_file-GoesOn none syms base good loaded = loaded
  open_file-GoesOn (some none) syms base good loaded = loaded
  open_file-GoesOn (some (some elf)) syms base good loaded = go (elf_file elf) refl syms loaded
    where
      go :
          (o : Option ElfFile)
          → elf_file elf ≡ o
          → (syms : Option (List Sym)) → IsLoaded P syms
          → GoesOn
              (IsLoaded P)
              (open_file qsort bsearch reallocarray true (some (some elf)) syms base)
      go none e syms loaded = rw e loaded
      go (some f) e none loaded =
          let (names, function) = good elf f refl e in
          let grown : 0 < length (add_symbols f base f.symtab_size 0 []) =
            add_symbols-some f function base f.symtab_size 0 [] (omega arith)
              (omega (arith, function.inside)) in
          rw (e, gives (length (add_symbols f base f.symtab_size 0 [])) grown)
            (
              kelf_open-AllNamed P qsort sorts bsearch finds (some f) none base
                  (λ g same. let it : f ≡ g = some-injective _ _ same in rw⁻¹ it names) tt,
              kelf_open-IsStarted f none base grown,
            )
      go (some f) e (some table) (all_named, started) =
          let (names, function) = good elf f refl e in
          let (more, _) = add_symbols-fits f base f.symtab_size (length table) table in
          let grown : 0 < length (add_symbols f base f.symtab_size (length table) table) =
            omega (arith, started, more) in
          rw
            (
              e,
              gives (length table + f.symtab_size) (omega (arith, started)),
              gives (length (add_symbols f base f.symtab_size (length table) table)) grown,
            )
            (
              kelf_open-AllNamed P qsort sorts bsearch finds (some f) (some table) base
                  (λ g same. let it : f ≡ g = some-injective _ _ same in rw⁻¹ it names) all_named,
              kelf_open-IsStarted f (some table) base grown,
            )
