-- ===== src/Ksyms/Lookup.antt =====
-- What `kelf_snprintsym` of mprofile/ksyms.c answers.
use ossl_scripts.Base.{
  ◌⊎◌, if◌then◌else◌, none, some, inl, inr, refl, ◌≡◌, ◌==◌, ◌-◌, ◌<◌, ◌≤◌, ◌^◌, ℕ, List, Option,
  arith,
}
use ossl_scripts.Ksyms.{
  Sym, Printed, kelf_snprintsym, sym_compare_search, print_entry, address, symbol, symbol_offset,
  Ordering, eq,
}
use ossl_scripts.Words.{◌+w◌, ◌-w◌}

-- an answer of `bsearch` compares equal
abbrev pub IsSearch : ((Sym → Ordering) → List Sym → Option Sym) → Type 0
IsSearch bsearch =
    (c : Sym → Ordering) (table : List Sym) (e : Sym) → bsearch c table ≡ some e → c e ≡ eq

module _ (qsort : (Sym → Sym → Ordering) → List Sym → List Sym)
    (bsearch : (Sym → Ordering) → List Sym → Option Sym) where
  search-eq :
      (pc : ℕ) (e : Sym)
      → sym_compare_search pc e ≡ eq
      → (e.sym_value ≤ pc) × (pc < e.sym_value +w e.sym_size)
  unfolding sym_compare_search
  search-eq pc e h = ground arith

  -- the entry that `bsearch` answers, and what is printed of it
  abbrev pub IsNamed : (pc : ℕ) → Printed → Sym → Type 0
  IsNamed pc p e =
      (e.sym_value ≤ pc)
      × (pc < e.sym_value +w e.sym_size)
      × (p ≡ (
          if pc == e.sym_value
          then symbol e.sym_name
          else symbol_offset e.sym_name (pc - e.sym_value)))

  print_entry-IsNamed :
      (pc : ℕ) (e : Sym)
      → pc < 2 ^ 64
      → sym_compare_search pc e ≡ eq
      → IsNamed pc (print_entry qsort bsearch pc 0 (some e)) e
  unfolding print_entry
  print_entry-IsNamed pc e small h =
      let (low, high) = search-eq pc e h in
      let back : pc -w (e.sym_value +w 0) ≡ pc - e.sym_value = omega arith in
      (low, high, rw back (ground arith))

  -- For a 64-bit address and the offset 0, if what `bsearch` answers compares equal,
  -- `bsearch` answers no symbol, and `kelf_snprintsym` prints the address itself; or it prints the name
  -- of the symbol that `bsearch` answers, in whose range the address lies, with the exact offset from
  -- its start.
  pub kelf_snprintsym_lem :
      (table : List Sym) (pc : ℕ)
      → IsSearch bsearch
      → pc < 2 ^ 64
      → ((bsearch (sym_compare_search pc) table ≡ none)
          × (kelf_snprintsym qsort bsearch (some table) pc 0 ≡ address pc))
        ⊎ ((e : Sym) × (bsearch (sym_compare_search pc) table ≡ some e)
            × IsNamed pc (kelf_snprintsym qsort bsearch (some table) pc 0) e)
  unfolding kelf_snprintsym print_entry
  kelf_snprintsym_lem table pc search small =
      let here : pc +w 0 ≡ pc = omega arith in
      rw here (go (bsearch (sym_compare_search pc) table) refl)
    where
      go :
          (o : Option Sym)
          → bsearch (sym_compare_search pc) table ≡ o
          → ((o ≡ none) × (print_entry qsort bsearch pc 0 o ≡ address pc))
            ⊎ ((e : Sym) × (o ≡ some e) × IsNamed pc (print_entry qsort bsearch pc 0 o) e)
      go none h = inl (refl, refl)
      go (some e) h =
          inr (e, refl, print_entry-IsNamed pc e small (search (sym_compare_search pc) table e h))
