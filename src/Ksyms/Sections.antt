-- ===== src/Ksyms/Sections.antt =====
-- What the loop over the sections in `kelf_open` of mprofile/ksyms.c finds, and when `kelf_open` ends the
-- program.
use ossl_scripts.Ksyms.Open.{
  Elf, Scn, Found, scan_scns, is_symtab, is_strtab, note_scn, note_symtab, note_strtab, go_on,
  note_named, open_file, elf_file, exited,
}
use ossl_scripts.Base.{
  [], none, some, refl, ◌∷◌, ◌≡◌, ◌/◌, ℕ, List, Option, Bool, All, map, ◌∙◌, ap, inl, inr,
  Bool-cases, zero, suc, true, false, ◌==◌, ◌+◌, ◌≤◌, arith, length, length-append, ◌++◌,
}
use ossl_scripts.Words.{◌+w◌}
use ossl_scripts.Ksyms.Last.{
  Section, or_else, last_section, names_symtab, names_strtab, IsSymtab, IsStrtab,
  names_symtab-IsSymtab, names_strtab-IsStrtab, last_section-some, All-not_symtab, All-not_strtab,
}
use ossl_scripts.Ksyms.{
  add_symbols, Sym, ElfFile, Ordering, GElfSym, stt_func, add_named, add_symbol,
}

-- what is read from the section, or the old value if there is none
abbrev pub pick {ℓ} : {A : Type ℓ} → A → (Section → A) → Option Section → A
pick old f none = old
pick old f (some s) = f s

pick-or_else-some {ℓ} :
    {A : Type ℓ} (old : A) (f : Section → A) (o : Option Section) (s : Section)
    → pick (f s) f o ≡ pick old f (or_else o (some s))
pick-or_else-some old f none s = refl
pick-or_else-some old f (some x) s = refl

pick-or_else-none {ℓ} :
    {A : Type ℓ} (old : A) (f : Section → A) (o : Option Section)
    → pick old f o ≡ pick old f (or_else o none)
pick-or_else-none old f none = refl
pick-or_else-none old f (some x) = refl

abbrev make : Option Scn → ℕ → ℕ → Found
make t n i = record { symtab = t; symtab_size = n; strtabndx = i }

make-same :
    (t t' : Option Scn) (n n' i i' : ℕ) → t ≡ t' → n ≡ n' → i ≡ i' → make t n i ≡ make t' n' i'
make-same t t' n n' i i' a b c = rw (a, b, c) refl

-- what the loop has found after these sections
abbrev pub found_in : Found → List Section → Found
found_in found ss = record {
  symtab = pick found.symtab (λ s. some s.scn) (last_section names_symtab ss);
  symtab_size =
      pick found.symtab_size (λ s. s.shdr.sh_size / s.shdr.sh_entsize)
        (last_section names_symtab ss);
  strtabndx = pick found.strtabndx (λ s. s.scn.ndxscn) (last_section names_strtab ss);
}

-- libelf answers the header of the section, and its name
pub record IsRead (elf : Elf) (shstrndx : ℕ) (s : Section) : Type 0 where
  pub header : s.scn.shdr ≡ some s.shdr
  pub named : elf.strptr shstrndx s.shdr.sh_name ≡ some s.name

found-cons :
    (found : Found) (s : Section) (ss : List Section)
    → found_in (note_strtab s.scn s.name s.shdr (note_symtab s.scn s.name s.shdr found)) ss
      ≡ found_in found (s ∷ ss)
unfolding last_section
found-cons found s ss =
    let o = last_section names_symtab ss in
    let o' = last_section names_strtab ss in
    elim (Bool-cases (is_symtab s.name s.shdr)) [
      | inl table ↦ elim (Bool-cases (is_strtab s.name s.shdr)) [
        | inl texts ↦
            rw (table, texts)
              (make-same _ _ _ _ _ _ (pick-or_else-some found.symtab (λ x. some x.scn) o s)
                (pick-or_else-some found.symtab_size (λ x. x.shdr.sh_size / x.shdr.sh_entsize) o s)
                (pick-or_else-some found.strtabndx (λ x. x.scn.ndxscn) o' s))
        | inr other ↦
            rw (table, other)
              (make-same _ _ _ _ _ _ (pick-or_else-some found.symtab (λ x. some x.scn) o s)
                (pick-or_else-some found.symtab_size (λ x. x.shdr.sh_size / x.shdr.sh_entsize) o s)
                (pick-or_else-none found.strtabndx (λ x. x.scn.ndxscn) o'))
      ]
      | inr other ↦ elim (Bool-cases (is_strtab s.name s.shdr)) [
        | inl texts ↦
            rw (other, texts)
              (make-same _ _ _ _ _ _ (pick-or_else-none found.symtab (λ x. some x.scn) o)
                (pick-or_else-none found.symtab_size (λ x. x.shdr.sh_size / x.shdr.sh_entsize) o)
                (pick-or_else-some found.strtabndx (λ x. x.scn.ndxscn) o' s))
        | inr neither ↦
            rw (other, neither)
              (make-same _ _ _ _ _ _ (pick-or_else-none found.symtab (λ x. some x.scn) o)
                (pick-or_else-none found.symtab_size (λ x. x.shdr.sh_size / x.shdr.sh_entsize) o)
                (pick-or_else-none found.strtabndx (λ x. x.scn.ndxscn) o'))
      ]
    ]

scan_scns_lem :
    (elf : Elf) (shstrndx : ℕ) (ss : List Section) (found : Found)
    → All (IsRead elf shstrndx) ss
    → scan_scns elf shstrndx (map Section.scn ss) found ≡ some (found_in found ss)
unfolding scan_scns last_section
scan_scns_lem elf shstrndx [] found read = refl
scan_scns_lem elf shstrndx (s ∷ ss) found read =
    ap (λ o. go_on o (scan_scns elf shstrndx (map Section.scn ss)))
      (ap (note_scn elf shstrndx s.scn found) read.0.header
        ∙ ap (note_named s.scn s.shdr found) read.0.named)
    ∙ scan_scns_lem elf shstrndx ss
        (note_strtab s.scn s.name s.shdr (note_symtab s.scn s.name s.shdr found)) read.1
    ∙ ap (λ (f : Found). some f) (found-cons found s ss)

-- If libelf reads all headers and names, the loop takes the last section that is called .symtab, with
-- the type of a symbol table and entries of some size, the number of these entries, and the index of
-- the last section that is called .strtab, with the type of a table of strings. The file has such
-- sections.
pub scan_scns-last :
    (elf : Elf) (shstrndx : ℕ) (found : Found) (before : List Section) (s : Section)
    (after before' : List Section) (t : Section) (after' : List Section)
    → before ++ s ∷ after ≡ before' ++ t ∷ after'
    → All (IsRead elf shstrndx) (before ++ s ∷ after)
    → IsSymtab s
    → All (λ x. ¬ IsSymtab x) after
    → IsStrtab t
    → All (λ x. ¬ IsStrtab x) after'
    → scan_scns elf shstrndx (map Section.scn (before ++ s ∷ after)) found
      ≡ some (record {
        symtab = some s.scn;
        symtab_size = s.shdr.sh_size / s.shdr.sh_entsize;
        strtabndx = t.scn.ndxscn;
      })
scan_scns-last elf shstrndx found before s after before' t after' same read symbols no_more texts
      no_texts =
    let ss = before ++ s ∷ after in
    let table : last_section names_symtab ss ≡ some s =
      last_section-some names_symtab before s after (names_symtab-IsSymtab s symbols)
        (All-not_symtab after no_more) in
    let strings : last_section names_strtab ss ≡ some t =
      ap (last_section names_strtab) same
      ∙ last_section-some names_strtab before' t after' (names_strtab-IsStrtab t texts)
          (All-not_strtab after' no_texts) in
    scan_scns_lem elf shstrndx ss found read
    ∙ ap (λ (f : Found). some f)
        (make-same _ _ _ _ _ _ (ap (pick found.symtab (λ x. some x.scn)) table)
          (ap (pick found.symtab_size (λ x. x.shdr.sh_size / x.shdr.sh_entsize)) table)
          (ap (pick found.strtabndx (λ x. x.scn.ndxscn)) strings))

no_functions :
    (elf : ElfFile) (base rounds i : ℕ) (table : List Sym)
    → ((j : ℕ) (sym : GElfSym) → elf.getsym j ≡ some sym → (sym.st_type == stt_func) ≡ false)
    → add_symbols elf base rounds i table ≡ table
unfolding add_symbols
no_functions elf base zero i table none_there = refl
no_functions elf base (suc rounds) i table none_there =
    ap (add_symbols elf base rounds (suc i)) (kept (elf.getsym i) refl)
    ∙ no_functions elf base rounds (suc i) table none_there
  where
    kept : (o : Option GElfSym) → elf.getsym i ≡ o → add_symbol elf base table o ≡ table
    kept none e = refl
    kept (some sym) e = rw (none_there i sym e) refl

-- The loop adds at most one symbol in a round, and takes none away, so the table never outgrows the
-- array, which has room for the symbols so far and one for each round.
pub add_symbols-fits :
    (elf : ElfFile) (base rounds i : ℕ) (table : List Sym)
    → (length table ≤ length (add_symbols elf base rounds i table))
      × (length (add_symbols elf base rounds i table) ≤ length table + rounds)
unfolding add_symbols
add_symbols-fits elf base zero i table = (omega arith, omega arith)
add_symbols-fits elf base (suc rounds) i table =
    let (low, high) = one (elf.getsym i) in
    let (below, above) =
      add_symbols-fits elf base rounds (suc i) (add_symbol elf base table (elf.getsym i)) in
    (omega (arith, low, below), omega (arith, high, above))
  where
    named :
        (sym : GElfSym) (o : Option (List ℕ))
        → (length table ≤ length (add_named base sym table o))
          × (length (add_named base sym table o) ≤ length table + 1)
    named sym none = (omega arith, omega arith)
    named sym (some name) =
        let e = length-append table (
          record { sym_name = name; sym_value = sym.st_value +w base; sym_size = sym.st_size }
          ∷ []) in
        (omega (arith, e), omega (arith, e))

    one :
        (o : Option GElfSym)
        → (length table ≤ length (add_symbol elf base table o))
          × (length (add_symbol elf base table o) ≤ length table + 1)
    one none = (omega arith, omega arith)
    one (some sym) = elim (Bool-cases (sym.st_type == stt_func)) [
      | inl function ↦ rw function (named sym (elf.strptr sym.st_name))
      | inr other ↦ rw other (omega arith, omega arith)
    ]

-- If the first file that is opened has no symbol of a function, and `reallocarray` answers NULL to a
-- request for no elements, `kelf_open` ends the program.
pub open_file-exits :
    (qsort : (Sym → Sym → Ordering) → List Sym → List Sym)
    (bsearch : (Sym → Ordering) → List Sym → Option Sym) (reallocarray : ℕ → Bool) (elf : Elf)
    (file : ElfFile) (base : ℕ)
    → elf_file elf ≡ some file
    → ((j : ℕ) (sym : GElfSym) → file.getsym j ≡ some sym → (sym.st_type == stt_func) ≡ false)
    → reallocarray 0 ≡ false
    → open_file qsort bsearch reallocarray true (some (some elf)) none base ≡ exited
unfolding open_file
open_file-exits qsort bsearch reallocarray elf file base e none_there null =
    rw (e, no_functions file base file.symtab_size 0 [] none_there, null) refl
