-- ===== src/Ksyms/OpenTests.antt =====
-- A file with a table of symbols of mprofile/ksyms.c, and the theorems at it.
use ossl_scripts.Ksyms.Open.{
  Elf, GElfShdr, Found, scan_scns, is_symtab, is_strtab, elf_file, open_file, exited,
}
use ossl_scripts.Ksyms.Sections.{scan_scns-last, open_file-exits}
use ossl_scripts.Ksyms.Last.{Section}
use ossl_scripts.Ksyms.Model.{sort_by, search_first}
use ossl_scripts.Base.{
  [], none, some, true, arith, refl, ◌∷◌, ◌≡◌, ◌==◌, ℕ, List, map, if◌then◌else◌, codes, not,
}
use ossl_scripts.Shlibs.{str_eq}
use mathlib.Core.Option.{some-injective}

abbrev header : (name type entsize : ℕ) → GElfShdr
header name type entsize = record {
  sh_name = name;
  sh_type = type;
  sh_size = 48;
  sh_entsize = entsize;
}

-- the names of the sections, by offset
abbrev section_name : ℕ → List ℕ
section_name n = if n == 1 then codes ".symtab" else codes ".strtab"

-- a section whose data are one object and no function
abbrev section : (ndx name type entsize : ℕ) → Section
section ndx name type entsize = record {
  scn = record {
    ndxscn = ndx;
    shdr = some (header name type entsize);
    rawdata = some (λ i. some (record { st_name = 9; st_type = 1; st_value = 512; st_size = 8 }));
  };
  name = section_name name;
  shdr = header name type entsize;
}

abbrev sections : List Section
sections = section 4 1 2 24 ∷ section 5 2 3 0 ∷ section 6 1 2 0 ∷ []

abbrev no_code : Elf
no_code = record {
  kind = 3;
  shstrndx = some 7;
  scns = map Section.scn sections;
  strptr = λ ndx offset. some (section_name offset);
}

abbrev nothing : Found
nothing = record { symtab = none; symtab_size = 0; strtabndx = 18446744073709551615 }

-- the third section has no entries, so the first one is the table
scan_scns-last_example :
    scan_scns no_code 7 (map Section.scn sections) nothing
    ≡ some (record { symtab = some (section 4 1 2 24).scn; symtab_size = 2; strtabndx = 5 })
scan_scns-last_example =
    scan_scns-last no_code 7 nothing [] (section 4 1 2 24) (section 5 2 3 0 ∷ section 6 1 2 0 ∷ [])
      (section 4 1 2 24 ∷ []) (section 5 2 3 0) (section 6 1 2 0 ∷ []) refl
      (
        record { header = refl; named = refl },
        (record { header = refl; named = refl }, (record { header = refl; named = refl }, tt)),
      )
      (refl, refl, omega arith)
      (λ h. absurd (omega (arith, h.1)), (λ h. absurd (omega (arith, h.2)), tt)) (refl, refl)
      (λ h. absurd (omega (arith, h.1)), tt)

open_file-exits_example :
    open_file sort_by search_first (λ n. not (n == 0)) true (some (some no_code)) none 4096 ≡ exited
unfolding elf_file scan_scns is_symtab is_strtab str_eq
open_file-exits_example =
    open_file-exits sort_by search_first (λ n. not (n == 0)) no_code
      (record {
        symtab_size = 2;
        getsym = λ i. some (record { st_name = 9; st_type = 1; st_value = 512; st_size = 8 });
        strptr = no_code.strptr 5;
      })
      4096 refl (λ j sym e. rw⁻¹ (some-injective _ _ e) refl) refl
