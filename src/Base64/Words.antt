-- ===== src/Base64/Words.antt =====
-- base64.so/explicit.c: the tables of words, `wordToFlag`, `parseFlags` and `parseExitHandler`. Texts are
-- lists of bytes. The values of the RTLD_* constants come from <dlfcn.h> and are a parameter.
use ossl_scripts.Base.{
  [], zero, suc, none, some, true, false, ◌∷◌, ◌==◌, ◌+◌, ℕ, List, Option, Bool, ◌&&◌, ◌||◌,
  if◌then◌else◌, codes, leb,
}
use Prim.Native.Nat.{bit_or, bit_and}

-- the RTLD_* constants
pub record Dlfcn : Type 0 where
  pub rtld_now : ℕ
  pub rtld_lazy : ℕ
  pub rtld_global : ℕ
  pub rtld_local : ℕ

-- `struct TableEntry`, without the last entry, which has NULL and -1
pub record TableEntry : Type 0 where
  pub flag_name : List ℕ
  pub flag : ℕ

abbrev pub to_lower : ℕ → ℕ
to_lower c = if leb b'A' c && leb c b'Z' then c + 32 else c

-- whether `hay` starts with `needle`, whatever the case
unfoldable pub starts : (needle hay : List ℕ) → Bool
starts [] hay = true
starts (n ∷ ns) [] = false
starts (n ∷ ns) (h ∷ hs) = to_lower n == to_lower h && starts ns hs

-- `strcasestr(hay, needle) != NULL`
unfoldable pub strcasestr : (hay needle : List ℕ) → Bool
unfolding starts
strcasestr [] needle = starts needle []
strcasestr (h ∷ hs) needle = starts needle (h ∷ hs) || strcasestr hs needle

-- `wordToFlag`: `none` is -1
unfoldable pub word_to_flag : List TableEntry → (word : List ℕ) → Option ℕ
unfolding strcasestr
word_to_flag [] word = none
word_to_flag (t ∷ ts) word =
    if strcasestr t.flag_name word then some t.flag else word_to_flag ts word

abbrev pub entry : List ℕ → ℕ → TableEntry
entry name value = record { flag_name = name; flag = value }

abbrev pub word_now : List ℕ
word_now = codes "now"

abbrev pub word_lazy : List ℕ
word_lazy = codes "lazy"

abbrev pub word_global : List ℕ
word_global = codes "global"

abbrev pub word_local : List ℕ
word_local = codes "local"

-- the table of `nameToFlag`
abbrev pub flag_table : Dlfcn → List TableEntry
flag_table d =
    entry word_now d.rtld_now
    ∷ entry word_lazy d.rtld_lazy
    ∷ entry word_global d.rtld_global
    ∷ entry word_local d.rtld_local
    ∷ []

-- `nameToFlag`; at `none` the program ends with an error
unfoldable pub name_to_flag : Dlfcn → (flag : List ℕ) → Option ℕ
unfolding word_to_flag
name_to_flag d flag = word_to_flag (flag_table d) flag

-- MAIN_AT_EXIT and BASE64_AT_EXIT
abbrev pub main_at_exit_flag : ℕ
main_at_exit_flag = 1

abbrev pub base64_at_exit_flag : ℕ
base64_at_exit_flag = 2

abbrev pub exit_table : List TableEntry
exit_table =
    entry (codes "mainAtExit") main_at_exit_flag
    ∷ entry (codes "base64AtExit") base64_at_exit_flag
    ∷ []

-- `nameToExitFunc`
unfoldable pub name_to_exit_func : (at_exit : List ℕ) → Option ℕ
unfolding word_to_flag
name_to_exit_func = word_to_flag exit_table

-- what `strchr` cuts a text into: what stands in front of the first separator, and between the others
unfoldable pub pieces : (sep : ℕ) → List ℕ → List ℕ × List (List ℕ)
pieces sep [] = ([], [])
pieces sep (c ∷ cs) =
    let (word, rest) = pieces sep cs in if c == sep then ([], word ∷ rest) else (c ∷ word, rest)

-- `invalid` and `exclusive` end the program with an error, and so does `usage`
pub data Parsed : Type 0 where
  parsed : ℕ → Parsed
  usage : Parsed
  invalid : (word : List ℕ) → Parsed
  exclusive : Parsed

-- the last test of `parseFlags`
unfoldable pub checked : Dlfcn → ℕ → Parsed
checked d rv =
    let both = bit_or d.rtld_now d.rtld_lazy in
    if bit_and rv both == both then exclusive else parsed rv

-- the part of `parseFlags` behind the loop
abbrev pub with_flag : List ℕ → (ℕ → Parsed) → Option ℕ → Parsed
with_flag word k none = invalid word
with_flag word k (some f) = k f

abbrev pub is_nil : List ℕ → Bool
is_nil [] = true
is_nil (c ∷ cs) = false

unfoldable pub last_flag : Dlfcn → (rv : ℕ) → (word : List ℕ) → Parsed
unfolding checked
last_flag d rv word =
    if rv == 0 && is_nil word
    then usage
    else with_flag word (λ f. checked d (bit_or rv f)) (name_to_flag d word)

-- the loop of `parseFlags`, over the words in front of a separator
unfoldable pub parse_words : Dlfcn → (rv : ℕ) → (word : List ℕ) → (rest : List (List ℕ)) → Parsed
unfolding last_flag
parse_words d rv word [] = last_flag d rv word
parse_words d rv word (next ∷ rest) =
    with_flag word (λ f. parse_words d (bit_or rv f) next rest) (name_to_flag d word)

-- `parseFlags`
unfoldable pub parse_flags : Dlfcn → (flags : List ℕ) → Parsed
unfolding parse_words pieces
parse_flags d flags = let (word, rest) = pieces b'|' flags in parse_words d 0 word rest

-- The loop of `parseExitHandler`, on fuel: the copy `a` ends at its first comma after one round, and
-- the name that is looked up is the whole argument. `none` means that the fuel ran out.
unfoldable pub exit_loop :
    (fuel : ℕ) → (at_exit : List ℕ) → (a : List ℕ × List (List ℕ)) → (rv : ℕ) → Option Parsed
exit_loop fuel at_exit (a, []) rv =
    some (with_flag at_exit (λ f. parsed (bit_or rv f)) (name_to_exit_func at_exit))
exit_loop zero at_exit (a, next ∷ rest) rv = none
exit_loop (suc fuel) at_exit (a, next ∷ rest) rv = elim (name_to_exit_func at_exit) [
  | none ↦ some (invalid at_exit)
  | some f ↦ exit_loop fuel at_exit (a, []) (bit_or rv f)
]

-- `parseExitHandler`
unfoldable pub parse_exit_handler : (at_exit : List ℕ) → Option Parsed
unfolding exit_loop name_to_exit_func pieces
parse_exit_handler at_exit = exit_loop 1 at_exit (pieces b',' at_exit) 0
