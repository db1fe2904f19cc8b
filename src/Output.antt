-- ===== src/Output.antt =====
-- What the profiler writes: `save_stats` of mprofile/init.c, and `print_mprofile_record`,
-- `print_trace`, `print_stack` and `profile_save` of mprofile/record.c. A file is the list of the bytes
-- written to it so far; every write succeeds.
use ossl_scripts.Base.{
  [], zero, suc, some, true, false, ◌∷◌, ◌==◌, ◌++◌, ◌+◌, ◌-◌, ◌%◌, ◌/◌, ◌^◌, ℕ, List, Bool, ltb,
  if◌then◌else◌, codes, take, Option,
}
use ossl_scripts.Stats.{Memstats, Timespec}
use ossl_scripts.Ksyms.{Printed, symbol_offset, symbol, address}
use ossl_scripts.Record.{MprofileRecord, state_alloc, Records, state_free, state_realloc}
use ossl_scripts.Stack.{MpsStack, walk_stack, get_stack_id, get_stack_count, get_thread_id}
use ossl_scripts.Annotation.{get_annotation}
pub mod Json
pub mod Numerals
pub mod Pieces
pub mod Valid
mod Tests

infixl 60 ◌<<◌
-- `fprintf` of a text
abbrev pub ◌<<◌ : List ℕ → List ℕ → List ℕ
file << text = file ++ text

-- a digit of a numeral
abbrev pub digit : ℕ → ℕ
digit d = if ltb d 10 then b'0' + d else b'a' + (d - 10)

-- one round: `rest` prints what is left above the last digit
abbrev pub with_digit : (is_last : Bool) → (base n : ℕ) → (rest : ℕ → List ℕ) → List ℕ
with_digit true base n rest = digit n ∷ []
with_digit false base n rest = rest (n / base) ++ digit (n % base) ∷ []

-- The numeral of `n` in a base, on fuel.
unfoldable pub numeral : (base fuel n : ℕ) → List ℕ
numeral base zero n = []
numeral base (suc fuel) n = with_digit (ltb n base) base n (numeral base fuel)

-- `%llu`, `%lu` and `%u`; `%lx`
unfoldable pub decimal : ℕ → List ℕ
unfolding numeral
decimal n = numeral 10 (suc n) n

unfoldable pub hexadecimal : ℕ → List ℕ
unfolding numeral
hexadecimal n = numeral 16 (suc n) n

-- `%zd`, `%lld` and `%ld`, of a 64-bit pattern
unfoldable pub signed : ℕ → List ℕ
unfolding decimal
signed w = if ltb w (2 ^ 63) then decimal w else b'-' ∷ decimal (2 ^ 64 - w)

-- `save_stats`; `env` is what `getenv` answers to MPROFILE_ANNOTATION, and `now` the clock
unfoldable pub save_stats : (env : Option (List ℕ)) → (now : Timespec) → Memstats → List ℕ → List ℕ
save_stats env now ms file =
    file
    << codes "{\n"
    << codes "\t\"annotation\" : \""
    << get_annotation env
    << codes "\",\n"
    << codes "\t\"total_allocated_sz\" : "
    << decimal ms.ms_total_allocated
    << codes ",\n"
    << codes "\t\"total_released_sz\" : "
    << decimal ms.ms_total_released
    << codes ",\n"
    << codes "\t\"allocs\" : "
    << decimal ms.ms_allocs
    << codes ",\n"
    << codes "\t\"releases\" : "
    << decimal ms.ms_free
    << codes ",\n"
    << codes "\t\"reallocs\" : "
    << decimal ms.ms_reallocs
    << codes ",\n"
    << codes "\t\"max\" : "
    << decimal ms.ms_max
    << codes ",\n"
    << codes "\t\"tstart\" : {\n"
    << codes "\t\t\"sec\" : "
    << decimal ms.ms_start.tv_sec
    << codes ",\n"
    << codes "\t\t\"nsec\" : "
    << signed ms.ms_start.tv_nsec
    << codes ",\n"
    << codes "\t},\n"
    << codes "\t\"tfinish\" : {\n"
    << codes "\t\t\"sec\" : "
    << decimal now.tv_sec
    << codes ",\n"
    << codes "\t\t\"nsec\" : "
    << signed now.tv_nsec
    << codes ",\n"
    << codes "\t}\n"
    << codes "}"

-- the text of `mpr_state`
abbrev pub state_text : ℕ → List ℕ
state_text state =
    if state == state_alloc
    then codes "\"allocated\""
    else if state == state_free
    then codes "\"free\""
    else if state == state_realloc
    then codes "\"realloc\""
    else codes "\"???\""

unfoldable pub print_mprofile_record : MprofileRecord → List ℕ → List ℕ
print_mprofile_record mpr file =
    file
    << codes "\t{\n"
    << codes "\t\t\"id\" : "
    << decimal mpr.mpr_id
    << codes ",\n"
    << codes "\t\t\"addr\" : "
    << decimal mpr.mpr_mem
    << codes ",\n"
    << codes "\t\t\"realloc\" : "
    << decimal mpr.mpr_realloc
    << codes ",\n"
    << codes "\t\t\"delta_sz\" : "
    << signed mpr.mpr_delta
    << codes ",\n"
    << codes "\t\t\"state\" : "
    << state_text mpr.mpr_state
    << codes ",\n"
    << codes "\t\t\"next_id\" : "
    << decimal mpr.mpr_next_id
    << codes ",\n"
    << codes "\t\t\"prev_id\" : "
    << decimal mpr.mpr_prev_id
    << codes ",\n"
    << codes "\t\t\"stack_id\" : "
    << decimal mpr.mpr_stack_id
    << codes ",\n"
    << codes "\t\t\"time\" : {\n"
    << codes "\t\t\t\"s\" : "
    << signed mpr.mpr_ts.tv_sec
    << codes ",\n"
    << codes "\t\t\t\"ns\" : "
    << decimal mpr.mpr_ts.tv_nsec
    << codes "\n"
    << codes "\t\t}\n"

-- the text that `kelf_snprintsym` prints
unfoldable pub printed_text : Printed → List ℕ
unfolding hexadecimal
printed_text (symbol_offset name offset) = name ++ (codes "+0x" ++ hexadecimal offset)
printed_text (symbol name) = name
printed_text (address pc) = codes "0x" ++ hexadecimal pc

module _ (snprintsym : (frame : ℕ) → Printed) where
  -- `print_trace`, with a buffer of 90 bytes; `snprintsym` is `kelf_snprintsym` of the loaded symbols
  unfoldable pub print_trace : (frame : ℕ) → List ℕ → List ℕ
  unfolding printed_text
  print_trace frame file =
      file << codes "\"" << take 89 (printed_text (snprintsym frame)) << codes "\", "

  unfoldable pub print_stack : MpsStack → List ℕ → List ℕ
  unfolding print_trace
  print_stack m file =
      walk_stack m print_trace (
        file
        << codes "\t{\n"
        << codes "\t\t\"id\" : "
        << decimal (get_stack_id (some m))
        << codes ",\n"
        << codes "\t\t\"stack_count\" : "
        << decimal (get_stack_count (some m))
        << codes ",\n"
        << codes "\t\t\"thread_id\" : "
        << decimal (get_thread_id (some m))
        << codes ",\n"
        << codes "\t\t\"stack_trace\" : [ ")
      << codes "\"\" ]\n"
      << codes "\t}"

  -- the loop of `profile_save` over the records, with `first`
  unfoldable pub print_records : Records → List ℕ → (first : Bool) × List ℕ → Bool × List ℕ
  unfolding print_mprofile_record
  print_records recs [] (first, file) = (first, file)
  print_records recs (r ∷ rs) (first, file) =
      print_records recs rs
        (false, print_mprofile_record (recs r) (if first then file else file << codes "\t},\n"))

  -- what follows the loop
  abbrev pub close_records : Bool × List ℕ → List ℕ
  close_records (first, file) = (if first then file else file << codes "\t}\n") << codes "],\n"

  -- the loop of `profile_save` over the stacks
  unfoldable pub print_stacks : List MpsStack → List ℕ → List ℕ
  unfolding print_stack
  print_stacks [] file = file
  print_stacks (m ∷ []) file = print_stack m file
  print_stacks (m ∷ n ∷ rest) file = print_stacks (n ∷ rest) (print_stack m file << codes ",\n")

  abbrev pub print_set : (stacktrace : Bool) → List MpsStack → List ℕ → List ℕ
  print_set stacktrace stacks file =
      if stacktrace
      then print_stacks stacks (file << codes " \"stacks\" : [\n") << codes "\n]}"
      else file << codes " \"stacks\" : [\n" << codes "]}"

  -- `profile_save` of a profile with this queue and the stacks of its set; `stacktrace` says whether
  -- `_WITH_STACKTRACE` was defined
  unfoldable pub profile_save :
      (stacktrace : Bool)
      → (start_time_tv : Timespec) → (env : Option (List ℕ)) → Records
      → (queue : List ℕ) → List MpsStack
      → List ℕ
      → List ℕ
  unfolding print_records print_stacks
  profile_save stacktrace start_time_tv env recs queue stacks file = print_set stacktrace stacks (
      close_records (
        print_records recs queue (
          true,
          file
              << codes "{ \"start_time\" : {\n"
              << codes "\t\"s\" : "
              << signed start_time_tv.tv_sec
              << codes ",\n"
              << codes "\t\"ns\" : "
              << decimal start_time_tv.tv_nsec
              << codes "\n"
              << codes "  },\n"
              << codes "\t\"annotation\" : \""
              << get_annotation env
              << codes "\",\n"
              << codes "  \"allocations\" : [\n",
        )))
