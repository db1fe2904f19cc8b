-- ===== src/Output/Valid.antt =====
-- What the reader of Json makes of the files that `profile_save` and `save_stats` write.
use ossl_scripts.Base.{
  refl, ◌∷◌, ◌++◌, ℕ, List, codes, [], some, take, true, false, Bool, arith, none, Option, All, ◌≢◌,
}
use ossl_scripts.Ksyms.Names.{NameOf}
use ossl_scripts.Output.{
  signed, ◌<<◌, decimal, printed_text, print_trace, print_stacks, print_stack, hexadecimal,
  print_records, profile_save, print_set, close_records, save_stats,
}
use ossl_scripts.Ksyms.{Printed, symbol_offset, symbol, address}
use ossl_scripts.Stack.{MpsStack, get_thread_id, get_stack_count, get_stack_id}
use ossl_scripts.Stats.{Memstats, Timespec}
use ossl_scripts.Record.{Records}
use ossl_scripts.Annotation.{get_annotation, quote}
use ossl_scripts.Output.Json.{
  Container, read, reader, reading, value, behind_value, object, in_text, element_or_end, key,
  read-plain, array, IsJson, refused, read_refused,
}
use ossl_scripts.Output.Numerals.{AllPlain, append-AllPlain, take-AllPlain, hexadecimal-AllPlain}
use ossl_scripts.Stack.Walk.{walk_stack-keeps}
use ossl_scripts.Output.Pieces.{
  LeadsTo, WantsElement, next, fixed, first, write-element, quoted, print_mprofile_record-open,
  last_member, signed_member, member,
}
use ossl_scripts.Annotation.Escape.{get_annotation-plain}

printed_text-AllPlain : (p : Printed) → NameOf AllPlain p → AllPlain (printed_text p)
unfolding printed_text
printed_text-AllPlain (symbol_offset name offset) plain =
    append-AllPlain name (codes "+0x" ++ hexadecimal offset) plain (
      append-AllPlain (codes "+0x") (hexadecimal offset) (refl, (refl, (refl, tt)))
        (hexadecimal-AllPlain offset))
printed_text-AllPlain (symbol name) plain = plain
printed_text-AllPlain (address pc) plain =
    append-AllPlain (codes "0x") (hexadecimal pc) (refl, (refl, tt)) (hexadecimal-AllPlain pc)

-- The annotation in the environment, if there is one, is a text of plain characters.
abbrev pub IsPlainEnv : Option (List ℕ) → Type 0
IsPlainEnv none = Unit
IsPlainEnv (some annotation) = AllPlain annotation

get_annotation-AllPlain : (env : Option (List ℕ)) → IsPlainEnv env → AllPlain (get_annotation env)
unfolding get_annotation
get_annotation-AllPlain none plain = ground arith
get_annotation-AllPlain (some annotation) plain =
    rw (get_annotation-plain annotation (no_quotes annotation plain))
      (take-AllPlain 511 annotation plain)
  where
    no_quotes : (xs : List ℕ) → AllPlain xs → All (λ c. c ≢ quote) xs
    no_quotes [] p = tt
    no_quotes (x ∷ xs) (p, ps) = (ground arith, no_quotes xs ps)

module _ (snprintsym : (frame : ℕ) → Printed)
    (plain : (frame : ℕ) → NameOf AllPlain (snprintsym frame)) where
  print_trace-next :
      (frame : ℕ) {file : List ℕ} {stack : List Container}
      → WantsElement file stack
      → WantsElement (print_trace snprintsym frame file) stack
  unfolding print_trace read
  print_trace-next frame {file} {stack} wants = next (
      fixed (codes "\", ") refl (
        fixed (take 89 (printed_text (snprintsym frame)))
          (read-plain in_text (take 89 (printed_text (snprintsym frame))) (array ∷ stack)
            (λ c p. rw p refl)
            (take-AllPlain 89 (printed_text (snprintsym frame))
              (printed_text-AllPlain (snprintsym frame) (plain frame))))
          (write-element (codes "\"") wants refl refl)))

  print_stack-value :
      (m : MpsStack) {file : List ℕ} {stack : List Container}
      → WantsElement file stack
      → LeadsTo (print_stack snprintsym m file) (reading behind_value (array ∷ stack))
  unfolding print_stack read
  print_stack-value m {stack = stack} wants = fixed (codes "\t}") refl (
      write-element (codes "\"\" ]\n")
        (walk_stack-keeps (print_trace snprintsym) (λ f. WantsElement f (object ∷ array ∷ stack))
          (λ w f wants'. print_trace-next w wants') m _
          (first (
            fixed (codes "\t\t\"stack_trace\" : [ ") refl (
              member (codes "\t\t\"thread_id\" : ") refl (get_thread_id (some m)) (
                member (codes "\t\t\"stack_count\" : ") refl (get_stack_count (some m)) (
                  member (codes "\t\t\"id\" : ") refl (get_stack_id (some m))
                    (write-element (codes "\t{\n") wants refl refl)))))))
        refl refl)

  -- where the loop over the stacks may end
  abbrev SetEnds : List ℕ → Type 0
  SetEnds file = LeadsTo (file << codes "\n]}") (reading behind_value [])

  print_more_stacks :
      (m : MpsStack) (ms : List MpsStack) {file : List ℕ}
      → WantsElement file (object ∷ [])
      → SetEnds (print_stacks snprintsym (m ∷ ms) file)
  unfolding print_stacks read
  print_more_stacks m [] wants = fixed (codes "\n]}") refl (print_stack-value m wants)
  print_more_stacks m (n ∷ ms) wants =
      print_more_stacks n ms (next (fixed (codes ",\n") refl (print_stack-value m wants)))

  print_stacks-end :
      (ms : List MpsStack) {file : List ℕ}
      → LeadsTo file (reading element_or_end (array ∷ object ∷ []))
      → SetEnds (print_stacks snprintsym ms file)
  unfolding print_stacks read
  print_stacks-end [] before = fixed (codes "\n]}") refl before
  print_stacks-end (m ∷ ms) before = print_more_stacks m ms (first before)

  print_records-started :
      (recs : Records) (rs : List ℕ) {file : List ℕ}
      → LeadsTo file (reading behind_value (object ∷ array ∷ object ∷ []))
      → LeadsTo
          (close_records snprintsym (print_records snprintsym recs rs (false, file)))
          (reading key (object ∷ []))
  unfolding print_records read
  print_records-started recs [] before =
      fixed (codes "],\n") refl (fixed (codes "\t}\n") refl before)
  print_records-started recs (r ∷ rs) before =
      print_records-started recs rs
        (print_mprofile_record-open (recs r) (next (fixed (codes "\t},\n") refl before)))

  print_records-closed :
      (recs : Records) (rs : List ℕ) {file : List ℕ}
      → LeadsTo file (reading element_or_end (array ∷ object ∷ []))
      → LeadsTo
          (close_records snprintsym (print_records snprintsym recs rs (true, file)))
          (reading key (object ∷ []))
  unfolding print_records read
  print_records-closed recs [] before = fixed (codes "],\n") refl before
  print_records-closed recs (r ∷ rs) before =
      print_records-started recs rs (print_mprofile_record-open (recs r) (first before))

  print_set-end :
      (stacktrace : Bool) (stacks : List MpsStack) {file : List ℕ}
      → LeadsTo file (reading key (object ∷ []))
      → LeadsTo (print_set snprintsym stacktrace stacks file) (reading behind_value [])
  unfolding read
  print_set-end true stacks before =
      print_stacks-end stacks (fixed (codes " \"stacks\" : [\n") refl before)
  print_set-end false stacks before =
      fixed (codes "]}") refl (fixed (codes " \"stacks\" : [\n") refl before)

  -- If the annotation and the names of symbols are printable ASCII without quotation marks and
  -- backslashes, what `profile_save` writes is JSON, whatever the records and the stacks.
  pub profile_save-IsJson :
      (stacktrace : Bool) (start_time_tv : Timespec) (env : Option (List ℕ))
      → IsPlainEnv env
      → (recs : Records) (queue : List ℕ) (stacks : List MpsStack)
      → IsJson (profile_save snprintsym stacktrace start_time_tv env recs queue stacks [])
  unfolding profile_save read reader
  profile_save-IsJson stacktrace time env plain_env recs queue stacks =
      (print_set-end stacktrace stacks (
        print_records-closed recs queue (
          fixed (codes "  \"allocations\" : [\n") refl (
            quoted (codes "\t\"annotation\" : \"") (get_annotation env) (codes "\",\n") refl
              (get_annotation-AllPlain env plain_env) refl
              (fixed (codes "  },\n") refl (
                last_member (codes "\t\"ns\" : ") refl time.tv_nsec (
                  signed_member (codes "\t\"s\" : ") refl time.tv_sec (
                    fixed {file = []} {s = reading value []} (codes "{ \"start_time\" : {\n") refl
                      (record { at = refl }))))))))).at

-- a reader that has refused the file goes on refusing it
still : {file : List ℕ} (xs : List ℕ) → LeadsTo file refused → LeadsTo (file ++ xs) refused
still xs before = fixed xs (read_refused xs) before

refused_stats :
    (env : Option (List ℕ))
    → IsPlainEnv env
    → (now : Timespec) (ms : Memstats) → LeadsTo (save_stats env now ms []) refused
unfolding save_stats read reader
refused_stats env plain now ms = still (codes "}") (
    still (codes "\t}\n") (
      still (codes ",\n") (
        still (signed now.tv_nsec) (
          still (codes "\t\t\"nsec\" : ") (
            still (codes ",\n") (
              still (decimal now.tv_sec) (
                still (codes "\t\t\"sec\" : ") (
                  still (codes "\t\"tfinish\" : {\n") (
                    fixed (codes "\t},\n") refl (
                      signed_member (codes "\t\t\"nsec\" : ") refl ms.ms_start.tv_nsec (
                        member (codes "\t\t\"sec\" : ") refl ms.ms_start.tv_sec (
                          fixed (codes "\t\"tstart\" : {\n") refl (
                            member (codes "\t\"max\" : ") refl ms.ms_max (
                              member (codes "\t\"reallocs\" : ") refl ms.ms_reallocs (
                                member (codes "\t\"releases\" : ") refl ms.ms_free (
                                  member (codes "\t\"allocs\" : ") refl ms.ms_allocs (
                                    member (codes "\t\"total_released_sz\" : ") refl
                                      ms.ms_total_released
                                      (member (codes "\t\"total_allocated_sz\" : ") refl
                                        ms.ms_total_allocated
                                        (quoted (codes "\t\"annotation\" : \"") (get_annotation env)
                                          (codes "\",\n") refl (get_annotation-AllPlain env plain)
                                          refl
                                          (fixed {file = []} {s = reading value []} (codes "{\n")
                                            refl (record { at = refl })))))))))))))))))))))

-- What `save_stats` writes is never JSON: the comma behind "nsec" is refused. The annotation is printable
-- ASCII without quotation marks and backslashes.
pub save_stats-refused :
    (env : Option (List ℕ))
    → IsPlainEnv env
    → (now : Timespec) (ms : Memstats) → ¬ IsJson (save_stats env now ms [])
unfolding read reader
save_stats-refused env plain now ms json = ground (arith, json, (refused_stats env plain now ms).at)
