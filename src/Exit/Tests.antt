-- ===== src/Exit/Tests.antt =====
-- The hooks at exit, at the profiles of two threads.
use mathlib.Core.List.Perm
use ossl_scripts.Save.Sorted.{all_records, IsPlain}
use ossl_scripts.Base.{
  [], none, some, true, ◌∷◌, ◌≡◌, ℕ, List, refl, ◌==◌, arith, if◌then◌else◌, not,
}
use ossl_scripts.Save.Others.{create_stset-IsOwned}
use ossl_scripts.Exit.{
  Outside, save_profile_trace, written, save_profile_trace_link_chains, Records,
}
use ossl_scripts.Exit.Valid.{IsPlainOutside, Writes, save_profile_trace-IsJson}
use ossl_scripts.Ksyms.Model.{
  sort_by, length-sort_by, sort_by-IsSort, search_first-FindsEntry, search_first,
}
use ossl_scripts.Tree.Model.{sorted_list}
use ossl_scripts.Save.Sample.{
  nothing_stray, two_queues, no_room, no_sets, no_stacks, three_records, three-IsPlain, numbered,
}
use ossl_scripts.Output.Json.{IsJson}
use ossl_scripts.Record.History.{history, Live, event, opens, nothing_live}
use ossl_scripts.Exit.Chains.{save_profile_trace_link_chains-history}
use ossl_scripts.Record.Build.{linked_all}
use ossl_scripts.Tree.Map.{assign}
use Prim.Native.Nat.{compare}
use ossl_scripts.Record.{state_free}

-- no library is found, and there is no annotation
abbrev pub nothing_outside : Outside
nothing_outside = record {
  qsort = sort_by;
  bsearch = search_first;
  dladdr = λ frame. none;
  version_ok = true;
  reallocarray = λ n. not (n == 0);
  file = λ name. none;
  env = none;
  room = no_room;
}

pub nothing-IsPlainOutside : IsPlainOutside nothing_outside
nothing-IsPlainOutside = record {
  sorts = sort_by-IsSort;
  finds = search_first-FindsEntry;
  annotation = tt;
  lengths = length-sort_by;
  version = refl;
  gives = λ n some_n. ground (arith, some_n);
  files = λ name elf file h e. absurd (let bad : none ≡ some (some elf) = h in cc);
}

save_profile_trace-IsJson_example :
    (file : List ℕ) × (save_profile_trace sorted_list nothing_stray nothing_outside true
        (record { tv_sec = 1; tv_nsec = 2 })
        two_queues
        (1 ∷ 2 ∷ [])
        no_sets
        no_stacks
        three_records
      ≡ written file)
    × IsJson file
unfolding all_records
save_profile_trace-IsJson_example =
    save_profile_trace-IsJson nothing_outside nothing-IsPlainOutside sorted_list nothing_stray true
      (record { tv_sec = 1; tv_nsec = 2 }) two_queues 1 (2 ∷ []) no_sets no_stacks three_records
      three-IsPlain (create_stset-IsOwned sorted_list nothing_stray no_stacks, tt)

-- the last record of the first thread is the release of what the other thread has allocated
abbrev crossing : Records
crossing e =
    if e == 12
    then record (numbered 4) { mpr_mem = 12288; mpr_state = state_free }
    else three_records e

abbrev left : Live
left =
    assign compare (assign compare (assign compare nothing_live 8192 (some 11)) 12288 (some 21))
      12288 none

crossing-IsPlain : IsPlain sorted_list nothing_stray crossing (11 ∷ 12 ∷ 21 ∷ [])
crossing-IsPlain = record { plain = (refl, (refl, (refl, tt))); distinct = ground arith }

crossing-history : history (11 ∷ 21 ∷ 12 ∷ []) crossing nothing_live ≡ some (left, (21, 12) ∷ [])
unfolding history event opens
crossing-history = refl

save_profile_trace_link_chains-history_example :
    Writes nothing_outside nothing-IsPlainOutside sorted_list nothing_stray true
      (record { tv_sec = 1; tv_nsec = 2 })
      (11 ∷ 21 ∷ 12 ∷ [])
      (linked_all ((21, 12) ∷ []) crossing)
      (no_sets 1)
      no_stacks
      (save_profile_trace_link_chains sorted_list nothing_stray nothing_outside true
        (record { tv_sec = 1; tv_nsec = 2 })
        two_queues
        (1 ∷ 2 ∷ [])
        no_sets
        no_stacks
        crossing)
unfolding all_records
save_profile_trace_link_chains-history_example =
    save_profile_trace_link_chains-history nothing_outside nothing-IsPlainOutside sorted_list
      nothing_stray true (record { tv_sec = 1; tv_nsec = 2 }) two_queues 1 (2 ∷ []) no_sets
      no_stacks crossing (11 ∷ 21 ∷ 12 ∷ []) left ((21, 12) ∷ []) crossing-IsPlain
      (create_stset-IsOwned sorted_list nothing_stray no_stacks, tt) (ground arith)
      (Perm.cons 11 (Perm.swap 12 21 [])) (ground arith) crossing-history
