-- ===== src/Stack/Tests.antt =====
-- Call stacks of mprofile/stack.c at concrete frames, and the theorems at them.
use ossl_scripts.Base.{ℕ, refl, [], some, true, ◌∷◌, ◌≡◌, List, arith, get_or}
use ossl_scripts.Stack.{
  init_stack, copy_stack, MpsStack, stack_compare, Stray, eq, scan, collect_backtrace, decide_at,
  word, lt,
}
use ossl_scripts.Stack.Frames.{frames, frames-collect_init}
use ossl_scripts.Stack.Order.{key_compare}
use ossl_scripts.Stack.Compare.{stack_compare-key_compare}

abbrev stack_of : List ℕ → ℕ → MpsStack
stack_of ws depth = record {
  mps_stack_limit = 3;
  mps_id = 0;
  mps_stack_depth = depth;
  mps_flags = 0;
  mps_count = 0;
  mps_thread = 0;
  mps_stack = ws;
}

-- two stacks that differ in the word behind their depth only, and one with another frame
abbrev stack_a : MpsStack
stack_a = stack_of (10 ∷ 20 ∷ 99 ∷ []) 2

abbrev stack_b : MpsStack
stack_b = stack_of (10 ∷ 20 ∷ 77 ∷ []) 2

abbrev stack_c : MpsStack
stack_c = stack_of (10 ∷ 30 ∷ 0 ∷ []) 2

abbrev stray : Stray
stray = record { before = λ m. get_or m.mps_stack 2 0; behind = λ m. get_or m.mps_stack 2 0 }

stack_compare_run :
    (stack_compare stray stack_a stack_b ≡ eq) × (stack_compare stray stack_a stack_c ≡ lt)
unfolding stack_compare scan decide_at word
stack_compare_run = (refl, refl)

stack_compare-key_compare_example :
    stack_compare stray stack_a stack_c ≡ key_compare (10 ∷ 20 ∷ []) (10 ∷ 30 ∷ [])
stack_compare-key_compare_example =
    stack_compare-key_compare stray stack_a stack_c (omega arith) (omega arith) (omega arith)

-- a buffer of 120 bytes has room for two frames
abbrev two_frames : MpsStack
two_frames = record {
  mps_stack_limit = 2;
  mps_id = 0;
  mps_stack_depth = 0;
  mps_flags = 0;
  mps_count = 0;
  mps_thread = 0;
  mps_stack = 0 ∷ 0 ∷ [];
}

two_frames_lem : init_stack 120 ≡ some two_frames
unfolding init_stack
two_frames_lem = refl

frames-collect_init_example : frames (collect_backtrace two_frames (7 ∷ 8 ∷ 9 ∷ [])) ≡ 7 ∷ 8 ∷ []
frames-collect_init_example = frames-collect_init 120 (7 ∷ 8 ∷ 9 ∷ []) two_frames two_frames_lem

abbrev copy_of_a : MpsStack
copy_of_a = record {
  mps_stack_limit = 2;
  mps_id = 5;
  mps_stack_depth = 2;
  mps_flags = 1;
  mps_count = 1;
  mps_thread = 0;
  mps_stack = 10 ∷ 20 ∷ 0 ∷ [];
}

copy_run : copy_stack true 0 5 stack_a ≡ some copy_of_a
unfolding copy_stack
copy_run = refl
