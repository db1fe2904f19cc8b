-- ===== src/Stack/Frames.antt =====
-- The frames of a call stack of mprofile/stack.c: what the array holds below the depth.
use ossl_scripts.Base.{
  ℕ, refl, [], zero, suc, inl, inr, ◌∷◌, ◌≡◌, ◌++◌, ◌+◌, ◌<◌, ◌≤◌, List, arith, length, take,
  length-set, set, some, ◌-◌, ◌/◌, if◌then◌else◌, sym, ltb, ap, Bool-cases, ltb→lt, lt→ltb, ◌∙◌,
  le→ltb, length-replicate,
}
use ossl_scripts.Stack.{MpsStack, push_frame, collect_backtrace, init_stack}
use native.Mathlib.Numerals.{add-one}
use mathlib.Core.List.{append-nil, append_assoc}

abbrev pub frames : MpsStack → List ℕ
frames m = take m.mps_stack_depth m.mps_stack

-- The array has room for the depth, and for every frame up to the limit.
pub record IsRoomy (m : MpsStack) : Type 0 where
  pub depth : m.mps_stack_depth ≤ m.mps_stack_limit
  pub limit : m.mps_stack_limit ≤ length m.mps_stack

take-set : (ws : List ℕ) (n f : ℕ) → n < length ws → take (n + 1) (set ws n f) ≡ take n ws ++ f ∷ []
take-set [] n f h = absurd (omega arith)
take-set (w ∷ ws) zero f h = refl
take-set (w ∷ ws) (suc n) f h =
    rw add-one (ap (λ t. w ∷ t) (rw add-one at (take-set ws n f (omega arith))))

pub push_frame-IsRoomy : (m : MpsStack) (f : ℕ) → IsRoomy m → IsRoomy (push_frame m f)
unfolding push_frame
push_frame-IsRoomy m f r = ground (arith, length-set m.mps_stack m.mps_stack_depth f)

-- A frame that fits is put behind the others.
pub frames-push_frame :
    (m : MpsStack) (f : ℕ)
    → IsRoomy m
    → frames (push_frame m f)
      ≡ (if ltb m.mps_stack_depth m.mps_stack_limit then frames m ++ f ∷ [] else frames m)
unfolding push_frame
frames-push_frame m f r = elim (Bool-cases (ltb m.mps_stack_depth m.mps_stack_limit)) [
  | inl fits ↦
      rw fits (take-set m.mps_stack m.mps_stack_depth f (omega (arith, ltb→lt _ _ fits, r.limit)))
  | inr full ↦ rw full
]

push_frame-limit : (m : MpsStack) (f : ℕ) → (push_frame m f).mps_stack_limit ≡ m.mps_stack_limit
unfolding push_frame
push_frame-limit m f = ground arith

push_frame-full :
    (m : MpsStack) (f : ℕ) → m.mps_stack_limit ≤ m.mps_stack_depth → push_frame m f ≡ m
unfolding push_frame
push_frame-full m f h = rw (le→ltb m.mps_stack_depth m.mps_stack_limit h)

push_frame-depth :
    (m : MpsStack) (f : ℕ)
    → m.mps_stack_depth < m.mps_stack_limit
    → (push_frame m f).mps_stack_depth ≡ m.mps_stack_depth + 1
unfolding push_frame
push_frame-depth m f h = rw (lt→ltb _ _ h)

-- A stack that holds `n` frames less than its limit takes the first `n` of a backtrace.
frames-collect :
    (fs : List ℕ) (n : ℕ) (m : MpsStack)
    → IsRoomy m
    → m.mps_stack_depth + n ≡ m.mps_stack_limit
    → frames (collect_backtrace m fs) ≡ frames m ++ take n fs
unfolding collect_backtrace
frames-collect [] zero m r h = sym (append-nil (frames m))
frames-collect [] (suc n) m r h = sym (append-nil (frames m))
frames-collect (f ∷ fs) zero m r h =
    rw (collect_backtrace, push_frame-full m f (omega arith)) (frames-collect fs zero m r h)
frames-collect (f ∷ fs) (suc n) m r h =
    let fits = lt→ltb m.mps_stack_depth m.mps_stack_limit (omega arith) in
    frames-collect fs n (push_frame m f) (push_frame-IsRoomy m f r)
      (omega (arith, push_frame-limit m f, push_frame-depth m f (omega arith), h))
    ∙ ap (λ t. t ++ take n fs) (frames-push_frame m f r ∙ rw fits)
    ∙ append_assoc (frames m) (f ∷ []) (take n fs)

init_stack_shape :
    (buf_sz : ℕ) (m : MpsStack)
    → init_stack buf_sz ≡ some m
    → (m.mps_stack_depth ≡ 0)
      × (m.mps_stack_limit ≡ (buf_sz - 104) / 8)
      × (length m.mps_stack ≡ m.mps_stack_limit)
unfolding init_stack
init_stack_shape buf_sz m h = ground (arith, length-replicate {A = ℕ} ((buf_sz - 104) / 8) 0)

-- In a buffer of `buf_sz` bytes a backtrace keeps its first frames, as many as the buffer holds.
pub frames-collect_init :
    (buf_sz : ℕ) (fs : List ℕ) (m : MpsStack)
    → init_stack buf_sz ≡ some m
    → frames (collect_backtrace m fs) ≡ take ((buf_sz - 104) / 8) fs
unfolding init_stack
frames-collect_init buf_sz fs m h =
    let s = init_stack_shape buf_sz m h in
    frames-collect fs ((buf_sz - 104) / 8) m
      (record { depth = omega (arith, s.0); limit = omega (arith, s.1, s.2) })
      (omega (arith, s.0, s.1))
    ∙ ap (λ n. take n m.mps_stack ++ take ((buf_sz - 104) / 8) fs) s.0
