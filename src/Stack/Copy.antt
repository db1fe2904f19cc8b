-- ===== src/Stack/Copy.antt =====
-- `mprofile_copy_stack` of mprofile/stack.c.
use ossl_scripts.Base.{
  ℕ, refl, [], zero, suc, some, true, ◌∷◌, ◌≡◌, ◌==◌, ◌++◌, ◌≤◌, List, arith, length, take, ap,
  if◌then◌else◌, length-append, length-take_of_le, le→ltb,
}
use ossl_scripts.Stack.{copy_stack, push_frame, MpsStack, mps_flag_managed}
use ossl_scripts.Stack.Compare.{IsFilled}
use ossl_scripts.Stack.Frames.{frames}
use mathlib.Core.Path.{subst}
use mathlib.Core.Option.{some-injective}
use native.Mathlib.Nat.{le_refl}

take-take_append : (n : ℕ) (ws zs : List ℕ) → n ≤ length ws → take n (take n ws ++ zs) ≡ take n ws
take-take_append zero ws zs h = refl
take-take_append (suc n) [] zs h = absurd (omega arith)
take-take_append (suc n) (w ∷ ws) zs h = ap (λ t. w ∷ t) (take-take_append n ws zs (omega arith))

-- A copy has the frames of its original and room for them, takes no further frame, and is marked
-- as allocated. It keeps the count of an allocated original, and counts any other as one use.
pub copy_stack_lem :
    (junk junk_id : ℕ) (m c : MpsStack)
    → IsFilled m
    → copy_stack true junk junk_id m ≡ some c
    → (frames c ≡ frames m)
      × IsFilled c
      × ((f : ℕ) → push_frame c f ≡ c)
      × (c.mps_flags ≡ mps_flag_managed)
      × (c.mps_count ≡ (if m.mps_flags == mps_flag_managed then m.mps_count else 1))
unfolding copy_stack push_frame
copy_stack_lem junk junk_id m c h e =
    subst
      (λ (c : MpsStack).
        (frames c ≡ frames m)
        × IsFilled c
        × ((f : ℕ) → push_frame c f ≡ c)
        × (c.mps_flags ≡ mps_flag_managed)
        × (c.mps_count ≡ (if m.mps_flags == mps_flag_managed then m.mps_count else 1)))
      (some-injective _ _ e)
      (
        take-take_append m.mps_stack_depth m.mps_stack (junk ∷ []) h,
        omega (
          arith,
          length-append (take m.mps_stack_depth m.mps_stack) (junk ∷ []),
          length-take_of_le m.mps_stack_depth m.mps_stack h,
        ),
        (λ f. rw (le→ltb m.mps_stack_depth m.mps_stack_depth (le_refl m.mps_stack_depth)) refl),
        refl,
        refl,
      )
