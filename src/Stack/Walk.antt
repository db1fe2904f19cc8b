-- ===== src/Stack/Walk.antt =====
-- What holds after `mprofile_walk_stack` of mprofile/stack.c, for a function that keeps it.
use ossl_scripts.Stack.{walk_stack, walk_words, MpsStack}
use ossl_scripts.Base.{[], ◌∷◌, ℕ, List, All, take}
use ossl_scripts.Stack.Frames.{frames}

module _ {S : Type 0} (walk_f : ℕ → S → S) where
  walk_words-keeps :
      (P : S → Type 0)
      → ((w : ℕ) (s : S) → P s → P (walk_f w s))
      → (ws : List ℕ) (s : S) → P s
      → P (walk_words walk_f ws s)
  unfolding walk_words
  walk_words-keeps P keep [] s p = p
  walk_words-keeps P keep (w ∷ ws) s p = walk_words-keeps P keep ws (walk_f w s) (keep w s p)

  pub walk_stack-keeps :
      (P : S → Type 0)
      → ((w : ℕ) (s : S) → P s → P (walk_f w s))
      → (m : MpsStack) (s : S) → P s
      → P (walk_stack m walk_f s)
  unfolding walk_stack
  walk_stack-keeps P keep m s p = walk_words-keeps P keep (take m.mps_stack_depth m.mps_stack) s p

  -- What the function brings about at a frame, and keeps at all others, holds at every frame.
  module _ (P : ℕ → S → Type 0) (makes : (w : ℕ) (s : S) → P w (walk_f w s))
      (keeps : (v w : ℕ) (s : S) → P v s → P v (walk_f w s)) where
    walk_words-All : (ws : List ℕ) (s : S) → All (λ v. P v (walk_words walk_f ws s)) ws
    unfolding walk_words
    walk_words-All [] s = tt
    walk_words-All (w ∷ ws) s = (
      walk_words-keeps (P w) (keeps w) ws (walk_f w s) (makes w s),
      walk_words-All ws (walk_f w s),
    )

    pub walk_stack-All : (m : MpsStack) (s : S) → All (λ v. P v (walk_stack m walk_f s)) (frames m)
    unfolding walk_stack
    walk_stack-All m s = walk_words-All (take m.mps_stack_depth m.mps_stack) s
