-- ===== src/Save.antt =====
-- mprofile/record.c: the end of `mprofile_save`, which takes the records out of the tree that sorts
-- them and appends them to the queue of the first profile.
use ossl_scripts.Base.{
  [], zero, suc, none, some, ◌∷◌, ◌++◌, ℕ, List, Option, if◌then◌else◌, true, false, Bool,
}
use ossl_scripts.Tree.{RbTree}
pub mod Drain
pub mod Merge
pub mod Others
pub mod Sorted
pub mod Alone
pub mod Unique
pub mod Sample
mod Tests

-- `RB_EMPTY`, of what `RB_MIN` answers
abbrev pub is_empty : Option ℕ → Bool
is_empty none = true
is_empty (some _) = false

module _ (T : RbTree) where
  -- one round, with what `RB_MIN` answers: the queue and the tree after it
  abbrev pub take_first : T.Head → (queue : List ℕ) → Option ℕ → List ℕ × T.Head
  take_first sorter queue none = (queue, sorter)
  take_first sorter queue (some r) = (queue ++ r ∷ [], T.remove r sorter)

  -- The loop `while (!RB_EMPTY(&sorter))`, on fuel; `none` if it runs out.
  pub drain : (fuel : ℕ) → T.Head → (queue : List ℕ) → Option (List ℕ)
  drain zero sorter queue = if is_empty (T.min sorter) then some queue else none
  drain (suc fuel) sorter queue =
      let next = take_first sorter queue (T.min sorter) in
      let rest = drain fuel next.1 next.0 in if is_empty (T.min sorter) then some queue else rest
