-- ===== src/Save/Drain.antt =====
-- The last loop of `mprofile_save` of mprofile/record.c ends, and keeps the order of the tree.
use ossl_scripts.Base.{[], some, refl, ◌∷◌, ◌≡◌, ◌++◌, ℕ, List, length, ap, sym, ◌∙◌, ==_refl}
use ossl_scripts.Tree.{RbTree, erase}
use ossl_scripts.Save.{drain}
use mathlib.Core.List.{append-nil, append_assoc}

module _ (T : RbTree) where
  drain-elems :
      (xs queue : List ℕ) (t : T.Head)
      → T.elems t ≡ xs
      → drain T (length xs) t queue ≡ some (queue ++ xs)
  unfolding drain erase
  drain-elems [] queue t e =
      rw (T.min-elems t, e) (ap (λ (l : List ℕ). some l) (sym (append-nil queue)))
  drain-elems (x ∷ xs) queue t e =
      rw (T.min-elems t, e)
        (drain-elems xs (queue ++ x ∷ []) (T.remove x t)
            (T.elems-remove x t ∙ rw (e, ==_refl x) refl)
          ∙ ap (λ (l : List ℕ). some l) (append_assoc queue (x ∷ []) xs))

  -- With as many rounds as the tree has records the loop ends: it appends the records of the tree to
  -- the queue, all of them and in the order of the tree.
  pub drain_lem :
      (t : T.Head) (queue : List ℕ)
      → drain T (length (T.elems t)) t queue ≡ some (queue ++ T.elems t)
  drain_lem t queue = drain-elems (T.elems t) queue t refl
