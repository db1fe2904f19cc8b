-- ===== src/Save/Others.antt =====
-- `mprofile_save` of mprofile/record.c destroys all profiles but the first one: the sets that are left.
use ossl_scripts.Base.{
  [], some, inl, inr, refl, ◌∷◌, ◌≡◌, ◌==◌, ℕ, List, All, ◌⊎◌, Bool-cases, update, ==_refl, ==_iff,
  ◌∙◌, update_ne, ◌≢◌, arith,
}
use ossl_scripts.Tree.{RbTree, erase}
use ossl_scripts.Stack.{Stray, mps_flag_managed}
use ossl_scripts.Stset.{StackSet, Stacks, create_stset}
use ossl_scripts.Stset.Merge.{Sets}
use ossl_scripts.Stset.Destroy.{destroy_stack, destroy_stacks, remove_both}
use ossl_scripts.Save.Merge.{Saver, Sorting, sorting, destroy_other}

module _ (T : RbTree) (stray : Stray) where
  -- the stacks of the set have been allocated
  abbrev pub IsOwned : Stacks → StackSet T stray → Type 0
  IsOwned stacks set = All (λ e. (stacks e).mps_flags ≡ mps_flag_managed) (T.elems set.stset_rbh)

  -- all stacks are taken off the set
  destroy_stacks-empties :
      (es : List ℕ) (set : StackSet T stray) (stacks : Stacks)
      → All (λ e. (stacks e).mps_flags ≡ mps_flag_managed) es
      → T.elems set.stset_rbh ≡ es
      → (after : StackSet T stray) × (destroy_stacks T stray es set stacks ≡ some (es, after))
        × (T.elems after.stset_rbh ≡ [])
  unfolding destroy_stacks destroy_stack erase
  destroy_stacks-empties [] set stacks managed here = (set, refl, here)
  destroy_stacks-empties (e ∷ es) set stacks managed here =
      let (after, ends, empty) =
        destroy_stacks-empties es (remove_both T stray e set) stacks managed.1
          (T.elems-remove e set.stset_rbh ∙ rw (here, ==_refl e) refl) in
      (after, rw (managed.0, ends) refl, empty)

  -- the set has no stacks
  abbrev pub IsEmpty : StackSet T stray → Type 0
  IsEmpty set = T.elems set.stset_rbh ≡ []

  -- the profile is the first one, or has no stacks
  abbrev pub IsGone : (master : ℕ) → Sets T stray → (mp : ℕ) → Type 0
  IsGone master sets mp = (master ≡ mp) ⊎ IsEmpty (sets mp)

  -- the profile at `mp` is the first one, or its stacks have been allocated
  abbrev pub IsKept : (master : ℕ) → Stacks → Sets T stray → (mp : ℕ) → Type 0
  IsKept master stacks sets mp = (master ≡ mp) ⊎ IsOwned stacks (sets mp)

  -- What `mprofile_destroy` comes to: the set of the first profile is as it was, another one has no
  -- stacks, no set has got a stack that was not allocated, and an empty one stays empty.
  pub record Destroys (master mp : ℕ) (s : Saver T stray) (result : Sorting T stray) : Type 0 where
    pub after : Sets T stray
    pub ends : result ≡ sorting (record s { sets = after })
    pub same : after master ≡ s.sets master
    pub gone : IsGone master after mp
    pub kept : (j : ℕ) → IsKept master s.stacks s.sets j → IsKept master s.stacks after j
    pub stays : (j : ℕ) → IsGone master s.sets j → IsGone master after j

  first_stays :
      (master mp : ℕ) (s : Saver T stray)
      → master ≡ mp
      → Destroys master mp s (destroy_other T stray master mp s)
  unfolding destroy_other
  first_stays master mp s first = record {
    after = s.sets;
    ends = rw (first, ==_refl mp) refl;
    same = refl;
    gone = inl first;
    kept = λ j k. k;
    stays = λ j k. k;
  }

  pub destroy_other-Destroys :
      (master mp : ℕ) (s : Saver T stray)
      → IsKept master s.stacks s.sets mp
      → Destroys master mp s (destroy_other T stray master mp s)
  unfolding destroy_other
  destroy_other-Destroys master mp s (inl first) = first_stays master mp s first
  destroy_other-Destroys master mp s (inr owned) = elim (Bool-cases (master == mp)) [
    | inl first ↦ first_stays master mp s ((==_iff master mp).0 first)
    | inr other ↦
        let (set, ends, empty) =
          destroy_stacks-empties (T.elems (s.sets mp).stset_rbh) (s.sets mp) s.stacks owned refl in
        let ne : mp ≢ master = ground (arith, other) in
        record {
          after = update s.sets mp set;
          ends = rw (other, ends) refl;
          same = update_ne s.sets mp set master ne;
          gone = inr (rw (==_refl mp) empty);
          kept = λ j k. elim (Bool-cases (mp == j)) [
            | inl it ↦ inr (rw (it, empty) tt)
            | inr away ↦ rw away k
          ];
          stays = λ j k. elim (Bool-cases (mp == j)) [
            | inl it ↦ inr (rw it empty)
            | inr away ↦ rw away k
          ];
        }
  ]

  pub All-IsKept :
      (master : ℕ) (stacks : Stacks) (sets after : Sets T stray) (mps : List ℕ)
      → ((j : ℕ) → IsKept master stacks sets j → IsKept master stacks after j)
      → All (IsKept master stacks sets) mps
      → All (IsKept master stacks after) mps
  All-IsKept master stacks sets after [] keep h = tt
  All-IsKept master stacks sets after (mp ∷ mps) keep h =
      (keep mp h.0, All-IsKept master stacks sets after mps keep h.1)

  pub owned-IsKept :
      (master : ℕ) (stacks : Stacks) (sets : Sets T stray) (mps : List ℕ)
      → All (λ mp. IsOwned stacks (sets mp)) mps
      → All (IsKept master stacks sets) mps
  owned-IsKept master stacks sets [] h = tt
  owned-IsKept master stacks sets (mp ∷ mps) h = (inr h.0, owned-IsKept master stacks sets mps h.1)

  pub create_stset-IsOwned : (stacks : Stacks) → IsOwned stacks (create_stset T stray)
  unfolding create_stset
  create_stset-IsOwned stacks = rw T.elems-init tt
