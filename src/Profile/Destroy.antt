-- ===== src/Profile/Destroy.antt =====
-- `mprofile_destroy` of mprofile/record.c.
use ossl_scripts.Profile.{Mprofile, RbTree, Stray, Stacks}
use ossl_scripts.Stset.Destroy.{destroy_stset}
use ossl_scripts.Base.{[], none, some, refl, ◌∷◌, ◌≡◌, ◌++◌, ℕ, List, Option, ap}

module _ (T : RbTree) (stray : Stray) where
  abbrev framed : (freed : List ℕ) → (mp : ℕ) → Option (List ℕ) → Option (List ℕ)
  framed freed mp none = none
  framed freed mp (some stacks) = some (freed ++ stacks ++ mp ∷ [])

  -- the loop that takes each record off the queue and frees it: what is freed
  pub free_records : List ℕ → List ℕ
  free_records [] = []
  free_records (r ∷ rs) = r ∷ free_records rs

  -- `mprofile_destroy` of the profile at `mp` with its set at `stset`: the addresses that are freed, or none
  -- if an assertion does not hold
  pub destroy : (mp stset : ℕ) → Mprofile T stray → Stacks → Option (List ℕ)
  unfolding free_records
  destroy mp stset profile objs =
      framed (free_records profile.mp_tqhead) mp (destroy_stset T stray stset profile.mp_stset objs)

  -- The records are freed in their order, then the stacks and the set, and the profile last.
  pub destroy-frees :
      (mp stset : ℕ) (profile : Mprofile T stray) (objs : Stacks) (stacks : List ℕ)
      → destroy_stset T stray stset profile.mp_stset objs ≡ some stacks
      → destroy mp stset profile objs ≡ some (profile.mp_tqhead ++ stacks ++ mp ∷ [])
  unfolding destroy free_records
  destroy-frees mp stset profile objs stacks e =
      rw e (ap (λ l. some (l ++ stacks ++ mp ∷ [])) (all profile.mp_tqhead))
    where
      all : (rs : List ℕ) → free_records rs ≡ rs
      all [] = refl
      all (r ∷ rs) = ap (λ l. r ∷ l) (all rs)
