-- ===== src/Shlibs/Load.antt =====
-- Which libraries `load_syms` of mprofile/record.c finds.
use ossl_scripts.Base.{
  [], none, some, true, refl, ◌∷◌, ◌≡◌, ℕ, List, Option, length, ◌⊎◌, All, ◌∙◌, zero, suc,
  replicate,
}
use ossl_scripts.Shlibs.{
  DlInfo, walk_stack, walk_stacks, Shlib, MpsStack, add_dlinfo, no_shlibs, no_shlib, open_shlibs,
  open_named, load_syms,
}
use ossl_scripts.Shlibs.Table.{
  IsTable, has, add_shlib-keeps, add_shlib-IsTable, add_shlib-has, is_full,
}
use ossl_scripts.Stack.Walk.{walk_stack-keeps, walk_stack-All}
use ossl_scripts.Stack.Frames.{frames}

empty-IsTable : (n : ℕ) → IsTable (replicate n no_shlib)
empty-IsTable zero = tt
empty-IsTable (suc n) = (all_empty n, empty-IsTable n)
  where
    all_empty : (n : ℕ) → All (λ e. e.shl_name ≡ none) (replicate n no_shlib)
    all_empty zero = tt
    all_empty (suc n) = (refl, all_empty n)

All-map : (P Q : ℕ → Type 0) → ((x : ℕ) → P x → Q x) → (xs : List ℕ) → All P xs → All Q xs
All-map P Q f [] h = tt
All-map P Q f (x ∷ xs) h = (f x h.0, All-map P Q f xs h.1)

module _ (dladdr : ℕ → Option DlInfo) where
  -- the library of the frame, if it has one, is in the table, or the table is full
  abbrev pub IsCovered : (t : List Shlib) → Option DlInfo → Type 0
  IsCovered t none = Unit
  IsCovered t (some dli) = (has dli.0 t ≡ true) ⊎ (is_full t ≡ true)

  abbrev pub Covers : (f : ℕ) → List Shlib → Type 0
  Covers f t = IsCovered t (dladdr f)

  add_dlinfo-IsCovered : (o : Option DlInfo) (t : List Shlib) → IsCovered (add_dlinfo o t) o
  add_dlinfo-IsCovered none t = tt
  add_dlinfo-IsCovered (some dli) t = add_shlib-has dli t

  add_dlinfo-keeps :
      (o o' : Option DlInfo) (t : List Shlib) → IsCovered t o → IsCovered (add_dlinfo o' t) o
  add_dlinfo-keeps none o' t h = tt
  add_dlinfo-keeps (some dli) none t h = h
  add_dlinfo-keeps (some dli) (some dli') t h = add_shlib-keeps dli' dli.0 t h

  walk-makes : (f : ℕ) (t : List Shlib) → Covers f (walk_stack dladdr f t)
  unfolding walk_stack
  walk-makes f t = add_dlinfo-IsCovered (dladdr f) t

  walk-keeps : (g f : ℕ) (t : List Shlib) → Covers g t → Covers g (walk_stack dladdr f t)
  unfolding walk_stack
  walk-keeps g f t h = add_dlinfo-keeps (dladdr g) (dladdr f) t h

  -- a table of this many entries
  abbrev pub IsSized : ℕ → List Shlib → Type 0
  IsSized n t = IsTable t × (length t ≡ n)

  walk-IsSized : (n f : ℕ) (t : List Shlib) → IsSized n t → IsSized n (walk_stack dladdr f t)
  unfolding walk_stack
  walk-IsSized n f t (table, size) = go (dladdr f)
    where
      go : (o : Option DlInfo) → IsSized n (add_dlinfo o t)
      go none = (table, size)
      go (some dli) = let (table', same) = add_shlib-IsTable dli t table in (table', same ∙ size)

  walk_stacks-keeps :
      (P : List Shlib → Type 0)
      → ((f : ℕ) (t : List Shlib) → P t → P (walk_stack dladdr f t))
      → (ms : List MpsStack) (t : List Shlib) → P t
      → P (walk_stacks dladdr ms t)
  unfolding walk_stacks
  walk_stacks-keeps P keep [] t p = p
  walk_stacks-keeps P keep (m ∷ ms) t p =
      walk_stacks-keeps P keep ms (ossl_scripts.Stack.walk_stack m (walk_stack dladdr) t)
        (walk_stack-keeps (walk_stack dladdr) P keep m t p)

  walk_stacks-All :
      (ms : List MpsStack) (t : List Shlib)
      → All (λ m. All (λ f. Covers f (walk_stacks dladdr ms t)) (frames m)) ms
  unfolding walk_stacks
  walk_stacks-All [] t = tt
  walk_stacks-All (m ∷ ms) t =
      let t' = ossl_scripts.Stack.walk_stack m (walk_stack dladdr) t in
      (
        All-map (λ f. Covers f t') (λ f. Covers f (walk_stacks dladdr ms t'))
            (λ f. walk_stacks-keeps (Covers f) (walk-keeps f) ms t') (frames m)
            (walk_stack-All (walk_stack dladdr) Covers walk-makes walk-keeps m t),
        walk_stacks-All ms t',
      )

  -- After the stacks have been walked the table has 32 entries, the used ones in front and no name
  -- twice; the library of every frame of every stack is among them, unless all entries are in use.
  pub walk_stacks-IsTable :
      (ms : List MpsStack)
      → let t = walk_stacks dladdr ms no_shlibs in
        IsTable t × (length t ≡ 32) × All (λ m. All (λ f. Covers f t) (frames m)) ms
  walk_stacks-IsTable ms =
      let (table, size) =
        walk_stacks-keeps (IsSized 32) (walk-IsSized 32) ms no_shlibs (empty-IsTable 32, refl) in
      (table, size, walk_stacks-All ms no_shlibs)

module _ {S : Type 0} (kelf_open : List ℕ → S → ℕ → S) (P : S → Type 0)
    (keep : (name : List ℕ) (syms : S) (base : ℕ) → P syms → P (kelf_open name syms base)) where
  open_named-keeps :
      (s : Shlib) (name : Option (List ℕ)) (syms : S)
      → P syms
      → P (open_named kelf_open s name syms)
  open_named-keeps s none syms p = p
  open_named-keeps s (some name) syms p = keep name syms s.shl_base p

  open_shlibs-keeps :
      (table : List Shlib) (syms : S) → P syms → P (open_shlibs kelf_open table syms)
  unfolding open_shlibs
  open_shlibs-keeps [] syms p = p
  open_shlibs-keeps (s ∷ ss) syms p =
      open_shlibs-keeps ss (open_named kelf_open s s.shl_name syms)
        (open_named-keeps s s.shl_name syms p)

  -- what every `kelf_open` keeps holds after `load_syms`
  pub load_syms-keeps :
      (dladdr : ℕ → Option DlInfo) (stacks : List MpsStack) (syms : S)
      → P syms
      → P (load_syms dladdr kelf_open stacks syms)
  unfolding load_syms
  load_syms-keeps dladdr stacks syms p =
      open_shlibs-keeps (walk_stacks dladdr stacks no_shlibs) syms p
