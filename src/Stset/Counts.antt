-- ===== src/Stset/Counts.antt =====
-- Runs of `mprofile_add_stack` of mprofile/stack.c on one set.
use ossl_scripts.Base.{
  ◌∷◌, [], some, none, ◌⊎◌, false, inl, inr, refl, ◌≡◌, ◌==◌, ◌+◌, ◌<◌, ◌≤◌, ◌^◌, ℕ, List, Option,
  arith, All, ◌≢◌, Ordering-cases, length, ◌∙◌, ap,
}
use ossl_scripts.Stset.Contents.{
  hits, IsUsable, frames_at, Contains, uses, create_stset-Contains, find-by_frames,
  key_compare-IsOrder, find-by_id,
}
use ossl_scripts.Stack.{MpsStack, Stray, mps_flag_managed}
use ossl_scripts.Tree.{RbTree}
use ossl_scripts.Stack.Frames.{frames}
use ossl_scripts.Stset.{StackSet, Stacks, add_stack, create_stset, by_frames, by_id}
use ossl_scripts.Stack.Order.{key_compare}
use ossl_scripts.Stset.Recount.{Added, hits_self}
use ossl_scripts.Stset.Adding.{add_stack-Added}
use ossl_scripts.Stack.Compare.{IsFilled}
use mathlib.Core.Path.{subst, sym}
use ossl_scripts.Tree.Members.{Holds-key}

-- one call: what `malloc` answers, the word behind the copied frames, and the stack
pub record Addition : Type 0 where
  pub at : ℕ
  pub junk : ℕ
  pub stack : MpsStack

-- how many of the stacks have the frames `k`
unfoldable pub occurrences : List ℕ → List Addition → ℕ
occurrences k [] = 0
occurrences k (a ∷ more) = hits k (frames a.stack) + occurrences k more

-- the address is not that of another stack
abbrev pub IsElsewhere : ℕ → List Addition → Type 0
IsElsewhere e more = All (λ a. e ≢ a.at) more

-- `malloc` answers other addresses, and not NULL; the stacks are not empty, and are those of a caller
pub record IsGiven (a : Addition) : Type 0 where
  pub usable : IsUsable a.stack
  pub unmanaged : (a.stack.mps_flags == mps_flag_managed) ≡ false
  pub real : 0 < a.at

unfoldable pub IsRun : List Addition → Type 0
IsRun [] = Unit
IsRun (a ∷ more) = IsGiven a × IsElsewhere a.at more × IsRun more

module _ (T : RbTree) (stray : Stray) where
  unfoldable pub add_all : List Addition → StackSet T stray → Stacks → StackSet T stray × Stacks
  add_all [] set objs = (set, objs)
  add_all (a ∷ more) set objs =
      let r = add_stack T stray a.at a.junk a.stack set objs in add_all more r.1 r.2

  -- The set holds the stacks of `m`, and has counted `n` more of each.
  pub record Counted (before : List ℕ → ℕ) (more : List Addition) (set : StackSet T stray)
      (objs : Stacks) : Type 0 where
    pub has : List ℕ → Option ℕ
    pub ids : ℕ → Option ℕ
    pub contains : Contains T stray set objs has ids
    pub counts : (k : List ℕ) → uses objs (has k) ≡ before k + occurrences k more
    pub used : (k : List ℕ) (e : ℕ) → has k ≡ some e → 0 < before k + occurrences k more

  hits_le : (k fs : List ℕ) → hits k fs ≤ 1
  hits_le k fs = elim (Ordering-cases (key_compare k fs)) [
    | inl less ↦ rw less (omega arith)
    | inr (inl same) ↦ rw same (omega arith)
    | inr (inr later) ↦ rw later (omega arith)
  ]

  add_all-Counted :
      (more : List Addition) (set : StackSet T stray) (objs : Stacks) {m : List ℕ → Option ℕ}
      {ids : ℕ → Option ℕ} (before : List ℕ → ℕ)
      → Contains T stray set objs m ids
      → ((k : List ℕ) → uses objs (m k) ≡ before k)
      → ((k : List ℕ) (e : ℕ) → m k ≡ some e → 0 < before k)
      → IsRun more
      → ((k : List ℕ) (e : ℕ) → m k ≡ some e → IsElsewhere e more)
      → set.stset_id + length more < 2 ^ 32
      → ((k : List ℕ) → before k + length more < 2 ^ 32)
      → Counted before more (add_all more set objs).0 (add_all more set objs).1
  unfolding occurrences add_all IsRun
  add_all-Counted [] set objs {m} {ids} before h counted known run away room small = record {
    has = m;
    ids = ids;
    contains = h;
    counts = λ k. counted k ∙ omega arith;
    used = λ k e here. omega (arith, known k e here);
  }
  add_all-Counted (a ∷ more) set objs {m} {ids} before h counted known run away room small =
      let added : Added T stray a.stack m objs set.stset_id a.at
          (add_stack T stray a.at a.junk a.stack set objs) =
        add_stack-Added T stray h a.stack run.0.usable a.at a.junk run.0.unmanaged run.0.real
          (λ k there. (away k a.at there).0 refl) (omega (arith, room))
          (omega (arith, small (frames a.stack), counted (frames a.stack))) in
      let rest =
        add_all-Counted more (add_stack T stray a.at a.junk a.stack set objs).1
          (add_stack T stray a.at a.junk a.stack set objs).2
          (λ k. before k + hits k (frames a.stack)) added.contains
          (λ k. added.counts k ∙ ap (λ n. n + hits k (frames a.stack)) (counted k))
          (λ k e here. elim (added.from k e here) [
            | inl old ↦ omega (arith, known k e old)
            | inr (_, its) ↦ rw its (omega (arith, hits_self T stray (frames a.stack)))
          ])
          run.2
          (λ k e here. elim (added.from k e here) [
            | inl old ↦ (away k e old).1
            | inr (it, _) ↦ subst (λ e. IsElsewhere e more) (sym it) run.1
          ])
          (omega (arith, room, added.next_id))
          (λ k. omega (arith, small k, hits_le k (frames a.stack))) in
      record {
        has = rest.has;
        ids = rest.ids;
        contains = rest.contains;
        counts = λ k. rest.counts k ∙ omega arith;
        used = λ k e here. omega (arith, rest.used k e here);
      }

  module _ (more : List Addition) (objs : Stacks) (run : IsRun more)
      (few : length more + 1 < 2 ^ 32) where
    pub from_empty :
        Counted
          (λ _. 0)
          more
          (add_all more (create_stset T stray) objs).0
          (add_all more (create_stset T stray) objs).1
    unfolding create_stset
    from_empty =
        add_all-Counted more (create_stset T stray) objs (λ _. 0)
          (create_stset-Contains T stray objs) (λ k. refl) (λ k e there. absurd (cc)) run
          (λ k e there. absurd (cc)) (omega (arith, few)) (λ k. omega (arith, few))

  -- From an empty set, the calls of `mprofile_add_stack` count the stacks by their frames: for a filled
  -- stack, RB_FIND answers nothing if its frames were not added, and otherwise a stack whose count is the
  -- number of the additions with these frames. The stacks added are filled, not empty, and not
  -- allocated ones, `malloc` answers new addresses, and there are fewer than 2 ^ 32 - 1 additions.
  pub add_all-counts :
      (more : List Addition) (objs : Stacks) (s : MpsStack)
      → IsRun more
      → length more + 1 < 2 ^ 32
      → IsFilled s
      → (let (set', objs') = add_all more (create_stset T stray) objs in
          ((T.find (by_frames T stray objs' s) set'.stset_rbh ≡ none)
            × (occurrences (frames s) more ≡ 0))
          ⊎ ((e : ℕ) × (T.find (by_frames T stray objs' s) set'.stset_rbh ≡ some e)
              × ((objs' e).mps_count ≡ occurrences (frames s) more)
              × (0 < occurrences (frames s) more)))
  add_all-counts more objs s run few filled =
      let c = from_empty more objs run few in
      rw (find-by_frames T stray c.contains s filled) (answer c (c.has (frames s)) refl)
    where
      counted :
          {set' : StackSet T stray} {objs' : Stacks} (c : Counted (λ _. 0) more set' objs')
          → uses objs' (c.has (frames s)) ≡ occurrences (frames s) more
      counted c = c.counts (frames s) ∙ omega arith

      answer :
          {set' : StackSet T stray} {objs' : Stacks} (c : Counted (λ _. 0) more set' objs')
          (o : Option ℕ)
          → c.has (frames s) ≡ o
          → ((o ≡ none) × (occurrences (frames s) more ≡ 0))
            ⊎ ((e : ℕ) × (o ≡ some e)
                × ((objs' e).mps_count ≡ occurrences (frames s) more)
                × (0 < occurrences (frames s) more))
      answer {objs' = objs'} c none here = inl (refl, sym (counted c) ∙ ap (uses objs') here)
      answer {objs' = objs'} c (some e) here =
          inr (
            e,
            refl,
            sym (ap (uses objs') here) ∙ counted c,
            omega (arith, c.used (frames s) e here),
          )

  -- A stack that RB_FIND answers after such a run has the frames that were looked for, an id below
  -- the next one of the set, and is the stack that the tree of ids has for its id.
  pub add_all-ids :
      (more : List Addition) (objs : Stacks) (s : MpsStack) (e : ℕ)
      → IsRun more
      → length more + 1 < 2 ^ 32
      → IsFilled s
      → T.find
          (by_frames T stray (add_all more (create_stset T stray) objs).1 s)
          (add_all more (create_stset T stray) objs).0.stset_rbh
        ≡ some e
      → (let (set', objs') = add_all more (create_stset T stray) objs in
          (frames (objs' e) ≡ frames s)
          × ((objs' e).mps_id < set'.stset_id)
          × (T.find (by_id T stray objs' (objs' e)) set'.stset_id_rbh ≡ some e))
  add_all-ids more objs s e run few filled found =
      let c = from_empty more objs run few in
      let here : c.has (frames s) ≡ some e =
        sym (find-by_frames T stray c.contains s filled) ∙ found in
      let there = c.contains.has_id (frames s) e here in
      (
        sym (
            Holds-key key_compare key_compare-IsOrder
              (frames_at (add_all more (create_stset T stray) objs).1) T c.contains.by_frames_tree
              (frames s) here),
        c.contains.low _ e there,
        find-by_id T stray c.contains _ ∙ there,
      )
