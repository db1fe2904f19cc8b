-- ===== src/Stack/Compare.antt =====
-- `stack_compare` of mprofile/stack.c against the order on the frames.
use Prim.Native.Nat.{compare, eq}
use ossl_scripts.Base.{
  ℕ, refl, [], zero, suc, inl, inr, ◌∷◌, ◌≡◌, ◌==◌, ◌+◌, ◌-◌, ◌<◌, ◌≤◌, List, arith, length, take,
  drop, get_or, Bool-cases, ==_of_ne, ==_iff, ◌∙◌, sym, length-take_of_le, ◌↔◌, ltb, ltb→lt, ltb→ge,
  ap,
}
use ossl_scripts.Stack.{MpsStack, Stray, scan, word, decide_at, stack_compare}
use ossl_scripts.Stack.Order.{
  lex, key_compare, lex-cons_same, lex-cons_differ, key_compare-eq_iff, key_compare-shorter,
  key_compare-longer, key_compare-level,
}
use ossl_scripts.Stack.Frames.{frames}

-- The array holds all words below the depth.
abbrev pub IsFilled : MpsStack → Type 0
IsFilled m = m.mps_stack_depth ≤ length m.mps_stack

module _ (stray : Stray) where
  word-drop :
      (ws : List ℕ) (i n d : ℕ)
      → i < length ws
      → take (suc n) (drop i ws) ≡ get_or ws i d ∷ take n (drop (suc i) ws)
  word-drop [] i n d h = absurd (omega arith)
  word-drop (w ∷ ws) zero n d h = refl
  word-drop (w ∷ ws) (suc i) n d h = word-drop ws i n d (omega arith)

  word-take :
      (m : MpsStack) (i n : ℕ)
      → i < length m.mps_stack
      → take (suc n) (drop i m.mps_stack) ≡ word stray m i ∷ take n (drop (suc i) m.mps_stack)
  unfolding word
  word-take m i n h = word-drop m.mps_stack i n (stray.behind m) h

  decide_at-end :
      (a b : MpsStack) (i : ℕ)
      → i ≡ b.mps_stack_depth
      → 0 < i
      → word stray a (i - 1) ≡ word stray b (i - 1)
      → decide_at stray a b i ≡ eq
  unfolding decide_at
  decide_at-end a b i e pos same = ground arith

  decide_at-inside :
      (a b : MpsStack) (i : ℕ)
      → i < b.mps_stack_depth
      → decide_at stray a b i ≡ compare (word stray a i) (word stray b i)
  unfolding decide_at
  decide_at-inside a b i h = rw (==_of_ne i b.mps_stack_depth (omega arith))

  -- With the words before `i` equal, the scan and the last comparison follow the order.
  scan-lex :
      (a b : MpsStack) (n i : ℕ)
      → i + n ≤ length a.mps_stack
      → i + n ≤ length b.mps_stack
      → i + n ≡ b.mps_stack_depth
      → 0 < b.mps_stack_depth
      → (0 < i → word stray a (i - 1) ≡ word stray b (i - 1))
      → decide_at stray a b (scan stray a b n i)
        ≡ lex (take n (drop i a.mps_stack)) (take n (drop i b.mps_stack))
  unfolding scan lex
  scan-lex a b zero i ha hb depth some_depth before =
      decide_at-end a b i (omega arith) (omega arith) (before (omega arith))
  scan-lex a b (suc n) i ha hb depth some_depth before =
      rw (word-take a i n (omega arith), word-take b i n (omega arith))
        (elim (Bool-cases (word stray a i == word stray b i)) [
          | inl same ↦ rw (same) (
              scan-lex a b n (suc i) (omega arith) (omega arith) (omega arith) some_depth (λ _.
                let back : suc i - 1 ≡ i = omega arith in
                rw back ((==_iff (word stray a i) (word stray b i)).0 same))
              ∙ sym (
                  lex-cons_same (word stray a i) (word stray b i)
                    (take n (drop (suc i) a.mps_stack)) (take n (drop (suc i) b.mps_stack)) same))
          | inr differ ↦ rw differ (
              decide_at-inside a b i (omega arith)
              ∙ sym (
                  lex-cons_differ (word stray a i) (word stray b i)
                    (take n (drop (suc i) a.mps_stack)) (take n (drop (suc i) b.mps_stack)) differ))
        ])

  -- On filled stacks of which the second is not empty, `stack_compare` is the order on the frames:
  -- what lies outside the frames does not matter.
  pub stack_compare-key_compare :
      (a b : MpsStack)
      → IsFilled a
      → IsFilled b
      → 0 < b.mps_stack_depth
      → stack_compare stray a b ≡ key_compare (frames a) (frames b)
  unfolding stack_compare
  stack_compare-key_compare a b fa fb pos = elim (Bool-cases (ltb da db)) [
    | inl shorter ↦ rw shorter (
        sym
          (key_compare-shorter (frames a) (frames b) (omega (arith, la, lb, ltb→lt da db shorter))))
    | inr c ↦ elim (Bool-cases (ltb db da)) [
      | inl longer ↦
          rw (c, longer)
            (sym (
              key_compare-longer (frames a) (frames b)
                (omega (arith, la, lb, ltb→lt db da longer))))
      | inr d ↦
          let level : da ≡ db = omega (arith, ltb→ge da db c, ltb→ge db da d) in
          rw (c, d)
            (scan-lex a b db 0 (omega arith) (omega arith) (omega arith) pos (λ h. elim h [ ])
              ∙ ap (λ n. lex (take n a.mps_stack) (frames b)) (sym level)
              ∙ sym (key_compare-level (frames a) (frames b) (omega (arith, la, lb))))
    ]
  ]
    where
      da : ℕ
      da = a.mps_stack_depth

      db : ℕ
      db = b.mps_stack_depth

      la : length (frames a) ≡ da
      la = length-take_of_le a.mps_stack_depth a.mps_stack fa

      lb : length (frames b) ≡ db
      lb = length-take_of_le b.mps_stack_depth b.mps_stack fb

  -- Two stacks compare equal exactly when they hold the same frames, if one of them is not empty.
  pub stack_compare-eq_iff :
      (a b : MpsStack)
      → IsFilled a
      → IsFilled b
      → 0 < b.mps_stack_depth
      → (stack_compare stray a b ≡ eq) ↔ (frames a ≡ frames b)
  stack_compare-eq_iff a b fa fb pos =
      rw (stack_compare-key_compare a b fa fb pos) (key_compare-eq_iff (frames a) (frames b))

  -- Of two empty stacks `stack_compare` reads the words before their arrays, and goes by these.
  pub stack_compare_empty :
      (a b : MpsStack)
      → a.mps_stack_depth ≡ 0
      → b.mps_stack_depth ≡ 0
      → stack_compare stray a b ≡ compare (stray.before a) (stray.before b)
  unfolding stack_compare scan decide_at
  stack_compare_empty a b ea eb = rw (ea, eb) refl
