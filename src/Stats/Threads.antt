-- ===== src/Stats/Threads.antt =====
-- `update_alloc` and `update_release` of mprofile/init.c as several threads run them, one atomic
-- access at a time.
use ossl_scripts.Base.{
  ◌≡◌, ◌<◌, ◌≤◌, ℕ, ◌⊎◌, update, ◌≢◌, inl, inr, ◌==◌, arith, Bool-cases, ==_iff, ==_refl, ltb,
  ltb→lt, ltb→ge,
}
use ossl_scripts.Words.{◌+w◌, ◌-w◌}
use Prim.Native.Nat.{max}
use mathlib.Core.Path.{subst}
pub mod Progress
mod Tests

-- Where a thread stands, with its local variables: `current` of `update_alloc`, and `max`.
pub data Pc : Type 0 where
  idle : Pc
  added : (current : ℕ) → Pc  -- behind the `__atomic_add_fetch`
  looping : (current local : ℕ) → Pc  -- at the test of the loop

-- `ms.ms_current` and `ms.ms_max`, the largest value that an addition ever
-- gave, and the threads
pub record Shared : Type 0 where
  pub current : ℕ
  pub maximum : ℕ
  pub peak : ℕ
  pub pc : ℕ → Pc

-- One atomic access of the thread `i`. A thread that is idle may release as well.
pub data Step (s : Shared) : Shared → Type 0 where
  add :
      (i delta : ℕ)
      → s.pc i ≡ idle
      → Step s (record s {
        current = s.current +w delta;
        peak = max s.peak (s.current +w delta);
        pc = update s.pc i (added (s.current +w delta));
      })
  read_max :
      (i c : ℕ) → s.pc i ≡ added c → Step s (record s { pc = update s.pc i (looping c s.maximum) })
  leave : (i c l : ℕ) → s.pc i ≡ looping c l → c ≤ l → Step s (record s { pc = update s.pc i idle })
  exchange :
      (i c l : ℕ) → s.pc i ≡ looping c l → l < c → s.maximum ≡ l → Step s (record s { maximum = c })
  exchange_fails :
      (i c l : ℕ)
      → s.pc i ≡ looping c l
      → l < c
      → s.maximum ≢ l
      → Step s (record s { pc = update s.pc i (looping c s.maximum) })
  subtract : (i delta : ℕ) → s.pc i ≡ idle → Step s (record s { current = s.current -w delta })

-- the thread that makes the access
abbrev pub acting : {s t : Shared} → Step s t → ℕ
acting (add i _ _) = i
acting (read_max i _ _) = i
acting (leave i _ _ _ _) = i
acting (exchange i _ _ _ _ _) = i
acting (exchange_fails i _ _ _ _ _) = i
acting (subtract i _ _) = i

-- The states that the threads can reach from the counters at zero.
pub data Reach : Shared → Type 0 where
  start : {s : Shared} → s.maximum ≡ 0 → s.peak ≡ 0 → ((i : ℕ) → s.pc i ≡ idle) → Reach s
  next : {s t : Shared} → Reach s → Step s t → Reach t

-- A thread that will not leave its loop before `ms.ms_max` is at least `n`.
abbrev pub Carries : ℕ → Pc → Type 0
Carries n idle = ⊥
Carries n (added c) = c ≡ n
Carries n (looping c l) = c ≡ n

-- what a thread has read or computed is not above the counters
abbrev pub IsBelow : (maximum peak : ℕ) → Pc → Type 0
IsBelow m p idle = Unit
IsBelow m p (added c) = c ≤ p
IsBelow m p (looping c l) = (c ≤ p) × (l ≤ m)

pub record Inv (s : Shared) : Type 0 where
  pub bounded : s.maximum ≤ s.peak
  pub below : (i : ℕ) → IsBelow s.maximum s.peak (s.pc i)
  pub covered : (s.peak ≤ s.maximum) ⊎ ((i : ℕ) × Carries s.peak (s.pc i))

IsBelow-mono : (m m' p p' : ℕ) (c : Pc) → m ≤ m' → p ≤ p' → IsBelow m p c → IsBelow m' p' c
IsBelow-mono m m' p p' idle hm hp b = tt
IsBelow-mono m m' p p' (added c) hm hp b = omega arith
IsBelow-mono m m' p p' (looping c l) hm hp (b, b') = (omega arith, omega arith)

-- one thread has moved, and the counters have not fallen
moved-IsBelow :
    (s : Shared) (i m p : ℕ) (c : Pc)
    → Inv s
    → s.maximum ≤ m
    → s.peak ≤ p
    → IsBelow m p c
    → (j : ℕ) → IsBelow m p (update s.pc i c j)
moved-IsBelow s i m p c inv hm hp b j = elim (Bool-cases (i == j)) [
  | inl same ↦ rw same b
  | inr other ↦ rw other (IsBelow-mono s.maximum m s.peak p (s.pc j) hm hp (inv.below j))
]

-- Where the thread that moved carried the peak, it carries it on or the maximum has it.
moved_covered :
    (s : Shared) (i : ℕ) (c : Pc)
    → Inv s
    → (Carries s.peak (s.pc i) → (s.peak ≤ s.maximum) ⊎ Carries s.peak c)
    → (s.peak ≤ s.maximum) ⊎ ((j : ℕ) × Carries s.peak (update s.pc i c j))
moved_covered s i c inv h = elim inv.covered [
  | inl low ↦ inl low
  | inr (j, carries) ↦ elim (Bool-cases (i == j)) [
    | inl same ↦
        let e : i ≡ j = (==_iff i j).0 same in
        elim (h (rw e carries)) [ inl low ↦ inl low | inr on ↦ inr (i, rw (==_refl i) on) ]
    | inr other ↦ inr (j, rw other carries)
  ]
]

-- what a thread at the place `c` has read
here-IsBelow : (s : Shared) (i : ℕ) {c : Pc} → Inv s → s.pc i ≡ c → IsBelow s.maximum s.peak c
here-IsBelow s i inv at = subst (IsBelow s.maximum s.peak) at (inv.below i)

-- A move that leaves the counters alone keeps the invariant.
move-Inv :
    (s : Shared) (i : ℕ) (c c' : Pc)
    → Inv s
    → s.pc i ≡ c
    → IsBelow s.maximum s.peak c'
    → (Carries s.peak c → (s.peak ≤ s.maximum) ⊎ Carries s.peak c')
    → Inv (record s { pc = update s.pc i c' })
move-Inv s i c c' inv at below h = record {
  bounded = inv.bounded;
  below = moved-IsBelow s i s.maximum s.peak c' inv (omega arith) (omega arith) below;
  covered = moved_covered s i c' inv (λ k. h (subst (Carries s.peak) at k));
}

add-Inv :
    (s : Shared) (i c : ℕ)
    → Inv s
    → s.pc i ≡ idle
    → (n : ℕ) → Inv (record s { current = n; peak = max s.peak c; pc = update s.pc i (added c) })
add-Inv s i c inv at n = record {
  bounded = omega (arith, inv.bounded);
  below =
      moved-IsBelow s i s.maximum (max s.peak c) (added c) inv (omega arith) (omega arith)
        (omega arith);
  covered = elim (Bool-cases (ltb s.peak c)) [
    | inl higher ↦
        let above : s.peak < c = ltb→lt s.peak c higher in inr (i, rw (==_refl i) (omega arith))
    | inr lower ↦
        let same : max s.peak c ≡ s.peak = omega (arith, ltb→ge s.peak c lower) in
        rw same (moved_covered s i (added c) inv (λ k. absurd (subst (Carries s.peak) at k)))
  ];
}

Step-Inv : {s t : Shared} → Inv s → Step s t → Inv t
Step-Inv {s} inv (add i delta at) = add-Inv s i (s.current +w delta) inv at (s.current +w delta)
Step-Inv {s} inv (read_max i c at) =
    move-Inv s i (added c) (looping c s.maximum) inv at (here-IsBelow s i inv at, omega arith)
      (λ e. inr e)
Step-Inv {s} inv (leave i c l at low) =
    move-Inv s i (looping c l) idle inv at tt
      (λ e. inl (omega (arith, (here-IsBelow s i inv at).1)))
Step-Inv {s} inv (exchange i c l at low same) = record {
  bounded = (here-IsBelow s i inv at).0;
  below = λ j.
      IsBelow-mono s.maximum c s.peak s.peak (s.pc j) (omega arith) (omega arith) (inv.below j);
  covered = elim inv.covered [ inl done ↦ inl (omega arith) | inr carried ↦ inr carried ];
}
Step-Inv {s} inv (exchange_fails i c l at low other) =
    move-Inv s i (looping c l) (looping c s.maximum) inv at
      ((here-IsBelow s i inv at).0, omega arith) (λ e. inr e)
Step-Inv {s} inv (subtract i delta at) = record {
  bounded = inv.bounded;
  below = inv.below;
  covered = inv.covered;
}

Reach-Inv : {s : Shared} → Reach s → Inv s
Reach-Inv {s} (start m p quiet) = record {
  bounded = omega arith;
  below = λ i. rw (quiet i) tt;
  covered = inl (omega arith);
}
Reach-Inv (next r step) = Step-Inv (Reach-Inv r) step

-- However the accesses of the threads interleave, `ms.ms_max` never exceeds the largest value that an
-- addition to `ms.ms_current` gave, and equals it whenever no thread is inside `update_alloc`.
pub Reach-maximum :
    {s : Shared} → Reach s → (s.maximum ≤ s.peak) × (((i : ℕ) → s.pc i ≡ idle) → s.maximum ≡ s.peak)
Reach-maximum {s} r = (
  inv.bounded,
  λ quiet. elim inv.covered [
    | inl low ↦ omega (arith, inv.bounded)
    | inr (i, carries) ↦ absurd (subst (Carries s.peak) (quiet i) carries)
  ],
)
  where
    inv : Inv s
    inv = Reach-Inv r
