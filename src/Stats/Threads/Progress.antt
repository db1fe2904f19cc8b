-- ===== src/Stats/Threads/Progress.antt =====
-- A thread inside `update_alloc` of mprofile/init.c gets out by its own accesses.
use ossl_scripts.Base.{
  inl, inr, refl, ◌≡◌, ◌==◌, ◌<◌, ◌≤◌, ℕ, arith, ==_refl, update, ◌∙◌, ◌≢◌, ==_of_ne, Bool-cases,
  leb, leb→le, ==_iff, suc,
}
use ossl_scripts.Stats.Threads.{
  Shared, Pc, Reach, added, looping, idle, read_max, leave, exchange, exchange_fails, Step, acting,
}

-- The state `t` is reached from `s` by at most so many accesses of the thread `i`, and by no access of
-- another thread.
pub data Alone (i : ℕ) : (at_most : ℕ) → Shared → Shared → Type 0 where
  stays : {n : ℕ} {s : Shared} → Alone i n s s
  goes :
      {n : ℕ} {s t u : Shared} (access : Step s t)
      → acting access ≡ i
      → Alone i n t u
      → Alone i (suc n) s u

-- The thread `i` has left by its own accesses: the other threads are where they were.
pub record Leaves (i at_most : ℕ) (s t : Shared) : Type 0 where
  pub alone : Alone i at_most s t
  pub left : t.pc i ≡ idle
  pub others : (j : ℕ) → i ≢ j → t.pc j ≡ s.pc j
  pub counter : t.current ≡ s.current

module _ (i : ℕ) where
  -- the state after the thread has gone to `c`
  abbrev at : Shared → Pc → Shared
  at s c = record s { pc = update s.pc i c }

  at_self : (s : Shared) (c : Pc) → (at s c).pc i ≡ c
  at_self s c = rw (==_refl i) refl

  at_other : (s : Shared) (c : Pc) (j : ℕ) → i ≢ j → (at s c).pc j ≡ s.pc j
  at_other s c j ne = rw (==_of_ne i j ne) refl

  -- an access of the thread in front of its way out
  before :
      {n : ℕ} {s t : Shared} (c : Pc) (access : Step s (at s c))
      → acting access ≡ i
      → Leaves i n (at s c) t
      → Leaves i (suc n) s t
  before {s = s} c access its w = record {
    alone = goes access its w.alone;
    left = w.left;
    others = λ j ne. w.others j ne ∙ at_other s c j ne;
    counter = w.counter;
  }

  leave_now :
      {n : ℕ} {s : Shared} (c l : ℕ)
      → s.pc i ≡ looping c l
      → c ≤ l
      → (t : Shared) × Leaves i (suc n) s t
  leave_now {s = s} c l here low = (
    at s idle,
    record {
      alone = goes (leave i c l here low) refl stays;
      left = at_self s idle;
      others = at_other s idle;
      counter = refl;
    },
  )

  -- The copy of the maximum is up to date: either the thread leaves, or its exchange succeeds, the
  -- next one fails, and then it leaves.
  leave_fresh : {s : Shared} (c : ℕ) → s.pc i ≡ looping c s.maximum → (t : Shared) × Leaves i 3 s t
  leave_fresh {s} c here = elim (Bool-cases (leb c s.maximum)) [
    | inl low ↦ leave_now c s.maximum here (leb→le c s.maximum low)
    | inr high ↦
        let above : s.maximum < c = ground arith in
        let raised : Shared = record s { maximum = c } in
        let (t, w) =
          leave_now {n = 0} {s = at raised (looping c c)} c c (at_self raised (looping c c))
            (omega arith) in
        let w' : Leaves i 2 raised t =
          before (looping c c) (exchange_fails i c s.maximum here above (omega arith)) refl w in
        (
          t,
          record {
            alone = goes (exchange i c s.maximum here above refl) refl w'.alone;
            left = w'.left;
            others = w'.others;
            counter = w'.counter;
          },
        )
  ]

  leave_loop : {s : Shared} (c l : ℕ) → s.pc i ≡ looping c l → (t : Shared) × Leaves i 4 s t
  leave_loop {s} c l here = elim (Bool-cases (leb c l)) [
    | inl low ↦ leave_now c l here (leb→le c l low)
    | inr high ↦
        let failed : s.maximum ≢ l → (t : Shared) × Leaves i 4 s t = (λ ne.
          let (t, w) =
            leave_fresh {s = at s (looping c s.maximum)} c (at_self s (looping c s.maximum)) in
          (
            t,
            before (looping c s.maximum) (exchange_fails i c l here (ground (arith, high)) ne) refl
                w,
          )) in
        elim (Bool-cases (s.maximum == l)) [
          | inl same ↦
              let (t, w) = leave_fresh c (rw ((==_iff s.maximum l).0 same) here) in
              (
                t,
                record {
                  alone = longer w.alone;
                  left = w.left;
                  others = w.others;
                  counter = w.counter;
                },
              )
          | inr other ↦ failed (ground (arith, other))
        ]
  ]
    where
      longer : {n : ℕ} {s t : Shared} → Alone i n s t → Alone i (suc n) s t
      longer stays = stays
      longer (goes access its rest) = goes access its (longer rest)

  leave_from : {s : Shared} (c : Pc) → s.pc i ≡ c → (t : Shared) × Leaves i 4 s t
  leave_from {s} idle here =
      (s, record { alone = stays; left = here; others = λ j ne. refl; counter = refl })
  leave_from {s} (added c) here =
      let (t, w) =
        leave_fresh {s = at s (looping c s.maximum)} c (at_self s (looping c s.maximum)) in
      (t, before (looping c s.maximum) (read_max i c here) refl w)
  leave_from (looping c l) here = leave_loop c l here

-- From every reachable state each thread can leave `update_alloc` by at most four accesses, all of its
-- own, while the other threads stay where they are and the counter of bytes in use stays as it is.
pub Reach-leaves : (i : ℕ) {s : Shared} → Reach s → (t : Shared) × Leaves i 4 s t
Reach-leaves i {s} r = leave_from i (s.pc i) refl
