-- ===== src/Stats/Ledger.antt =====
-- The wrappers of mprofile/init.c against a ledger of the blocks that are in use.
use ossl_scripts.Base.{
  ℕ, ◌≡◌, refl, List, [], ◌∷◌, ◌++◌, All, ◌+◌, ◌≢◌, arith, ◌<◌, ==_of_ne, ◌^◌, sym, ◌≤◌, ==_refl,
  All-split, ◌⊎◌, inl, inr, Bool-cases, ◌==◌, true, false, ap, ◌∙◌, All-insert,
}
use ossl_scripts.Words.{◌+w◌, ◌-w◌}
use ossl_scripts.Stats.{
  Process, Memhdr, write, Outcome, done, aborted, spinning, header, malloc_stats, is_intact,
  free_call, free_stats, checksum, realloc_stats,
}
use Prim.Native.Nat.{max}
use mathlib.Core.Path.{subst}
use native.Mathlib.Nat.{add_comm}
use ossl_scripts.Stats.Runs.{
  malloc_stats-some, hdr, free_stats-intact, realloc_stats-resized, realloc_stats-zero,
  realloc_stats-new, realloc_stats-new_failed, realloc_stats-nothing, realloc_stats-failed,
}
use ossl_scripts.Stats.Counters.{with_realloc, with_realloc_tracks}

-- a block whose header stands at `at`; its user holds the address `at + 16`
pub record Block : Type 0 where
  pub at : ℕ
  pub size : ℕ

abbrev pub block : ℕ → ℕ → Block
block a s = record { at = a; size = s }

abbrev pub user : Block → ℕ
user k = k.at + 16

unfoldable pub total : List Block → ℕ
total [] = 0
total (k ∷ ks) = k.size + total ks

pub total-split :
    (xs : List Block) (k : Block) (ys : List Block)
    → total (xs ++ k ∷ ys) ≡ k.size + total (xs ++ ys)
unfolding total
total-split [] k ys = refl
total-split (x ∷ xs) k ys = omega (arith, total-split xs k ys)

-- The header at the block's address is the one that was written for it.
abbrev pub IsHeld : (ℕ → Memhdr) → Block → Type 0
IsHeld mem k = (0 < k.at) × (user k < 2 ^ 64) × (mem k.at ≡ header k.at k.size)

abbrev pub IsFresh : ℕ → List Block → Type 0
IsFresh a = All (λ k. k.at ≢ a)

-- The process holds the blocks `live`, and has held at most `peak` bytes at once.
pub record Represents (live : List Block) (peak : ℕ) (p : Process) : Type 0 where
  pub held : All (IsHeld p.mem) live
  pub current : p.ms.ms_current ≡ total live
  pub bound : peak < 2 ^ 64
  pub below : total live ≤ peak
  pub maximum : p.ms.ms_max ≡ peak

IsHeld-write :
    (mem : ℕ → Memhdr) (a : ℕ) (h : Memhdr) (ks : List Block)
    → All (IsHeld mem) ks
    → IsFresh a ks
    → All (IsHeld (write mem a h)) ks
IsHeld-write mem a h [] held fresh = tt
IsHeld-write mem a h (k ∷ ks) held fresh = (
  (held.0.0, held.0.1, rw (==_of_ne a k.at (λ e. fresh.0 (sym e))) held.0.2),
  IsHeld-write mem a h ks held.1 fresh.1,
)

-- The run ends in a state with `P`.
abbrev pub Ensures : {A : Type 0} → (A → Process → Type 0) → Outcome A → Type 0
Ensures P (done a p) = P a p
Ensures P aborted = ⊥
Ensures P spinning = ⊥

module _ {live : List Block} {peak : ℕ} {p : Process} (r : Represents live peak p) where
  -- A successful `mp_CRYPTO_malloc_stats` adds the block, and raises the peak to the new total.
  pub malloc_stats-Represents :
      (malloc : ℕ → ℕ) (sz : ℕ)
      → (let mh = malloc (sz +w 16) in (0 < mh) × (mh + 16 < 2 ^ 64) × IsFresh mh live)
      → total live + sz < 2 ^ 64
      → Ensures
          (λ b q.
            (b ≡ malloc (sz +w 16) + 16)
            × Represents (block (malloc (sz +w 16)) sz ∷ live) (max peak (total live + sz)) q)
          (malloc_stats malloc sz p)
  unfolding total
  malloc_stats-Represents malloc sz (pos, small, fresh) room =
      rw (malloc_stats-some malloc sz p (ground arith)) (
        omega arith,
        record {
          held = (
            (pos, small, rw (==_refl (malloc (sz +w 16)))),
            IsHeld-write p.mem (malloc (sz +w 16)) (header (malloc (sz +w 16)) sz) live r.held
                fresh,
          );
          current = omega (arith, r.current);
          bound = omega arith;
          below = omega arith;
          maximum = omega arith;
        },
      )

  -- `mp_CRYPTO_realloc_stats(NULL, sz)` adds the block as an allocation does.
  pub realloc_stats-Represents_new :
      (realloc : ℕ → ℕ → ℕ) (sz : ℕ)
      → 0 < sz
      → (let mh = realloc 0 (sz +w 16) in (0 < mh) × (mh + 16 < 2 ^ 64) × IsFresh mh live)
      → total live + sz < 2 ^ 64
      → Ensures
          (λ _ q.
            Represents (block (realloc 0 (sz +w 16)) sz ∷ live) (max peak (total live + sz)) q)
          (realloc_stats realloc 0 sz p)
  unfolding total
  realloc_stats-Represents_new realloc sz some_sz (pos, small, fresh) room =
      rw (realloc_stats-new realloc 0 sz p refl (ground arith) (ground arith)) (record {
        held = (
          (pos, small, rw (==_refl (realloc 0 (sz +w 16)))),
          IsHeld-write p.mem (realloc 0 (sz +w 16)) (header (realloc 0 (sz +w 16)) sz) live r.held
              fresh,
        );
        current = omega (arith, r.current);
        bound = omega arith;
        below = omega arith;
        maximum = omega arith;
      })

  -- a call that changes neither memory nor counters
  pub same_counters : {q : Process} → q.mem ≡ p.mem → q.ms ≡ p.ms → Represents live peak q
  same_counters mem ms = record {
    held = subst (λ m. All (IsHeld m) live) (sym mem) r.held;
    current = rw ms r.current;
    bound = r.bound;
    below = r.below;
    maximum = rw ms r.maximum;
  }

  -- Without an address, a request that fails counts nothing, and nor does one of no bytes.
  pub realloc_stats-Represents_none :
      (realloc : ℕ → ℕ → ℕ) (sz : ℕ)
      → (sz ≡ 0) ⊎ (realloc 0 (sz +w 16) ≡ 0)
      → Ensures (λ _ q. Represents live peak q) (realloc_stats realloc 0 sz p)
  realloc_stats-Represents_none realloc sz h = elim (Bool-cases (sz == 0)) [
    | inl nothing ↦ rw (realloc_stats-nothing realloc 0 sz p refl nothing) (same_counters refl refl)
    | inr some_sz ↦ elim h [
      | inl zero_sz ↦ absurd (ground (arith, some_sz, zero_sz))
      | inr failed ↦
          rw (realloc_stats-new_failed realloc 0 sz p refl some_sz (rw failed refl))
            (same_counters refl refl)
    ]
  ]

module _ (xs ys : List Block) (k : Block) {peak : ℕ} {p : Process}
    (r : Represents (xs ++ k ∷ ys) peak p) where
  kept : IsHeld p.mem k × All (IsHeld p.mem) (xs ++ ys)
  kept = All-split (IsHeld p.mem) xs k ys r.held

  unwrap : ((user k == 0) ≡ false) × (user k -w 16 ≡ k.at)
  unwrap = let h = kept.0 in (ground arith, omega arith)

  found : hdr (user k) p ≡ header k.at k.size
  found = ap p.mem unwrap.1 ∙ kept.0.2

  intact : is_intact (user k -w 16) (hdr (user k) p) ≡ true
  intact = rw (found, unwrap.1, ==_refl (checksum k.at k.size)) refl

  -- `mp_CRYPTO_free_stats` of a block in use hands its header's address to `free`, and takes the
  -- block out of the ledger.
  pub free_stats-Represents :
      Ensures
        (λ _ q. (q.calls ≡ free_call k.at ∷ p.calls) × Represents (xs ++ ys) peak q)
        (free_stats (user k) p)
  free_stats-Represents =
      rw (free_stats-intact (user k) p unwrap.0 intact, unwrap.1, found)
        (
          refl,
          record {
            held = kept.1;
            current = omega (arith, r.current, total-split xs k ys, r.below, r.bound);
            bound = r.bound;
            below = omega (arith, r.below, total-split xs k ys);
            maximum = r.maximum;
          },
        )

  module _ (realloc : ℕ → ℕ → ℕ) where
    -- `mp_CRYPTO_realloc_stats` to no bytes counts as a release, whatever `realloc` answers.
    pub realloc_stats-Represents_zero :
        Ensures (λ _ q. Represents (xs ++ ys) peak q) (realloc_stats realloc (user k) 0 p)
    realloc_stats-Represents_zero =
        rw (realloc_stats-zero realloc (user k) 0 p unwrap.0 intact refl, unwrap.1, found)
          (record {
            held = kept.1;
            current = omega (arith, r.current, total-split xs k ys, r.below, r.bound);
            bound = r.bound;
            below = omega (arith, r.below, total-split xs k ys);
            maximum = r.maximum;
          })

    -- A resize that `realloc` refuses counts nothing, and leaves the block.
    pub realloc_stats-Represents_failed :
        (sz : ℕ)
        → 0 < sz
        → realloc k.at (sz +w 16) ≡ 0
        → Ensures (λ _ q. Represents (xs ++ k ∷ ys) peak q) (realloc_stats realloc (user k) sz p)
    realloc_stats-Represents_failed sz some_sz failed =
        rw
          (realloc_stats-failed realloc (user k) sz p unwrap.0 intact (ground arith)
            (rw (unwrap.1, failed) refl))
          (same_counters r refl refl)

    -- A resize that `realloc` answers with room keeps the block, under its new address and size,
    -- and raises the peak to the new total.
    pub realloc_stats-Represents :
        (sz : ℕ)
        → 0 < sz
        → (let mh = realloc k.at (sz +w 16) in
            (0 < mh) × (mh + 16 < 2 ^ 64) × IsFresh mh (xs ++ ys))
        → total (xs ++ ys) + sz < 2 ^ 64
        → Ensures
            (λ b q.
              (b ≡ realloc k.at (sz +w 16) + 16)
              × Represents
                  (xs ++ block (realloc k.at (sz +w 16)) sz ∷ ys)
                  (max peak (total (xs ++ ys) + sz))
                  q)
            (realloc_stats realloc (user k) sz p)
    realloc_stats-Represents sz some_sz (pos, small, fresh) room =
        rw
          (
            realloc_stats-resized realloc (user k) sz p unwrap.0 intact (ground arith)
                (rw unwrap.1 (ground arith)),
            unwrap.1,
            found,
          )
          (
            omega arith,
            record {
              held =
                  All-insert (IsHeld _) xs _ ys (pos, small, rw (==_refl (realloc k.at (sz +w 16))))
                    (IsHeld-write p.mem _ _ (xs ++ ys) kept.1 fresh);
              current = tracks.0 ∙ sym (total-split xs _ ys ∙ add_comm sz _);
              bound = omega (arith, r.bound);
              below = omega (arith, total-split xs (block (realloc k.at (sz +w 16)) sz) ys);
              maximum = tracks.1 ∙ ap (λ t. max t (total (xs ++ ys) + sz)) r.maximum;
            },
          )
      where
        tracks :
            ((with_realloc k.size sz p.ms).ms_current ≡ total (xs ++ ys) + sz)
            × ((with_realloc k.size sz p.ms).ms_max ≡ max p.ms.ms_max (total (xs ++ ys) + sz))
        tracks =
            with_realloc_tracks k.size sz (total (xs ++ ys)) p.ms (r.current ∙ total-split xs k ys)
              (omega (arith, r.below, total-split xs k ys, r.maximum))
              (omega (arith, r.bound, r.maximum)) room
