-- ===== src/Stats/Session.antt =====
-- Whole runs of a program over the wrappers of mprofile/init.c: any sequence of calls, with any
-- answers of libc that obey its contract.
use ossl_scripts.Base.{ℕ, ◌≡◌, List, [], ◌∷◌, ◌++◌, ◌<◌, ◌+◌, sym, ◌∙◌, ◌^◌, arith, refl, ◌⊎◌}
use ossl_scripts.Stats.{
  Process, Memstats, Outcome, done, ◌+w◌, ◌-w◌, malloc_stats, free_stats, realloc_stats,
}
use ossl_scripts.Stats.Ledger.{
  Block, total, Represents, Ensures, block, user, IsFresh, malloc_stats-Represents,
  free_stats-Represents, realloc_stats-Represents, realloc_stats-Represents_zero,
  realloc_stats-Represents_failed, realloc_stats-Represents_new, realloc_stats-Represents_none,
  same_counters,
}
use ossl_scripts.Stats.Balance.{
  IsBalanced, malloc_stats-IsBalanced, Keeps, free_stats-IsBalanced, realloc_stats-IsBalanced,
}
use Prim.Native.Nat.{max}
use mathlib.Core.Path.{subst}
use ossl_scripts.Stats.Runs.{malloc_stats-null, free_stats-null}

-- the counters before the first call, as static storage starts
pub record IsZeroed (m : Memstats) : Type 0 where
  pub current : m.ms_current ≡ 0
  pub maximum : m.ms_max ≡ 0
  pub allocated : m.ms_total_allocated ≡ 0
  pub released : m.ms_total_released ≡ 0

-- libc's contract: a block is not NULL, does not wrap, and is none of those in use
pub record IsRoom (mh : ℕ) (live : List Block) : Type 0 where
  pub found : 0 < mh
  pub small : mh + 16 < 2 ^ 64
  pub fresh : IsFresh mh live

-- `Session live peak p`: the calls so far have led to `p`, the blocks `live` have not been given
-- back, and never were more than `peak` bytes in use at once.
pub data Session : List Block → ℕ → Process → Type 0 where
  start : {p : Process} → IsZeroed p.ms → Session [] 0 p
  malloc_fails :
      {live : List Block} {peak : ℕ} {p q : Process} (malloc : ℕ → ℕ) (sz b : ℕ)
      → Session live peak p
      → malloc (sz +w 16) ≡ 0
      → malloc_stats malloc sz p ≡ done b q
      → Session live peak q
  mallocs :
      {live : List Block} {peak : ℕ} {p q : Process} (malloc : ℕ → ℕ) (sz b : ℕ)
      → Session live peak p
      → IsRoom (malloc (sz +w 16)) live
      → total live + sz < 2 ^ 64
      → malloc_stats malloc sz p ≡ done b q
      → Session (block (malloc (sz +w 16)) sz ∷ live) (max peak (total live + sz)) q
  frees_null :
      {live : List Block} {peak : ℕ} {p q : Process}
      → Session live peak p
      → free_stats 0 p ≡ done tt q
      → Session live peak q
  frees :
      (xs ys : List Block) (k : Block) {peak : ℕ} {p q : Process}
      → Session (xs ++ k ∷ ys) peak p
      → free_stats (user k) p ≡ done tt q
      → Session (xs ++ ys) peak q
  reallocs :
      (xs ys : List Block) (k : Block) {peak : ℕ} {p q : Process} (realloc : ℕ → ℕ → ℕ) (sz b : ℕ)
      → Session (xs ++ k ∷ ys) peak p
      → 0 < sz
      → IsRoom (realloc k.at (sz +w 16)) (xs ++ ys)
      → total (xs ++ ys) + sz < 2 ^ 64
      → realloc_stats realloc (user k) sz p ≡ done b q
      → Session (xs ++ block (realloc k.at (sz +w 16)) sz ∷ ys) (max peak (total (xs ++ ys) + sz)) q
  reallocs_to_zero :
      (xs ys : List Block) (k : Block) {peak : ℕ} {p q : Process} (realloc : ℕ → ℕ → ℕ) (b : ℕ)
      → Session (xs ++ k ∷ ys) peak p
      → realloc_stats realloc (user k) 0 p ≡ done b q
      → Session (xs ++ ys) peak q
  realloc_fails :
      (xs ys : List Block) (k : Block) {peak : ℕ} {p q : Process} (realloc : ℕ → ℕ → ℕ) (sz b : ℕ)
      → Session (xs ++ k ∷ ys) peak p
      → 0 < sz
      → realloc k.at (sz +w 16) ≡ 0
      → realloc_stats realloc (user k) sz p ≡ done b q
      → Session (xs ++ k ∷ ys) peak q
  reallocs_null :
      {live : List Block} {peak : ℕ} {p q : Process} (realloc : ℕ → ℕ → ℕ) (sz b : ℕ)
      → Session live peak p
      → 0 < sz
      → IsRoom (realloc 0 (sz +w 16)) live
      → total live + sz < 2 ^ 64
      → realloc_stats realloc 0 sz p ≡ done b q
      → Session (block (realloc 0 (sz +w 16)) sz ∷ live) (max peak (total live + sz)) q
  reallocs_nothing :
      {live : List Block} {peak : ℕ} {p q : Process} (realloc : ℕ → ℕ → ℕ) (sz b : ℕ)
      → Session live peak p
      → (sz ≡ 0) ⊎ (realloc 0 (sz +w 16) ≡ 0)
      → realloc_stats realloc 0 sz p ≡ done b q
      → Session live peak q

at_done :
    {A : Type 0} (P : A → Process → Type 0) {m : Outcome A} {a : A} {q : Process}
    → m ≡ done a q
    → Ensures P m
    → P a q
at_done P e h = subst (Ensures P) e h

-- In every session the ledger describes the process.
pub Session-Represents :
    {live : List Block} {peak : ℕ} {p : Process} → Session live peak p → Represents live peak p
unfolding total
Session-Represents (start z) = record {
  held = tt;
  current = z.current;
  bound = omega arith;
  below = omega arith;
  maximum = z.maximum;
}
Session-Represents (malloc_fails {live} {peak} {p} malloc sz b s null e) =
    at_done (λ _ q. Represents live peak q) e
      (rw (malloc_stats-null malloc sz p (rw null refl))
        (same_counters (Session-Represents s) refl refl))
Session-Represents (mallocs malloc sz b s room fits e) =
    (at_done _ e (
      malloc_stats-Represents (Session-Represents s) malloc sz (room.found, room.small, room.fresh)
        fits)).1
Session-Represents (frees_null {live} {peak} {p} s e) =
    at_done (λ _ q. Represents live peak q) e
      (rw (free_stats-null 0 p refl) (same_counters (Session-Represents s) refl refl))
Session-Represents (frees xs ys k s e) =
    (at_done _ e (free_stats-Represents xs ys k (Session-Represents s))).1
Session-Represents (reallocs xs ys k realloc sz b s some_sz room fits e) =
    (at_done _ e (
      realloc_stats-Represents xs ys k (Session-Represents s) realloc sz some_sz
        (room.found, room.small, room.fresh) fits)).1
Session-Represents (reallocs_to_zero xs ys k realloc b s e) =
    at_done _ e (realloc_stats-Represents_zero xs ys k (Session-Represents s) realloc)
Session-Represents (realloc_fails xs ys k realloc sz b s some_sz null e) =
    at_done _ e
      (realloc_stats-Represents_failed xs ys k (Session-Represents s) realloc sz some_sz null)
Session-Represents (reallocs_null realloc sz b s some_sz room fits e) = at_done _ e (
    realloc_stats-Represents_new (Session-Represents s) realloc sz some_sz
      (room.found, room.small, room.fresh) fits)
Session-Represents (reallocs_nothing realloc sz b s nothing e) =
    at_done _ e (realloc_stats-Represents_none (Session-Represents s) realloc sz nothing)

IsBalanced-at :
    {A : Type 0} {m : Outcome A} {a : A} {q : Process}
    → m ≡ done a q
    → Keeps IsBalanced m
    → IsBalanced q.ms
IsBalanced-at e h = subst (Keeps IsBalanced) e h

Session-IsBalanced :
    {live : List Block} {peak : ℕ} {p : Process} → Session live peak p → IsBalanced p.ms
Session-IsBalanced (start z) = rw (z.current, z.allocated, z.released) refl
Session-IsBalanced (malloc_fails {p} malloc sz b s null e) =
    IsBalanced-at e (malloc_stats-IsBalanced malloc sz p (Session-IsBalanced s))
Session-IsBalanced (mallocs {p} malloc sz b s room fits e) =
    IsBalanced-at e (malloc_stats-IsBalanced malloc sz p (Session-IsBalanced s))
Session-IsBalanced (frees_null {p} s e) =
    IsBalanced-at e (free_stats-IsBalanced 0 p (Session-IsBalanced s))
Session-IsBalanced (frees xs ys k {p} s e) =
    IsBalanced-at e (free_stats-IsBalanced (user k) p (Session-IsBalanced s))
Session-IsBalanced (reallocs xs ys k {p} realloc sz b s some_sz room fits e) =
    IsBalanced-at e (realloc_stats-IsBalanced realloc (user k) sz p (Session-IsBalanced s))
Session-IsBalanced (reallocs_to_zero xs ys k {p} realloc b s e) =
    IsBalanced-at e (realloc_stats-IsBalanced realloc (user k) 0 p (Session-IsBalanced s))
Session-IsBalanced (realloc_fails xs ys k {p} realloc sz b s some_sz null e) =
    IsBalanced-at e (realloc_stats-IsBalanced realloc (user k) sz p (Session-IsBalanced s))
Session-IsBalanced (reallocs_null {p} realloc sz b s some_sz room fits e) =
    IsBalanced-at e (realloc_stats-IsBalanced realloc 0 sz p (Session-IsBalanced s))
Session-IsBalanced (reallocs_nothing {p} realloc sz b s nothing e) =
    IsBalanced-at e (realloc_stats-IsBalanced realloc 0 sz p (Session-IsBalanced s))

-- A session is any sequence of calls of the three wrappers: `malloc` and `realloc` may answer NULL, and
-- otherwise keep to libc's contract; the blocks that are freed or resized are NULL or in use; the bytes
-- in use stay below 2 ^ 64. A block from `CRYPTO_realloc(NULL, 0)` is not in use in this sense, since it
-- is never counted. At the end of a session the bytes allocated less those released, modulo 2 ^ 64, are
-- the bytes of the blocks that were not given back, and the reported maximum is the most that was ever
-- in use at once.
pub Session-leaks :
    {live : List Block} {peak : ℕ} {p : Process}
    → Session live peak p
    → (p.ms.ms_total_allocated -w p.ms.ms_total_released ≡ total live) × (p.ms.ms_max ≡ peak)
Session-leaks s =
    (sym (Session-IsBalanced s) ∙ (Session-Represents s).current, (Session-Represents s).maximum)
