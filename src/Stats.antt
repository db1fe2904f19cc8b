-- ===== src/Stats.antt =====
-- Mode 1 of the profiler, mprofile/init.c: `struct memhdr`, `struct memstats`, `update_alloc`, `update_release` and the
-- three `mp_CRYPTO_*_stats` functions. What libc's `malloc` and `realloc` answer is an argument.
use Prim.Native.Nat.{bit_xor}
pub mod Counters
mod Runs
pub mod Balance
pub mod Ledger
pub mod Session
pub mod Threads
pub mod Faults
mod Tests
use ossl_scripts.Base.{
  ℕ, zero, suc, Bool, ◌&&◌, not, Option, none, some, List, ◌∷◌, ltb, ◌==◌, if◌then◌else◌,
}
use ossl_scripts.Words.{◌+w◌, ◌-w◌}

-- the header in front of every block
pub record Memhdr : Type 0 where
  pub mh_size : ℕ
  pub mh_chk : ℕ

pub record Timespec : Type 0 where
  pub tv_sec : ℕ
  pub tv_nsec : ℕ

pub record Memstats : Type 0 where
  pub ms_total_allocated : ℕ
  pub ms_total_released : ℕ
  pub ms_reallocs : ℕ
  pub ms_allocs : ℕ
  pub ms_free : ℕ
  pub ms_max : ℕ
  pub ms_current : ℕ
  pub ms_start : Timespec
  pub ms_finish : Timespec

-- a call that reaches libc's allocator
pub data LibcCall : Type 0 where
  malloc_call : (size : ℕ) → LibcCall
  realloc_call : (ptr size : ℕ) → LibcCall
  free_call : (ptr : ℕ) → LibcCall

-- The counters, the header that memory holds at each address, and the calls made so far, the
-- latest first. An address is a number, and NULL is 0.
pub record Process : Type 0 where
  pub ms : Memstats
  pub mem : ℕ → Memhdr
  pub calls : List LibcCall

-- `spinning`: the fuel of the compare-and-exchange loop ran out
pub data Outcome (A : Type 0) : Type 0 where
  done : A → Process → Outcome A
  aborted : Outcome A
  spinning : Outcome A

abbrev pub Cmd : Type 0 → Type 0
Cmd A = Process → Outcome A

abbrev pub pure : {A : Type 0} → A → Cmd A
pure a p = done a p

abbrev pub abort : {A : Type 0} → Cmd A
abort p = aborted

abbrev pub and_then : {A B : Type 0} → Outcome A → (A → Cmd B) → Outcome B
and_then (done a p) k = k a p
and_then aborted k = aborted
and_then spinning k = spinning

infixl 5 ◌>>=◌ ◌>>◌
abbrev pub ◌>>=◌ : {A B : Type 0} → Cmd A → (A → Cmd B) → Cmd B
◌>>=◌ m k p = and_then (m p) k

abbrev pub ◌>>◌ : {B : Type 0} → Cmd (Unit {0}) → Cmd B → Cmd B
m >> k = m >>= λ _. k

abbrev pub modify : (Memstats → Memstats) → Cmd (Unit {0})
modify f p = done tt (record p { ms = f p.ms })

abbrev pub load : ℕ → Cmd Memhdr
load a p = done (p.mem a) p

abbrev pub write : (ℕ → Memhdr) → ℕ → Memhdr → ℕ → Memhdr
write mem a h b = if a == b then h else mem b

abbrev pub store : ℕ → Memhdr → Cmd (Unit {0})
store a h p = done tt (record p { mem = write p.mem a h })

abbrev pub libc : LibcCall → Cmd (Unit {0})
libc c p = done tt (record p { calls = c ∷ p.calls })

-- `sizeof (struct memhdr)`
abbrev pub sizeof_memhdr : ℕ
sizeof_memhdr = 16

-- `(uint64_t)mh ^ sz`
abbrev pub checksum : ℕ → ℕ → ℕ
checksum mh sz = bit_xor mh sz

-- The header that the wrappers write at `mh` for a block of `sz` bytes.
abbrev pub header : ℕ → ℕ → Memhdr
header mh sz = record { mh_size = sz; mh_chk = checksum mh sz }

abbrev pub is_intact : ℕ → Memhdr → Bool
is_intact mh h = checksum mh h.mh_size == h.mh_chk

-- The loop of `update_alloc`: `local` is the variable `max`, `shared` is `ms.ms_max`. A successful
-- exchange leaves `local` as it is, a failed one loads `shared` into it.
pub raise_max : ℕ → (current local shared : ℕ) → Option ℕ
raise_max zero current local shared = none
raise_max (suc fuel) current local shared =
    let rest =
      raise_max fuel current (if shared == local then local else shared)
        (if shared == local then current else shared) in
    if ltb local current then rest else some shared

pub update_alloc : (delta : ℕ) → Cmd (Unit {0})
update_alloc delta p =
    let current = p.ms.ms_current +w delta in
    elim (raise_max 3 current p.ms.ms_max p.ms.ms_max) [
      | none ↦ spinning
      | some m ↦ done tt (record p { ms = record p.ms { ms_current = current; ms_max = m } })
    ]

pub update_release : (delta : ℕ) → Cmd (Unit {0})
update_release delta = modify λ m. record m { ms_current = m.ms_current -w delta }

pub add_allocs : Cmd (Unit {0})
add_allocs = modify λ m. record m { ms_allocs = m.ms_allocs +w 1 }

pub add_free : Cmd (Unit {0})
add_free = modify λ m. record m { ms_free = m.ms_free +w 1 }

pub add_reallocs : Cmd (Unit {0})
add_reallocs = modify λ m. record m { ms_reallocs = m.ms_reallocs +w 1 }

pub add_total_allocated : ℕ → Cmd (Unit {0})
add_total_allocated n = modify λ m. record m { ms_total_allocated = m.ms_total_allocated +w n }

pub add_total_released : ℕ → Cmd (Unit {0})
add_total_released n = modify λ m. record m { ms_total_released = m.ms_total_released +w n }

-- the counters of a new block
pub count_alloc : (sz : ℕ) → Cmd (Unit {0})
unfolding add_allocs add_total_allocated
count_alloc sz = do add_allocs; add_total_allocated sz; update_alloc sz

-- the counters of a block that is given back
pub count_free : (size : ℕ) → Cmd (Unit {0})
unfolding add_free add_total_released update_release
count_free size = do add_free; add_total_released size; update_release size

-- the counters of a block that goes from `old` to `sz` bytes
pub count_realloc : (old sz : ℕ) → Cmd (Unit {0})
unfolding add_reallocs add_total_allocated add_total_released update_release
count_realloc old sz = do
  add_reallocs
  if ltb sz old
      then (do update_release (old -w sz); add_total_released (old -w sz))
      else do add_total_allocated (sz -w old); update_alloc (sz -w old)

-- `mp_CRYPTO_malloc_stats`
pub malloc_stats : (malloc : ℕ → ℕ) → (sz : ℕ) → Cmd ℕ
malloc_stats malloc sz = do
  libc (malloc_call (sz +w sizeof_memhdr))
  let mh = malloc (sz +w sizeof_memhdr)
  if mh == 0 then pure 0 else do store mh (header mh sz); count_alloc sz; pure (mh +w sizeof_memhdr)

-- `mp_CRYPTO_free_stats`
pub free_stats : (b : ℕ) → Cmd (Unit {0})
free_stats b = if b == 0 then libc (free_call 0) else do
  let mh = b -w sizeof_memhdr
  h ← load mh
  if not (is_intact mh h) then abort else do count_free h.mh_size; libc (free_call mh)

-- What `mp_CRYPTO_realloc_stats` does once the header of `b` has been read into `save_mh`; `mh` is
-- NULL and `save_mh` is not read if `b` is NULL.
realloc_tail : (realloc : ℕ → ℕ → ℕ) → (b sz mh : ℕ) → (save_mh : Memhdr) → Cmd ℕ
realloc_tail realloc b sz mh save_mh = do
  if sz == 0 && not (b == 0) then count_free save_mh.mh_size else pure tt
  let size = if sz == 0 then 0 else sz +w sizeof_memhdr
  libc (realloc_call mh size)
  let new = realloc mh size
  if new == 0 then pure 0 else if sz == 0 then pure (new +w sizeof_memhdr) else do
    store new (header new sz)
    if b == 0 then count_alloc sz else count_realloc save_mh.mh_size sz
    pure (new +w sizeof_memhdr)

-- `mp_CRYPTO_realloc_stats`
pub realloc_stats : (realloc : ℕ → ℕ → ℕ) → (b sz : ℕ) → Cmd ℕ
unfolding realloc_tail
realloc_stats realloc b sz = if b == 0 then realloc_tail realloc b sz 0 (header 0 0) else do
  let mh = b -w sizeof_memhdr
  h ← load mh
  if not (is_intact mh h) then abort else realloc_tail realloc b sz mh h
