-- ===== src/Trace.antt =====
-- mprofile/init.c, modes 2 to 5: `get_mprofile`, the `mp_CRYPTO_*_trace` and
-- `mp_CRYPTO_*_trace_with_stack` functions. The two families differ in the stack that they record.
pub mod Events
pub mod Calls
pub mod Release
pub mod Steps
pub mod Shared
pub mod Program
pub mod Together
pub mod Runs
pub mod Session
mod Tests
use mathlib.Core.Option
use ossl_scripts.Base.{[], ◌∷◌, ◌==◌, ◌++◌, ℕ, List, Option, if◌then◌else◌, not, update}
use ossl_scripts.Words.{◌+w◌, ◌-w◌}
use ossl_scripts.Tree.{RbTree}
use ossl_scripts.Stack.{Stray, MpsStack, init_stack, collect_backtrace}
use ossl_scripts.Profile.{
  Mprofile, Answers, Store, record_free, create_mprofile, record_alloc, record_realloc,
}
use ossl_scripts.Stats.{
  LibcCall, Memhdr, header, malloc_call, sizeof_memhdr, free_call, is_intact, realloc_call,
}

-- the size of `stack_buf`
abbrev pub stack_buf_size : ℕ
stack_buf_size = 512

module _ (T : RbTree) (stray : Stray) where
  -- The thread's own profile is `specific` (a thread-specific value, by thread; 0 is NULL), and
  -- `profiles` the queue of all profiles, by address in `profs`.
  pub record Tracer : Type 0 where
    pub mem : ℕ → Memhdr
    pub store : Store T stray
    pub profs : ℕ → Mprofile T stray
    pub profiles : List ℕ
    pub specific : ℕ → ℕ
    pub calls : List LibcCall

  -- `crashed`: a NULL pointer is followed
  pub data Traced (A : Type 0) : Type 0 where
    traced : A → Tracer → Traced A
    aborted : Traced A
    crashed : Traced A

  abbrev pub Cmd : Type 0 → Type 0
  Cmd A = Tracer → Traced A

  abbrev pub pure : {A : Type 0} → A → Cmd A
  pure a s = traced a s

  abbrev pub and_then : {A B : Type 0} → Traced A → (A → Cmd B) → Traced B
  and_then (traced a s) k = k a s
  and_then aborted k = aborted
  and_then crashed k = crashed

  infixl 5 ◌>>=◌ ◌>>◌
  abbrev pub ◌>>=◌ : {A B : Type 0} → Cmd A → (A → Cmd B) → Cmd B
  ◌>>=◌ m k s = and_then (m s) k

  abbrev pub ◌>>◌ : {B : Type 0} → Cmd (Unit {0}) → Cmd B → Cmd B
  m >> k = m >>= λ _. k

  abbrev pub abort : {A : Type 0} → Cmd A
  abort s = aborted

  abbrev pub libc : LibcCall → Cmd (Unit {0})
  libc c s = traced tt (record s { calls = c ∷ s.calls })

  abbrev pub load : ℕ → Cmd Memhdr
  load a s = traced (s.mem a) s

  abbrev pub store_header : ℕ → Memhdr → Cmd (Unit {0})
  store_header a h s = traced tt (record s { mem = update s.mem a h })

  -- What the environment answers to one call: the thread, the address that `malloc` gives to a new
  -- profile, libc's `malloc` and `realloc` for the block, and the memory for the record.
  pub record Env : Type 0 where
    pub thread : ℕ
    pub profile : ℕ
    pub malloc : ℕ → ℕ
    pub realloc : ℕ → ℕ → ℕ
    pub answers : Answers T stray

  -- `mprofile_add`: the profile goes to the end of the queue. NULL is followed.
  unfoldable pub add_profile : (mp : ℕ) → Cmd (Unit {0})
  add_profile mp s =
      if mp == 0 then crashed else traced tt (record s { profiles = s.profiles ++ mp ∷ [] })

  -- `get_mprofile`: the profile of the thread, made at its first call
  unfoldable pub get_mprofile : Env → Cmd ℕ
  unfolding add_profile
  get_mprofile env s =
      if not (s.specific env.thread == 0)
      then traced (s.specific env.thread) s
      else (do
        (λ s. traced tt (record s { profs = update s.profs env.profile (create_mprofile T stray) }))
        add_profile env.profile
        (λ s. traced tt (record s { specific = update s.specific env.thread env.profile }))
        pure env.profile)
          s

  -- a `mprofile_record_*` on the profile at `mp`
  unfoldable pub on_profile :
      (mp : ℕ)
      → (Mprofile T stray → Store T stray → Mprofile T stray × Store T stray)
      → Cmd (Unit {0})
  on_profile mp f s =
      let (profile, store) = f (s.profs mp) s.store in
      traced tt (record s { profs = update s.profs mp profile; store = store })

  -- `mp_CRYPTO_malloc_trace` with `mps` none, `mp_CRYPTO_malloc_trace_with_stack` with the stack
  unfoldable pub malloc_trace : Env → Option MpsStack → (sz : ℕ) → Cmd ℕ
  unfolding on_profile
  malloc_trace env mps sz = do
    mp ← get_mprofile env
    libc (malloc_call (sz +w sizeof_memhdr))
    let mh = env.malloc (sz +w sizeof_memhdr)
    if mh == 0 then pure tt else store_header mh (header mh sz)
    let rv = if mh == 0 then 0 else mh +w sizeof_memhdr
    on_profile mp (record_alloc T stray env.answers rv sz mps)
    pure rv

  -- `mp_CRYPTO_free_trace` and `mp_CRYPTO_free_trace_with_stack`
  unfoldable pub free_trace : Env → Option MpsStack → (b : ℕ) → Cmd (Unit {0})
  unfolding on_profile
  free_trace env mps b = do
    mp ← get_mprofile env
    if b == 0
        then (do on_profile mp (record_free T stray env.answers 0 0 mps); libc (free_call 0))
        else do
          h ← load (b -w sizeof_memhdr)
          if not (is_intact (b -w sizeof_memhdr) h) then abort else do
            on_profile mp (record_free T stray env.answers b h.mh_size mps)
            libc (free_call (b -w sizeof_memhdr))

  -- What `mp_CRYPTO_realloc_trace` does once the header has been read into `save_mh`; `before` is
  -- recorded with the release to no bytes, `mps` with all else.
  pub realloc_trace_tail :
      Env → (before mps : Option MpsStack) → (mp b sz mh : ℕ) → (save_mh : Memhdr) → Cmd ℕ
  unfolding on_profile
  realloc_trace_tail env before mps mp b sz mh save_mh = do
    if sz == 0
        then on_profile mp
            (record_free T stray env.answers b (if b == 0 then 0 else save_mh.mh_size) before)
        else pure tt
    let size = if sz == 0 then 0 else sz +w sizeof_memhdr
    libc (realloc_call mh size)
    let new = env.realloc mh size
    if new == 0 then pure 0 else if sz == 0 then pure b else do
      store_header new (header new sz)
      if b == 0
          then on_profile mp (record_alloc T stray env.answers (new +w sizeof_memhdr) sz mps)
          else on_profile mp
              (record_realloc T stray env.answers (new +w sizeof_memhdr) sz save_mh.mh_size b mps)
      pure (new +w sizeof_memhdr)

  pub realloc_trace : Env → (before mps : Option MpsStack) → (b sz : ℕ) → Cmd ℕ
  unfolding realloc_trace_tail
  realloc_trace env before mps b sz = do
    mp ← get_mprofile env
    if b == 0 then realloc_trace_tail env before mps mp b sz 0 (header 0 0) else do
      h ← load (b -w sizeof_memhdr)
      if not (is_intact (b -w sizeof_memhdr) h)
          then abort
          else realloc_trace_tail env before mps mp b sz (b -w sizeof_memhdr) h

  -- the stack that the `_with_stack` functions collect in `stack_buf`, from the unwinder's frames
  pub stack_here : List ℕ → Option MpsStack
  stack_here fs = Option.map (λ m. collect_backtrace m fs) (init_stack stack_buf_size)

  pub malloc_trace_with_stack : Env → List ℕ → (sz : ℕ) → Cmd ℕ
  unfolding malloc_trace stack_here
  malloc_trace_with_stack env fs = malloc_trace env (stack_here fs)

  pub free_trace_with_stack : Env → List ℕ → (b : ℕ) → Cmd (Unit {0})
  unfolding free_trace stack_here
  free_trace_with_stack env fs = free_trace env (stack_here fs)

  -- The stack is collected after `realloc`, so a release to no bytes is recorded with an empty one.
  pub realloc_trace_with_stack : Env → List ℕ → (b sz : ℕ) → Cmd ℕ
  unfolding realloc_trace stack_here
  realloc_trace_with_stack env fs = realloc_trace env (init_stack stack_buf_size) (stack_here fs)
