-- ===== src/Start.antt =====
-- mprofile/init.c: `mprofile_start`, which chooses the mode, the `init_*` functions and the hooks that
-- run at exit.
use ossl_scripts.Base.{
  [], none, some, true, false, ◌∷◌, ◌==◌, ℕ, List, Option, Bool, ◌&&◌, if◌then◌else◌,
}
pub mod Modes
mod Tests

-- the three functions handed to CRYPTO_set_mem_functions
pub data Wrappers : Type 0 where
  stats : Wrappers
  trace : Wrappers
  trace_with_stack : Wrappers

-- the function handed to `atexit`
pub data ExitHook : Type 0 where
  save_stats : ExitHook
  save_profile_trace : ExitHook
  save_profile_trace_link_chains : ExitHook

-- What the library has set up. `openssl` is none as long as OpenSSL's own functions are in use.
pub record Setup : Type 0 where
  pub openssl : Option Wrappers
  pub at_exit : List ExitHook
  pub has_ms_start : Bool  -- `ms.ms_start` holds the time
  pub has_profiles : Bool  -- `mprofile_init` has made the queue of profiles and its mutex
  pub has_key : Bool  -- `mp_pthrd_key` has been created
  pub has_out_file : Bool

abbrev pub nothing_set : Setup
nothing_set = record {
  openssl = none;
  at_exit = [];
  has_ms_start = false;
  has_profiles = false;
  has_key = false;
  has_out_file = false;
}

-- CRYPTO_set_mem_functions: it refuses (`accepts` false) once OpenSSL has allocated, and its answer
-- is not read.
pub set_mem_functions : (accepts : Bool) → Wrappers → Setup → Setup
set_mem_functions accepts w s = if accepts then record s { openssl = some w } else s

pub init_stats : (accepts : Bool) → Setup → Setup
unfolding set_mem_functions
init_stats accepts s =
    let set = set_mem_functions accepts stats (record s { has_ms_start = true }) in
    record set { at_exit = save_stats ∷ set.at_exit }

-- the common part of the other `init_*` functions
pub init_profiles : (accepts : Bool) → Wrappers → ExitHook → Setup → Setup
unfolding set_mem_functions
init_profiles accepts w hook s =
    let set = set_mem_functions accepts w (record s { has_profiles = true; has_key = true }) in
    record set { at_exit = hook ∷ set.at_exit }

pub init_trace : (accepts : Bool) → Setup → Setup
unfolding init_profiles
init_trace accepts = init_profiles accepts trace save_profile_trace

pub init_trace_with_chains : (accepts : Bool) → Setup → Setup
unfolding init_profiles
init_trace_with_chains accepts = init_profiles accepts trace save_profile_trace_link_chains

pub init_trace_with_stacks : (accepts : Bool) → Setup → Setup
unfolding init_profiles
init_trace_with_stacks accepts = init_profiles accepts trace_with_stack save_profile_trace

pub init_trace_with_stacks_with_chains : (accepts : Bool) → Setup → Setup
unfolding init_profiles
init_trace_with_stacks_with_chains accepts =
    init_profiles accepts trace_with_stack save_profile_trace_link_chains

-- `*mprofile_mode`; the empty string has the NUL there
abbrev pub first_byte : List ℕ → ℕ
first_byte [] = 0
first_byte (c ∷ cs) = c

-- the switch over the mode; `stacktrace` says whether `_WITH_STACKTRACE` was defined
pub init_mode : (stacktrace accepts : Bool) → (mode : ℕ) → Setup → Setup
unfolding init_stats init_trace init_trace_with_chains init_trace_with_stacks
    init_trace_with_stacks_with_chains
init_mode stacktrace accepts mode =
    if mode == b'1'
    then init_stats accepts
    else if mode == b'2'
    then init_trace accepts
    else if stacktrace && mode == b'3'
    then init_trace_with_stacks accepts
    else if mode == b'4'
    then init_trace_with_chains accepts
    else if stacktrace && mode == b'5'
    then init_trace_with_stacks_with_chains accepts
    else init_stats accepts

-- `default_mode`
abbrev pub mode_or_default : Option (List ℕ) → List ℕ
mode_or_default none = b'1' ∷ []
mode_or_default (some mode) = mode

-- `mprofile_start`: `mode` and `fname` are what `getenv` answers to MPROFILE_MODE and MPROFILE_OUTF,
-- and `opens` says whether `fopen` could open the file.
pub mprofile_start :
    (stacktrace accepts opens : Bool) → (mode fname : Option (List ℕ)) → Setup → Setup
unfolding init_mode
mprofile_start stacktrace accepts opens mode none s = s
mprofile_start stacktrace accepts opens mode (some name) s =
    if opens
    then init_mode stacktrace accepts (first_byte (mode_or_default mode))
        (record s { has_out_file = true })
    else s
