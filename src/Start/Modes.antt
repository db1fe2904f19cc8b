-- ===== src/Start/Modes.antt =====
-- What each value of MPROFILE_MODE sets up in mprofile/init.c.
use ossl_scripts.Base.{
  [], none, some, true, false, inl, inr, refl, ◌∷◌, ◌≡◌, ◌==◌, ℕ, List, Option, Bool, ◌&&◌, ◌||◌,
  ◌⊎◌, if◌then◌else◌, ◌≢◌,
}
use ossl_scripts.Start.{
  Wrappers, ExitHook, Setup, mprofile_start, save_stats, trace_with_stack, trace, stats,
  save_profile_trace_link_chains, save_profile_trace,
}

-- the hook and the state that the wrappers need
abbrev pub Serves : Setup → Wrappers → ExitHook → Type 0
Serves s stats hook = (hook ≡ save_stats) × (s.has_ms_start ≡ true)
Serves s trace hook = (hook ≢ save_stats) × (s.has_profiles ≡ true) × (s.has_key ≡ true)
Serves s trace_with_stack hook = (hook ≢ save_stats) × (s.has_profiles ≡ true) × (s.has_key ≡ true)

-- the wrappers that a mode asks for
abbrev pub wrappers_of : (stacktrace : Bool) → (mode : ℕ) → Wrappers
wrappers_of stacktrace mode =
    if stacktrace && (mode == b'3' || mode == b'5')
    then trace_with_stack
    else if mode == b'2' || mode == b'4'
    then trace
    else stats

-- whether a mode links the records of one buffer
abbrev pub links : (stacktrace : Bool) → (mode : ℕ) → Bool
links stacktrace mode = mode == b'4' || (stacktrace && mode == b'5')

-- what writes the records of the wrappers
abbrev pub hook_for : Wrappers → (links : Bool) → ExitHook
hook_for stats b = save_stats
hook_for trace b = if b then save_profile_trace_link_chains else save_profile_trace
hook_for trace_with_stack b = if b then save_profile_trace_link_chains else save_profile_trace

abbrev pub hook_of : (stacktrace : Bool) → (mode : ℕ) → ExitHook
hook_of stacktrace mode = hook_for (wrappers_of stacktrace mode) (links stacktrace mode)

-- what is set up for the mode `c`
abbrev Sets : (stacktrace : Bool) → (c : ℕ) → Setup → Type 0
Sets stacktrace c s =
    let w = wrappers_of stacktrace c in
    let hook = hook_of stacktrace c in
    (s.openssl ≡ some w) × (s.at_exit ≡ hook ∷ []) × Serves s w hook

-- Without a file to write to nothing is set up: OpenSSL keeps its own functions.
mprofile_start-none :
    (stacktrace accepts opens : Bool) (mode fname : Option (List ℕ))
    → (fname ≡ none) ⊎ (opens ≡ false)
    → (s : Setup) → mprofile_start stacktrace accepts opens mode fname s ≡ s
unfolding mprofile_start
mprofile_start-none stacktrace accepts opens mode none h s = refl
mprofile_start-none stacktrace accepts opens mode (some name) (inl bad) s = cc
mprofile_start-none stacktrace accepts opens mode (some name) (inr closed) s = rw closed refl
