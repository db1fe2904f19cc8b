-- ===== src/Base64/Explicit.antt =====
-- base64.so/explicit.c: `runTest` and `main`. What `getopt`, `dlopen` and `dlsym` answer is a parameter.
use ossl_scripts.Base.{
  [], none, some, true, false, ◌∷◌, ◌==◌, ◌++◌, ◌-◌, ℕ, List, Option, Bool, if◌then◌else◌, codes,
  replicate, take, length,
}
use ossl_scripts.Base64.Words.{
  usage, invalid, exclusive, Parsed, Dlfcn, parse_exit_handler, main_at_exit_flag, parsed,
  parse_flags, base64_at_exit_flag,
}
use ossl_scripts.Base64.{Armed, Coded, main_at_exit, base64_arm_at_exit}
use Prim.Native.Nat.{bit_and}
pub mod Program

-- `base64Encode` and `base64Decode`
abbrev pub Base64Func : Type 0
Base64Func = (text : List ℕ) → (size : ℕ) → Coded

pub record Library : Type 0 where
  pub arms : Bool  -- `dlsym` finds `base64ArmAtExit`
  pub encode : Option Base64Func
  pub decode : Option Base64Func

-- what the program does, in order
pub data Effect : Type 0 where
  arm : Armed → Effect
  print : List ℕ → Effect

abbrev pub bufsz : ℕ
bufsz = 1024

abbrev pub msg : List ℕ
msg = codes "Hello World, base64 is linked implicitly\n"

abbrev pub encode_error : List ℕ
encode_error = codes "base64Encode() has failed\n"

abbrev pub decode_error : List ℕ
decode_error = codes "base64Decode() has failed\n"

-- a buffer that was all NUL and has got some bytes at its start
abbrev pub filled : List ℕ → List ℕ
filled out = out ++ replicate (bufsz - length out) 0

-- the bytes in front of the first NUL
unfoldable pub c_string : List ℕ → List ℕ
c_string [] = []
c_string (c ∷ cs) = if c == 0 then [] else c ∷ c_string cs

-- What `base64Decode` is given: after a failure the length is -1, which BIO_new_mem_buf takes for that
-- of the string.
abbrev pub decode_input : Coded → (rv : Option ℕ) → List ℕ
decode_input r none = c_string (filled r.out)
decode_input r (some n) = take n (filled r.out)

abbrev pub failure : List ℕ → Option ℕ → List Effect
failure message none = print message ∷ []
failure message (some n) = []

abbrev pub arm_if : (flags flag : ℕ) → Option Armed → List Effect
arm_if flags flag handler =
    if bit_and flags flag == flag then arm (base64_arm_at_exit handler) ∷ [] else []

-- `runTest`, with `atExitFuncs`
unfoldable pub run_test : (encode decode : Base64Func) → (at_exit_funcs : ℕ) → List Effect
unfolding c_string
run_test encode decode at_exit_funcs =
    let encoded = encode msg bufsz in
    let decoded = decode (decode_input encoded encoded.rv) bufsz in
    arm_if at_exit_funcs main_at_exit_flag (some main_at_exit)
    ++ (arm_if at_exit_funcs base64_at_exit_flag none
        ++ (failure encode_error encoded.rv
            ++ (failure decode_error decoded.rv
                ++ print (c_string (filled decoded.out) ++ b'\n' ∷ []) ∷ [])))

-- one answer of `getopt` for "a:l:f:"
pub data Opt : Type 0 where
  opt_l : List ℕ → Opt
  opt_f : List ℕ → Opt
  opt_a : List ℕ → Opt
  unknown : Opt

pub record Options : Type 0 where
  pub lib_name : Option (List ℕ)
  pub flags : Option (List ℕ)
  pub at_exit : Option (List ℕ)

-- the loop over `getopt`; `none` is a call of `usage`
unfoldable pub read_options : List Opt → Options → Option Options
read_options [] o = some o
read_options (opt_l name ∷ opts) o = read_options opts (record o { lib_name = some name })
read_options (opt_f flags ∷ opts) o = read_options opts (record o { flags = some flags })
read_options (opt_a handler ∷ opts) o = read_options opts (record o { at_exit = some handler })
read_options (unknown ∷ opts) o = none

-- how the program ends: `exit(1)` in `usage`, in `err` or `errx`, or after `runTest`
pub data Ended : Type 0 where
  usage_exit : Ended
  error_exit : Ended
  finished : List Effect → Ended

abbrev pub with_parsed : (ℕ → Ended) → Parsed → Ended
with_parsed k (parsed n) = k n
with_parsed k usage = usage_exit
with_parsed k (invalid word) = error_exit
with_parsed k exclusive = error_exit

-- `none` of the parser is not reached
abbrev pub with_handler : (ℕ → Ended) → Option Parsed → Ended
with_handler k none = error_exit
with_handler k (some p) = with_parsed k p

-- the three calls of `dlsym`, and `runTest`
abbrev pub run_library : (at_exit_funcs : ℕ) → Bool → (encode decode : Option Base64Func) → Ended
run_library funcs false encode decode = error_exit
run_library funcs true none decode = error_exit
run_library funcs true (some encode) none = error_exit
run_library funcs true (some encode) (some decode) = finished (run_test encode decode funcs)

-- `atExitFuncs`, which starts at 0
abbrev pub exit_funcs : Option (List ℕ) → (ℕ → Ended) → Ended
exit_funcs none k = k 0
exit_funcs (some handler) k = with_handler k (parse_exit_handler handler)

-- what follows the call of `dlopen`
abbrev pub with_library : Options → Option Library → Ended
with_library o none = error_exit
with_library o (some l) = exit_funcs o.at_exit (λ funcs. run_library funcs l.arms l.encode l.decode)

module _ (d : Dlfcn) (dlopen : (name : List ℕ) → (flags : ℕ) → Option Library) where
  -- behind the options: `lib_name` and `flags` must be there
  unfoldable pub open_library : Options → (flags lib_name : Option (List ℕ)) → Ended
  unfolding run_test
  open_library o none lib = usage_exit
  open_library o (some flags) none = usage_exit
  open_library o (some flags) (some lib) =
      with_parsed (λ f. with_library o (dlopen lib f)) (parse_flags d flags)

  abbrev no_options : Options
  no_options = record { lib_name = none; flags = none; at_exit = none }

  abbrev pub with_options : Option Options → Ended
  with_options none = usage_exit
  with_options (some o) = open_library o o.flags o.lib_name

  -- `main`, with the answers of `getopt`
  unfoldable pub explicit_main : List Opt → Ended
  unfolding read_options open_library
  explicit_main opts = with_options (read_options opts no_options)
