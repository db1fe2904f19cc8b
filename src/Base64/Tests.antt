-- ===== src/Base64/Tests.antt =====
-- The programs of base64.so with a stand-in for OpenSSL, and the theorems at them.
use ossl_scripts.Base.{
  [], zero, suc, none, some, true, false, refl, ◌∷◌, ◌≡◌, ◌++◌, ◌+◌, ◌-◌, ◌<◌, ℕ, List, Option,
  arith, take, map, ◌≢◌, ◌⊎◌, drop, codes, length, sym, replicate,
}
use ossl_scripts.Base64.{Bio, base64_encode, base64_decode, is_some_read, main_at_exit}
use ossl_scripts.Base64.Explicit.Program.{IsCodec, base64-IsCodec, explicit_main-runs}
use ossl_scripts.Base64.Words.{
  name_to_flag, checked, Dlfcn, parse_flags, parse_exit_handler, invalid, exclusive, parsed,
}
use ossl_scripts.Base64.Explicit.{
  Library, explicit_main, finished, opt_l, opt_f, arm, opt_a, print, msg, c_string, Base64Func,
}
use ossl_scripts.Base64.Codec.{IsBase64, base64_encode-short, base64_decode-base64_encode}
use ossl_scripts.Base64.Flags.{parse_flags-join, parse_flags-trailing, lazy, now, global}
use ossl_scripts.Base64.ExitHandlers.{parse_exit_handler-comma}
use Prim.Native.Nat.{bit_and}
use ossl_scripts.Base64.Dll.{
  dll_main, dll_msg, hello, at_exit, fake_cleanup, to_stdout, dll_main-junk, free_library,
}

-- a filter that writes every byte one higher, and gives it back one lower
abbrev raised : List ℕ → List ℕ
raised = map (λ c. c + 1)

abbrev lowered : List ℕ → List ℕ
lowered = map (λ c. c - 1)

abbrev read_some : List ℕ → ℕ → Option (List ℕ) × List ℕ
read_some [] n = (none, [])
read_some (c ∷ cs) n = (some (take n (c ∷ cs)), drop n (c ∷ cs))

abbrev shifting : Bio
shifting = record {
  Chain = List ℕ;
  new_encoder = some [];
  new_decoder = λ text. some (lowered text);
  write = λ c text. (some (length text), c ++ raised text);
  flush = λ c. c;
  read_mem = read_some;
  read_base64 = read_some;
}

drop_nil : (n : ℕ) → drop {A = ℕ} n [] ≡ []
drop_nil zero = refl
drop_nil (suc n) = refl

reads_some :
    (c : List ℕ) (n : ℕ)
    → ((read_some c n).1 ≡ drop n c)
      × (0 < length c → 0 < n → (read_some c n).0 ≡ some (take n c))
      × (c ≡ [] → is_some_read (read_some c n).0 ≡ false)
reads_some [] n = (sym (drop_nil n), λ h. absurd (omega arith), λ e. refl)
reads_some (c ∷ cs) n = (refl, λ h k. refl, λ e. cc)

shifting-IsBase64 : IsBase64 shifting raised lowered
shifting-IsBase64 = record {
  waiting_mem = λ c. c;
  waiting_base64 = λ c. c;
  reads_mem = reads_some;
  reads_base64 = reads_some;
  encoder = [];
  has_encoder = refl;
  writes = λ text. refl;
  flushes = λ text. refl;
  decoder = lowered;
  has_decoder = λ text. refl;
  decodes = λ text. refl;
}

base64_decode-base64_encode_example :
    (base64_encode shifting (1 ∷ 2 ∷ []) 5 ≡ record { rv = some 2; out = 2 ∷ 3 ∷ [] })
    × (base64_decode shifting (base64_encode shifting (1 ∷ 2 ∷ []) 5).out 2
        ≡ record { rv = some 2; out = 1 ∷ 2 ∷ [] })
base64_decode-base64_encode_example =
    base64_decode-base64_encode shifting raised lowered shifting-IsBase64 (1 ∷ 2 ∷ []) 5 2 refl
      (omega arith) (omega arith) (omega arith) (omega arith) (omega arith) (omega arith)

base64_encode-short_example : (base64_encode shifting (1 ∷ 2 ∷ []) 1).rv ≡ none
base64_encode-short_example =
    base64_encode-short shifting raised lowered shifting-IsBase64 (1 ∷ 2 ∷ []) 1 (omega arith)
      (omega arith) (omega arith) (omega arith)

-- the values of OpenBSD's <dlfcn.h>
abbrev openbsd : Dlfcn
openbsd = record { rtld_now = 2; rtld_lazy = 1; rtld_global = 256; rtld_local = 0 }

parse_flags-join_example :
    ((bit_and 258 3 ≡ 3) × (parse_flags openbsd (codes "now|global") ≡ exclusive))
    ⊎ ((bit_and 258 3 ≢ 3) × (parse_flags openbsd (codes "now|global") ≡ parsed 258))
parse_flags-join_example = parse_flags-join openbsd now (global ∷ [])

parse_flags-trailing_example : parse_flags openbsd (codes "lazy|") ≡ exclusive
unfolding checked
parse_flags-trailing_example = parse_flags-trailing openbsd lazy [] (omega arith)

parse_exit_handler-comma_example :
    parse_exit_handler (codes "mainAtExit,base64AtExit")
    ≡ some (invalid (codes "mainAtExit,base64AtExit"))
parse_exit_handler-comma_example =
    parse_exit_handler-comma (codes "mainAtExit") (codes "base64AtExit")

both_refused : parse_flags openbsd (codes "lazy|now") ≡ exclusive
unfolding parse_flags name_to_flag
both_refused = refl

shifting-IsCodec : IsCodec (base64_encode shifting) (base64_decode shifting)
shifting-IsCodec =
    base64-IsCodec shifting raised lowered shifting-IsBase64 refl (omega arith) (omega arith)

abbrev dlopen : List ℕ → ℕ → Option Library
dlopen name flags = some (record {
  arms = true;
  encode = some (base64_encode shifting);
  decode = some (base64_decode shifting);
})

explicit_main-runs_example :
    explicit_main openbsd dlopen
      (opt_l (codes "libbase64.so") ∷ opt_f (codes "now|global") ∷ opt_a (codes "main") ∷ [])
    ≡ finished (arm main_at_exit ∷ print (msg ++ 10 ∷ []) ∷ [])
explicit_main-runs_example =
    explicit_main-runs openbsd dlopen (codes "libbase64.so") now (global ∷ [])
      (base64_encode shifting) (base64_decode shifting) [] (codes "main") (codes "AtExit")
      (omega arith) refl shifting-IsCodec refl (ground arith)

-- a coder that knows the one text
abbrev fixed : (n : ℕ) → List ℕ → Base64Func
fixed n bytes text size = record { rv = some n; out = bytes }

dll_main-junk_example :
    dll_main (replicate 12 88 ++ 0 ∷ []) (
      some (record {
        encode = some (fixed 2 (65 ∷ 66 ∷ []));
        decode = some (fixed 12 dll_msg);
        init = true;
      }))
    ≡ record {
      status = 0;
      effects =
          hello ∷ at_exit fake_cleanup ∷ to_stdout (codes "Hello World!X\n") ∷ free_library ∷ [];
    }
unfolding c_string
dll_main-junk_example =
    dll_main-junk (replicate 12 88 ++ 0 ∷ []) (fixed 2 (65 ∷ 66 ∷ [])) (fixed 12 dll_msg) 1
      (65 ∷ 66 ∷ []) refl refl
