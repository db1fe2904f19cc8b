-- ===== src/Base64/Explicit/Program.antt =====
-- What the test programs of base64.so print.
use ossl_scripts.Base.{
  [], none, some, refl, ◌∷◌, ◌≡◌, ◌≢◌, ◌++◌, ◌-◌, ℕ, List, take, length, replicate, ap, true, ◌<◌,
  ◌≤◌, Option, arith, sym, ◌∙◌, codes,
}
use ossl_scripts.Base64.Explicit.{
  run_test, Base64Func, Effect, arm_if, print, msg, bufsz, main_at_exit_flag, main_at_exit,
  base64_at_exit_flag, explicit_main, finished, Dlfcn, Library, opt_l, opt_f, opt_a, arm,
}
use ossl_scripts.Base64.{Bio, base64_encode, base64_decode, Coded}
use ossl_scripts.Base64.Implicit.{implicit_main}
use ossl_scripts.Base64.Codec.{IsBase64, base64_decode-base64_encode}
use mathlib.Core.List.{append_assoc, map}
use ossl_scripts.Base64.Flags.{
  Flag, together, Lacks, join, spelled, parse_flags_words, checked-parsed, both,
}
use ossl_scripts.Base64.ExitHandlers.{parse_exit_handler-part}
use Prim.Native.Nat.{bit_or, bit_and}

take-append : (xs ys : List ℕ) → take (length xs) (xs ++ ys) ≡ xs
take-append [] ys = refl
take-append (x ∷ xs) ys = ap (λ (l : List ℕ). x ∷ l) (take-append xs ys)

-- The codec makes the message of the program again.
pub record IsCodec (encode decode : Base64Func) : Type 0 where
  pub text : List ℕ
  pub encodes : encode msg bufsz ≡ record { rv = some (length text); out = text }
  pub decodes : decode text bufsz ≡ record { rv = some (length msg); out = msg }

-- what is armed
abbrev pub armed : (funcs : ℕ) → List Effect
armed funcs =
    arm_if funcs main_at_exit_flag (some main_at_exit) ++ arm_if funcs base64_at_exit_flag none

run_test_lem :
    (encode decode : Base64Func) (funcs : ℕ)
    → IsCodec encode decode
    → run_test encode decode funcs ≡ armed funcs ++ print (msg ++ b'\n' ∷ []) ∷ []
unfolding run_test
run_test_lem encode decode funcs ok =
    rw (ok.encodes, take-append ok.text (replicate (bufsz - length ok.text) 0), ok.decodes)
      (sym (
        append_assoc (arm_if funcs main_at_exit_flag (some main_at_exit))
          (arm_if funcs base64_at_exit_flag none) (print (msg ++ b'\n' ∷ []) ∷ [])))

-- base64.c is such a codec if OpenSSL does as documented and the encoding of the message fits the buffer.
pub base64-IsCodec :
    (bio : Bio) (encoded decoded : List ℕ → List ℕ)
    → IsBase64 bio encoded decoded
    → decoded (encoded msg) ≡ msg
    → 0 < length (encoded msg)
    → length (encoded msg) ≤ bufsz
    → IsCodec (base64_encode bio) (base64_decode bio)
base64-IsCodec bio encoded decoded ok back pos fits =
    let (e, r) =
      base64_decode-base64_encode bio encoded decoded ok msg bufsz bufsz back pos fits (omega arith)
        (omega arith) (omega arith) (omega arith) in
    record {
      text = encoded msg;
      encodes = e;
      decodes = ap (λ (c : Coded). base64_decode bio c.out bufsz) (sym e) ∙ r;
    }

-- Called with a library, flags and a part of the name of its own handler, the program loads the library
-- with the `|` of these flags, arms the handler and prints the message, if the flags do not together
-- have all bits of `now` and `lazy`, the library can be loaded and has the three functions, and these
-- make the message again.
pub explicit_main-runs :
    (d : Dlfcn) (dlopen : List ℕ → ℕ → Option Library) (lib : List ℕ) (f : Flag) (fs : List Flag)
    (encode decode : Base64Func) (xs w ys : List ℕ)
    → bit_and (together d 0 (f ∷ fs)) (both d) ≢ both d
    → dlopen lib (together d 0 (f ∷ fs))
      ≡ some (record { arms = true; encode = some encode; decode = some decode })
    → IsCodec encode decode
    → xs ++ (w ++ ys) ≡ codes "mainAtExit"
    → Lacks b',' w
    → explicit_main d dlopen
        (opt_l lib ∷ opt_f (join b'|' (spelled f) (map spelled fs)) ∷ opt_a w ∷ [])
      ≡ finished (arm main_at_exit ∷ print (msg ++ b'\n' ∷ []) ∷ [])
unfolding explicit_main
explicit_main-runs d dlopen lib f fs encode decode xs w ys flags opened ok part lacks =
    rw
      (
        parse_flags_words d f fs,
        checked-parsed d (together d 0 (f ∷ fs)) flags,
        opened,
        parse_exit_handler-part xs w ys part lacks,
        run_test_lem encode decode (bit_or 0 main_at_exit_flag) ok,
      )
      refl

-- Without an option implicit.c arms the handlers that its variable `atExitFuncs` happens to name, which
-- nothing has set.
pub implicit_main-junk :
    (encode decode : Base64Func) (junk : ℕ)
    → IsCodec encode decode
    → implicit_main encode decode junk [] ≡ finished (armed junk ++ print (msg ++ b'\n' ∷ []) ∷ [])
unfolding implicit_main
implicit_main-junk encode decode junk ok = ap finished (run_test_lem encode decode junk ok)
