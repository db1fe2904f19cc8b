-- ===== src/Base64/Dll.antt =====
-- The variant of the library and of its test for Windows: base64.dll/base64.dll/base64.cpp, whose
-- `base64Encode` and `base64Decode` have the text of base64.so/base64.c, and `main` of
-- base64.dll/DllTest/DllTest.cpp. What LoadLibrary and GetProcAddress answer is a parameter.
use ossl_scripts.Base64.{Bio, Coded, base64_encode, base64_decode}
use ossl_scripts.Base64.Explicit.{Base64Func, c_string}
use ossl_scripts.Base.{
  [], zero, suc, none, some, true, refl, ◌∷◌, ◌≡◌, ◌++◌, ℕ, List, Option, Bool, drop, codes, take,
  length, if◌then◌else◌,
}

-- `base64Encode` and `base64Decode` of the DLL
pub dll_encode : Bio → Base64Func
dll_encode bio = base64_encode bio

pub dll_decode : Bio → Base64Func
dll_decode bio = base64_decode bio

-- `fakeCleanup`: what it prints; `base64Init` hands it to OPENSSL_atexit
abbrev pub fake_cleanup : List ℕ
fake_cleanup = codes "fakeCleanup done\n"

-- what GetProcAddress finds in the DLL
pub record Dll : Type 0 where
  pub encode : Option Base64Func
  pub decode : Option Base64Func
  pub init : Bool

-- What the program prints, in order, and what it hands to OPENSSL_atexit.
pub data DllEffect : Type 0 where
  to_stdout : List ℕ → DllEffect
  to_stderr : List ℕ → DllEffect
  at_exit : (text : List ℕ) → DllEffect
  free_library : DllEffect

pub record DllEnded : Type 0 where
  pub status : ℕ
  pub effects : List DllEffect

abbrev pub dll_msg : List ℕ
dll_msg = codes "Hello World!"

abbrev pub base64_buf_size : ℕ
base64_buf_size = 80

abbrev pub plain_buf_size : ℕ
plain_buf_size = 40

abbrev pub base64_dll : List ℕ
base64_dll = codes "C:\\Users\\anedv\\openssl\\samples\\base64.dll\\x64\\Debug\\base64.dll"

abbrev pub hello : DllEffect
hello = to_stdout (codes "Hello World\n")

-- A buffer whose first byte memset has cleared, and that has then got some bytes at its start; `junk` is what
-- the other bytes hold, and what stands behind the buffer.
abbrev pub buffer : (junk out : List ℕ) → List ℕ
buffer junk out = out ++ drop (length out) (0 ∷ junk)

-- the branch behind `base64Encode`; a length of 0 is a failure too
abbrev pub print_plain :
    (decode : Base64Func) → (junk : List ℕ) → Coded → (len : Option ℕ) → DllEffect
print_plain decode junk encoded none = to_stdout (codes "base64Encode has failed\n")
print_plain decode junk encoded (some zero) = to_stdout (codes "base64Encode has failed\n")
print_plain decode junk encoded (some (suc n)) =
    to_stdout
      (c_string (buffer junk (decode (take (suc n) encoded.out) plain_buf_size).out) ++ b'\n' ∷ [])

abbrev pub with_functions :
    (junk : List ℕ) → Bool → Option Base64Func → Option Base64Func → DllEnded
with_functions junk init none decode = record {
  status = 1;
  effects = hello ∷ free_library ∷ to_stderr (codes "Unable to obtain functions\n") ∷ [];
}
with_functions junk init (some encode) none = record {
  status = 1;
  effects = hello ∷ free_library ∷ to_stderr (codes "Unable to obtain functions\n") ∷ [];
}
with_functions junk init (some encode) (some decode) =
    if init
    then record {
      status = 0;
      effects =
          hello
          ∷ at_exit fake_cleanup
          ∷ print_plain decode junk (encode dll_msg base64_buf_size)
              (encode dll_msg base64_buf_size).rv
          ∷ free_library
          ∷ [];
    }
    else record {
      status = 1;
      effects = hello ∷ free_library ∷ to_stderr (codes "Unable to obtain functions\n") ∷ [];
    }

-- `main`, with what LoadLibrary answers
unfoldable pub dll_main : (junk : List ℕ) → Option Dll → DllEnded
dll_main junk none = record {
  status = 1;
  effects = hello ∷ to_stderr (codes "Unable to load library " ++ base64_dll ++ b'\n' ∷ []) ∷ [];
}
dll_main junk (some dll) = with_functions junk dll.init dll.encode dll.decode

-- If the DLL has the three functions, `base64Encode` gives an encoding of some bytes, and `base64Decode`
-- makes the text of it again, the program prints the text and behind it whatever the buffer and the
-- memory behind it hold from the thirteenth byte to the first NUL, since memset has cleared one byte only.
pub dll_main-junk :
    (junk : List ℕ) (encode decode : Base64Func) (n : ℕ) (out : List ℕ)
    → encode dll_msg base64_buf_size ≡ record { rv = some (suc n); out = out }
    → decode (take (suc n) out) plain_buf_size ≡ record { rv = some 12; out = dll_msg }
    → dll_main junk (some (record { encode = some encode; decode = some decode; init = true }))
      ≡ record {
        status = 0;
        effects =
            hello
            ∷ at_exit fake_cleanup
            ∷ to_stdout (dll_msg ++ c_string (drop 11 junk) ++ b'\n' ∷ [])
            ∷ free_library
            ∷ [];
      }
unfolding dll_main c_string
dll_main-junk junk encode decode n out coded plain = rw (coded, plain) refl
