-- ===== src/Base64.antt =====
-- base64.so/base64.c: `base64Encode`, `base64Decode` and `base64ArmAtExit`. OpenSSL's BIO is a parameter.
-- Bytes are numbers, and buffers are shorter than 2 ^ 31 bytes.
use ossl_scripts.Base.{
  [], none, some, true, false, ◌∷◌, ℕ, List, Option, Bool, if◌then◌else◌, ltb, length,
}
pub mod Codec
pub mod Words
pub mod Flags
pub mod ExitHandlers
pub mod Explicit
pub mod Implicit
pub mod Dll
mod Tests

-- The calls of BIO that base64.c makes. A negative answer is `none`, and another one the bytes read or
-- the number of bytes written.
pub record Bio : Type 1 where
  pub Chain : Type 0
  -- BIO_f_base64 on top of BIO_s_mem; `none` if one of the two is NULL
  pub new_encoder : Option Chain
  -- BIO_f_base64 on top of BIO_new_mem_buf of the text
  pub new_decoder : (text : List ℕ) → Option Chain
  pub write : Chain → List ℕ → Option ℕ × Chain
  pub flush : Chain → Chain
  -- BIO_read from the memory below, and through the filter
  pub read_mem : Chain → (size : ℕ) → Option (List ℕ) × Chain
  pub read_base64 : Chain → (size : ℕ) → Option (List ℕ) × Chain

-- What a call returns, -1 as `none`, and the bytes that it stored at the start of `bufOut`.
pub record Coded : Type 0 where
  pub rv : Option ℕ
  pub out : List ℕ

abbrev pub failed : Coded
failed = record { rv = none; out = [] }

-- the size of `scratch`
abbrev pub scratch_size : ℕ
scratch_size = 20

-- whether a BIO_read answered a number above 0
abbrev pub is_some_read : Option (List ℕ) → Bool
is_some_read none = false
is_some_read (some []) = false
is_some_read (some (c ∷ cs)) = true

-- the answer of the read into `bufOut`, unless there was more to read
abbrev pub read_result : Option (List ℕ) → (more : Bool) → Coded
read_result none more = failed
read_result (some bytes) more = record {
  rv = if more then none else some (length bytes);
  out = bytes;
}

module _ (bio : Bio) where
  -- the end of `base64Encode`, behind the flush
  pub encode_read : bio.Chain → (size : ℕ) → Coded
  encode_read c size =
      let (bytes, c') = bio.read_mem c size in
      read_result bytes (is_some_read (bio.read_mem c' scratch_size).0)

  -- Behind the BIO_write, which answered `written`. A short write is returned as it is.
  pub encode_written : bio.Chain → (text : List ℕ) → (size : ℕ) → (written : Option ℕ) → Coded
  unfolding encode_read
  encode_written c text size none = failed
  encode_written c text size (some n) =
      if ltb n (length text)
      then record { rv = some n; out = [] }
      else encode_read (bio.flush c) size

  pub encode_with : Option bio.Chain → (text : List ℕ) → (size : ℕ) → Coded
  unfolding encode_written
  encode_with none text size = failed
  encode_with (some c) text size =
      let (written, c') = bio.write c text in encode_written c' text size written

  -- `base64Encode` into a buffer of `size` bytes. The code casts both sizes to `int`: for sizes of 2 ^ 31
  -- and more its result differs from this one.
  pub base64_encode : (text : List ℕ) → (size : ℕ) → Coded
  unfolding encode_with
  base64_encode text size = encode_with bio.new_encoder text size

  pub decode_with : Option bio.Chain → (size : ℕ) → Coded
  decode_with none size = failed
  decode_with (some c) size =
      let (bytes, c') = bio.read_base64 c size in
      read_result bytes (is_some_read (bio.read_base64 c' scratch_size).0)

  -- `base64Decode`
  pub base64_decode : (text : List ℕ) → (size : ℕ) → Coded
  unfolding decode_with
  base64_decode text size = decode_with (bio.new_decoder text) size

-- the function that `base64ArmAtExit` hands to OPENSSL_atexit; NULL stands for its own
pub data Armed : Type 0 where
  base64_at_exit : Armed
  main_at_exit : Armed

abbrev pub base64_arm_at_exit : Option Armed → Armed
base64_arm_at_exit none = base64_at_exit
base64_arm_at_exit (some handler) = handler
