-- ===== src/Annotation.antt =====
-- mprofile/record.c: `mprofile_get_annotation`. A string is the list of its bytes, without the NUL.
use ossl_scripts.Base.{[], zero, suc, none, some, ◌∷◌, ◌==◌, ℕ, List, Option, if◌then◌else◌}
pub mod Escape
mod Tests

abbrev pub quote : ℕ
quote = 34

abbrev pub backslash : ℕ
backslash = 92

-- the bytes of "FooBar annotation"
abbrev pub default_annotation : List ℕ
default_annotation =
    70 ∷ 111 ∷ 111 ∷ 66 ∷ 97 ∷ 114 ∷ 32 ∷ 97 ∷ 110 ∷ 110 ∷ 111 ∷ 116 ∷ 97 ∷ 116 ∷ 105 ∷ 111 ∷ 110
    ∷ []

-- the byte that one round of the loop writes, and where `src` is after it
abbrev pub escape_byte : ℕ → List ℕ → ℕ × List ℕ
escape_byte c src = if c == quote then (backslash, c ∷ src) else (c, src)

-- The loop: `room` is the number of bytes between `dst` and the last byte of the buffer.
pub escape : (room : ℕ) → List ℕ → List ℕ
escape zero src = []
escape (suc room) [] = []
escape (suc room) (c ∷ src) = let (byte, rest) = escape_byte c src in byte ∷ escape room rest

-- `mprofile_get_annotation` at its first call, when the buffer is all NUL; `env` is what `getenv`
-- answers.
unfoldable pub get_annotation : (env : Option (List ℕ)) → List ℕ
unfolding escape
get_annotation none = default_annotation
get_annotation (some annotation) = escape 511 annotation
