-- ===== src/Words.antt =====
-- The 64-bit words of the program: `uint64_t`, `size_t` and addresses, with their wrap-around.
use ossl_scripts.Base.{ℕ, ◌+◌, ◌-◌, ◌%◌, ◌^◌}

abbrev pub u64 : ℕ → ℕ
u64 n = n % 2 ^ 64

infixl 65 ◌+w◌ ◌-w◌
-- Unsigned addition and subtraction, modulo `2 ^ 64`.
abbrev pub ◌+w◌ : ℕ → ℕ → ℕ
a +w b = u64 (a + b)

abbrev pub ◌-w◌ : ℕ → ℕ → ℕ
a -w b = u64 (u64 a + 2 ^ 64 - u64 b)
