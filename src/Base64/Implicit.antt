-- ===== src/Base64/Implicit.antt =====
-- base64.so/implicit.c: the same test with the library linked in. Its `wordToFlag`, `nameToExitFunc` and
-- `parseExitHandler` are copies of those of explicit.c.
use ossl_scripts.Base.{[], none, some, ◌∷◌, ℕ, List, Option}
use ossl_scripts.Base64.Explicit.{run_test, Base64Func, Ended, with_handler, usage_exit, finished}
use ossl_scripts.Base64.Words.{Parsed, parse_exit_handler}

-- `parseExitHandler`
unfoldable pub implicit_parse_exit_handler : (at_exit : List ℕ) → Option Parsed
implicit_parse_exit_handler = parse_exit_handler

-- one answer of `getopt` for "a:"
pub data ImplicitOpt : Type 0 where
  handler : List ℕ → ImplicitOpt
  unknown : ImplicitOpt

-- the loop over `getopt`; `none` is a call of `usage`
unfoldable pub read_handler :
    List ImplicitOpt → (at_exit : Option (List ℕ)) → Option (Option (List ℕ))
read_handler [] at_exit = some at_exit
read_handler (handler name ∷ opts) at_exit = read_handler opts (some name)
read_handler (unknown ∷ opts) at_exit = none

-- `junk` is what the variable `atExitFuncs` holds, which has no initial value
abbrev pub implicit_exit_funcs : (junk : ℕ) → Option (List ℕ) → (ℕ → Ended) → Ended
implicit_exit_funcs junk none k = k junk
implicit_exit_funcs junk (some name) k = with_handler k (implicit_parse_exit_handler name)

abbrev pub with_handler_option :
    (encode decode : Base64Func) → (junk : ℕ) → Option (Option (List ℕ)) → Ended
with_handler_option encode decode junk none = usage_exit
with_handler_option encode decode junk (some at_exit) =
    implicit_exit_funcs junk at_exit (λ funcs. finished (run_test encode decode funcs))

-- `main`, with the answers of `getopt`
unfoldable pub implicit_main : (encode decode : Base64Func) → (junk : ℕ) → List ImplicitOpt → Ended
unfolding implicit_parse_exit_handler read_handler
implicit_main encode decode junk opts =
    with_handler_option encode decode junk (read_handler opts none)
