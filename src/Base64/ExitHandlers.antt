-- ===== src/Base64/ExitHandlers.antt =====
-- What the parser of exit handlers of base64.so/explicit.c accepts.
use ossl_scripts.Base.{
  [], true, false, ◌∷◌, ◌≡◌, ◌==◌, ℕ, List, Bool, arith, ◌||◌, none, some, inl, inr, refl, ◌++◌,
  Bool-cases, ==_refl, codes, sym, ◌∙◌,
}
use ossl_scripts.Base64.Words.{
  strcasestr, to_lower, starts, pieces, parse_exit_handler, name_to_exit_func, exit_loop, invalid,
  parsed, main_at_exit_flag, word_to_flag, entry, TableEntry, base64_at_exit_flag,
}
use ossl_scripts.Base64.Flags.{Lacks, pieces-last}
use mathlib.Core.Path.{subst}

-- whether the byte stands in the text, whatever the case
occurs : ℕ → List ℕ → Bool
occurs b [] = false
occurs b (c ∷ cs) = to_lower c == b || occurs b cs

-- What is found in a text stands in it.
starts-occurs :
    (b : ℕ) (needle hay : List ℕ)
    → occurs b needle ≡ true
    → starts needle hay ≡ true
    → occurs b hay ≡ true
unfolding starts occurs
starts-occurs b [] hay o h = cc
starts-occurs b (n ∷ ns) [] o h = cc
starts-occurs b (n ∷ ns) (c ∷ cs) o h = ground (arith, starts-occurs b ns cs)

strcasestr-occurs :
    (b : ℕ) (hay needle : List ℕ)
    → occurs b needle ≡ true
    → strcasestr hay needle ≡ true
    → occurs b hay ≡ true
unfolding strcasestr occurs
strcasestr-occurs b [] needle o h = starts-occurs b needle [] o h
strcasestr-occurs b (c ∷ cs) needle o h =
    ground (arith, starts-occurs b needle (c ∷ cs), strcasestr-occurs b cs needle)

occurs-append : (b : ℕ) (xs ys : List ℕ) → to_lower b ≡ b → occurs b (xs ++ b ∷ ys) ≡ true
unfolding occurs
occurs-append b [] ys same = rw (same, ==_refl b) refl
occurs-append b (x ∷ xs) ys same = ground (arith, occurs-append b xs ys same)

-- a name without the byte does not hold a text with it
not-found :
    (b : ℕ) (hay needle : List ℕ)
    → occurs b needle ≡ true
    → occurs b hay ≡ false
    → strcasestr hay needle ≡ false
not-found b hay needle o lacks = elim (Bool-cases (strcasestr hay needle)) [
  | inl found ↦ let bad : true ≡ false = sym (strcasestr-occurs b hay needle o found) ∙ lacks in cc
  | inr missing ↦ missing
]

name_to_exit_func-comma :
    (before after : List ℕ) → name_to_exit_func (before ++ b',' ∷ after) ≡ none
unfolding name_to_exit_func occurs
name_to_exit_func-comma before after =
    let text = before ++ b',' ∷ after in
    let o : occurs b',' text ≡ true = occurs-append b',' before after refl in
    rw
      (
        not-found b',' (codes "mainAtExit") text o refl,
        not-found b',' (codes "base64AtExit") text o refl,
      )
      refl

pieces-comma :
    (before after : List ℕ)
    → (w : List ℕ) × (next : List ℕ) × (rest : List (List ℕ)) × (pieces b','
          (before ++ b',' ∷ after)
        ≡ (w, next ∷ rest))
unfolding pieces
pieces-comma [] after = ([], (pieces b',' after).0, (pieces b',' after).1, refl)
pieces-comma (c ∷ cs) after = elim (Bool-cases (c == b',')) [
  | inl comma ↦
      let (w, next, rest, e) = pieces-comma cs after in ([], w, next ∷ rest, rw (e, comma) refl)
  | inr other ↦
      let (w, next, rest, e) = pieces-comma cs after in (c ∷ w, next, rest, rw (e, other) refl)
]

-- A list of exit handlers is always refused, even if each of its names is known: the whole list is
-- looked up as one name.
pub parse_exit_handler-comma :
    (before after : List ℕ)
    → parse_exit_handler (before ++ b',' ∷ after) ≡ some (invalid (before ++ b',' ∷ after))
unfolding parse_exit_handler exit_loop
parse_exit_handler-comma before after =
    let (w, next, rest, e) = pieces-comma before after in
    rw (e, exit_loop, name_to_exit_func-comma before after) refl

starts-append : (w ys : List ℕ) → starts w (w ++ ys) ≡ true
unfolding starts
starts-append [] ys = refl
starts-append (c ∷ cs) ys = rw (==_refl (to_lower c), starts-append cs ys) refl

strcasestr-append : (xs w ys : List ℕ) → strcasestr (xs ++ (w ++ ys)) w ≡ true
unfolding strcasestr
strcasestr-append [] [] [] = refl
strcasestr-append [] [] (y ∷ ys) = refl
strcasestr-append [] (c ∷ cs) ys = rw (==_refl (to_lower c), starts-append cs ys) refl
strcasestr-append (x ∷ xs) w ys = ground (arith, strcasestr-append xs w ys)

word_to_flag-first :
    (t : TableEntry) (ts : List TableEntry) (word : List ℕ)
    → strcasestr t.flag_name word ≡ true
    → word_to_flag (t ∷ ts) word ≡ some t.flag
unfolding word_to_flag
word_to_flag-first t ts word found = rw found refl

part_found : (hay xs w ys : List ℕ) → xs ++ (w ++ ys) ≡ hay → strcasestr hay w ≡ true
part_found hay xs w ys e = subst (λ h. strcasestr h w ≡ true) e (strcasestr-append xs w ys)

name_to_exit_func-part :
    (xs w ys : List ℕ)
    → xs ++ (w ++ ys) ≡ codes "mainAtExit"
    → name_to_exit_func w ≡ some main_at_exit_flag
unfolding name_to_exit_func
name_to_exit_func-part xs w ys e =
    word_to_flag-first (entry (codes "mainAtExit") main_at_exit_flag)
      (entry (codes "base64AtExit") base64_at_exit_flag ∷ []) w
      (part_found (codes "mainAtExit") xs w ys e)

-- Every part of `mainAtExit`, the empty one too, stands for the handler of that name.
pub parse_exit_handler-part :
    (xs w ys : List ℕ)
    → xs ++ (w ++ ys) ≡ codes "mainAtExit"
    → Lacks b',' w
    → parse_exit_handler w ≡ some (parsed main_at_exit_flag)
unfolding parse_exit_handler
parse_exit_handler-part xs w ys e lacks =
    rw (pieces-last b',' w lacks, exit_loop, name_to_exit_func-part xs w ys e) refl
