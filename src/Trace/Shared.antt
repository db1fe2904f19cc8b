-- ===== src/Trace/Shared.antt =====
-- The records of several profiles of mprofile/record.c together, as one list and as one history: what the
-- next record adds to them.
use mathlib.Core.List.Perm
use mathlib.Core.List.{Perm, perm_middle, map, append_assoc, append-nil}
use ossl_scripts.Save.Sorted.{all_records}
use ossl_scripts.Profile.{Mprofile}
use ossl_scripts.Base.{
  [], refl, ◌∷◌, ◌≡◌, ◌++◌, ℕ, List, All, ◌≢◌, All-insert, update, ==_of_ne, sym, ==_refl, ap, ◌∙◌,
}
use ossl_scripts.Tree.{RbTree}
use ossl_scripts.Stack.{Stray}
use ossl_scripts.Record.Chains.{NoRepeat}
use mathlib.Core.Path.{subst}

-- a profile that is on the list
pub data Among (p : ℕ) : List ℕ → Type 0 where
  first : {ps : List ℕ} → Among p (p ∷ ps)
  later : {q : ℕ} {ps : List ℕ} → Among p ps → Among p (q ∷ ps)

pub Among-append : {p : ℕ} (ps : List ℕ) (q : ℕ) → Among p ps → Among p (ps ++ q ∷ [])
Among-append [] q h = elim h [ ]
Among-append (x ∷ ps) q first = first
Among-append (x ∷ ps) q (later h) = later (Among-append ps q h)

pub Among-last : (ps : List ℕ) (q : ℕ) → Among q (ps ++ q ∷ [])
Among-last [] q = first
Among-last (x ∷ ps) q = later (Among-last ps q)

pub Among-All : (P : ℕ → Type 0) {p : ℕ} (ps : List ℕ) → All P ps → Among p ps → P p
Among-All P [] all h = elim h [ ]
Among-All P (x ∷ ps) all first = all.0
Among-All P (x ∷ ps) all (later h) = Among-All P ps all.1 h

-- `ys` is `xs` with `r` put in at one place
pub record IsInserted (r : ℕ) (xs ys : List ℕ) : Type 0 where
  pub before : List ℕ
  pub behind : List ℕ
  pub old : xs ≡ before ++ behind
  pub new : ys ≡ before ++ r ∷ behind

module _ {r : ℕ} {xs ys : List ℕ} (i : IsInserted r xs ys) where
  pub inserted-Perm : (log : List ℕ) → Perm log xs → Perm (log ++ r ∷ []) ys
  inserted-Perm log p =
      Perm.trans (subst (λ l. Perm (log ++ r ∷ []) (r ∷ l)) (append-nil log) (perm_middle log [])) (
        Perm.trans (Perm.cons r (subst (Perm log) i.old p)) (
          subst (Perm (r ∷ i.before ++ i.behind)) (sym i.new)
            (Perm.symm (perm_middle i.before i.behind))))

  pub inserted-All : (P : ℕ → Type 0) → P r → All P xs → All P ys
  inserted-All P here all = rw i.new (All-insert P i.before r i.behind here (rw i.old at all))

All-map : (P : ℕ → Type 0) (f : ℕ → ℕ) (xs : List ℕ) → All (λ e. P (f e)) xs → All P (map f xs)
All-map P f [] h = tt
All-map P f (x ∷ xs) h = (h.0, All-map P f xs h.1)

All-unmap : (P : ℕ → Type 0) (f : ℕ → ℕ) (xs : List ℕ) → All P (map f xs) → All (λ e. P (f e)) xs
All-unmap P f [] h = tt
All-unmap P f (x ∷ xs) h = (h.0, All-unmap P f xs h.1)

NoRepeat-insert :
    (f : ℕ → ℕ) (r : ℕ) (xs ys : List ℕ)
    → All (λ e. f e ≢ f r) (xs ++ ys)
    → NoRepeat (map f (xs ++ ys))
    → NoRepeat (map f (xs ++ r ∷ ys))
NoRepeat-insert f r [] ys out n = (All-map (λ e. e ≢ f r) f ys out, n)
NoRepeat-insert f r (x ∷ xs) ys out n = (
  All-map (λ e. e ≢ f x) f (xs ++ r ∷ ys)
      (All-insert (λ e. f e ≢ f x) xs r ys (λ e. out.0 (sym e))
        (All-unmap (λ e. e ≢ f x) f (xs ++ ys) n.0)),
  NoRepeat-insert f r xs ys out.1 n.1,
)

pub inserted-NoRepeat :
    (f : ℕ → ℕ) {r : ℕ} {xs ys : List ℕ}
    → IsInserted r xs ys
    → All (λ e. f e ≢ f r) xs
    → NoRepeat (map f xs)
    → NoRepeat (map f ys)
inserted-NoRepeat f {r} i out n =
    rw i.new (NoRepeat-insert f r i.before i.behind (rw i.old at out) (rw i.old at n))

module _ (T : RbTree) (stray : Stray) where
  abbrev pub queues_of : (ℕ → Mprofile T stray) → ℕ → List ℕ
  queues_of profs p = (profs p).mp_tqhead

  pub all-elsewhere :
      (profs : ℕ → Mprofile T stray) (p : ℕ) (x : Mprofile T stray) (ps : List ℕ)
      → All (λ q. q ≢ p) ps
      → all_records T stray (queues_of (update profs p x)) ps
        ≡ all_records T stray (queues_of profs) ps
  unfolding all_records
  all-elsewhere profs p x [] out = refl
  all-elsewhere profs p x (q ∷ ps) out =
      rw (all_records, queues_of, ==_of_ne p q (λ e. out.0 (sym e)))
        (ap (λ l. (profs q).mp_tqhead ++ l) (all-elsewhere profs p x ps out.1))

  -- a record at the end of one profile's queue
  pub all-IsInserted :
      (profs : ℕ → Mprofile T stray) (p r : ℕ) (x : Mprofile T stray) (ps : List ℕ)
      → Among p ps
      → NoRepeat ps
      → x.mp_tqhead ≡ (profs p).mp_tqhead ++ r ∷ []
      → IsInserted r
          (all_records T stray (queues_of profs) ps)
          (all_records T stray (queues_of (update profs p x)) ps)
  unfolding all_records
  all-IsInserted profs p r x [] h n e = elim h [ ]
  all-IsInserted profs p r x (q ∷ ps) first n e = record {
    before = (profs p).mp_tqhead;
    behind = all_records T stray (queues_of profs) ps;
    old = refl;
    new =
        rw (all_records, queues_of, ==_refl p, e)
          (ap (λ l. ((profs p).mp_tqhead ++ r ∷ []) ++ l) (all-elsewhere profs p x ps n.0)
            ∙ append_assoc (profs p).mp_tqhead (r ∷ []) (all_records T stray (queues_of profs) ps));
  }
  all-IsInserted profs p r x (q ∷ ps) (later h) n e =
      let i = all-IsInserted profs p r x ps h n.1 e in
      record {
        before = (profs q).mp_tqhead ++ i.before;
        behind = i.behind;
        old =
            ap (λ l. (profs q).mp_tqhead ++ l) i.old
            ∙ sym (append_assoc (profs q).mp_tqhead i.before i.behind);
        new =
            rw (all_records, queues_of, ==_of_ne p q (Among-All (λ y. y ≢ q) ps n.0 h))
              (ap (λ l. (profs q).mp_tqhead ++ l) i.new
                ∙ sym (append_assoc (profs q).mp_tqhead i.before (r ∷ i.behind)));
      }

  pub all-append :
      (queues : ℕ → List ℕ) (ps : List ℕ) (p : ℕ)
      → all_records T stray queues (ps ++ p ∷ []) ≡ all_records T stray queues ps ++ queues p
  unfolding all_records
  all-append queues [] p = append-nil (queues p)
  all-append queues (q ∷ ps) p =
      ap (λ l. queues q ++ l) (all-append queues ps p)
      ∙ sym (append_assoc (queues q) (all_records T stray queues ps) (queues p))
