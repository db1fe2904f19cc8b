-- ===== src/Ksyms/Model.antt =====
-- `qsort` and `bsearch` can behave as mprofile/ksyms.c relies on: insertion sort and a search from the
-- front do. The tests run on them.
use ossl_scripts.Tree.{by_order}
use ossl_scripts.Base.{
  [], none, some, inl, inr, ◌∷◌, ◌≡◌, List, Option, Ordering-cases, All, suc, refl, length, ◌∙◌,
}
use ossl_scripts.Ksyms.Names.{IsSort, FindsEntry}
use ossl_scripts.Ksyms.{Sym, Ordering}
use ossl_scripts.Ksyms.Lookup.{IsSearch}
use mathlib.Core.Path.{subst, ap}

unfoldable pub insert_by : (Sym → Sym → Ordering) → Sym → List Sym → List Sym
insert_by c s [] = s ∷ []
insert_by c s (t ∷ ts) =
    let rest = insert_by c s ts in by_order (c s t) (s ∷ t ∷ ts) (s ∷ t ∷ ts) (t ∷ rest)

unfoldable pub sort_by : (Sym → Sym → Ordering) → List Sym → List Sym
sort_by c [] = []
sort_by c (s ∷ ss) = insert_by c s (sort_by c ss)

unfoldable pub search_first : (Sym → Ordering) → List Sym → Option Sym
search_first c [] = none
search_first c (s ∷ ss) = let rest = search_first c ss in by_order (c s) rest (some s) rest

pub search_first-IsSearch : IsSearch search_first
unfolding search_first
search_first-IsSearch c [] e h = absurd (let bad : none ≡ some e = h in cc)
search_first-IsSearch c (s ∷ ss) e h = elim (Ordering-cases (c s)) [
  | inl below ↦ search_first-IsSearch c ss e (rw below at h)
  | inr (inl same) ↦
      let found : some s ≡ some e = rw same at h in let here : s ≡ e = cc in rw here at same
  | inr (inr above) ↦ search_first-IsSearch c ss e (rw above at h)
]

module _ (P : Sym → Type 0) (c : Sym → Sym → Ordering) where
  insert_by-All : (s : Sym) (ts : List Sym) → P s → All P ts → All P (insert_by c s ts)
  unfolding insert_by
  insert_by-All s [] p ps = (p, tt)
  insert_by-All s (t ∷ ts) p (q, ps) = elim (Ordering-cases (c s t)) [
    | inl below ↦ rw below (p, (q, ps))
    | inr (inl same) ↦ rw same (p, (q, ps))
    | inr (inr above) ↦ rw above (q, insert_by-All s ts p ps)
  ]

  sort_by-All : (ts : List Sym) → All P ts → All P (sort_by c ts)
  unfolding sort_by
  sort_by-All [] p = tt
  sort_by-All (t ∷ ts) (p, ps) = insert_by-All t (sort_by c ts) p (sort_by-All ts ps)

pub sort_by-IsSort : IsSort sort_by
sort_by-IsSort P c table p = sort_by-All P c table p

length-insert_by :
    (c : Sym → Sym → Ordering) (s : Sym) (ts : List Sym)
    → length (insert_by c s ts) ≡ suc (length ts)
unfolding insert_by
length-insert_by c s [] = refl
length-insert_by c s (t ∷ ts) = elim (Ordering-cases (c s t)) [
  | inl below ↦ rw below refl
  | inr (inl same) ↦ rw same refl
  | inr (inr above) ↦ rw above (ap suc (length-insert_by c s ts))
]

pub length-sort_by : (c : Sym → Sym → Ordering) (ts : List Sym) → length (sort_by c ts) ≡ length ts
unfolding sort_by
length-sort_by c [] = refl
length-sort_by c (t ∷ ts) = length-insert_by c t (sort_by c ts) ∙ ap suc (length-sort_by c ts)

pub search_first-FindsEntry : FindsEntry search_first
unfolding search_first
search_first-FindsEntry P c [] e h p = absurd (let bad : none ≡ some e = h in cc)
search_first-FindsEntry P c (s ∷ ss) e h (p, ps) = elim (Ordering-cases (c s)) [
  | inl below ↦ search_first-FindsEntry P c ss e (rw below at h) ps
  | inr (inl same) ↦
      let found : some s ≡ some e = rw same at h in let here : s ≡ e = cc in subst P here p
  | inr (inr above) ↦ search_first-FindsEntry P c ss e (rw above at h) ps
]
