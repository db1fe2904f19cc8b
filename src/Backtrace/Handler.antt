-- ===== src/Backtrace/Handler.antt =====
-- What the handler of SIGTRAP of backtrace.test/backtrace.c records.
use mathlib.Core.Option
use ossl_scripts.Base.{
  [], none, some, true, false, inl, inr, refl, ◌∷◌, ◌≡◌, ◌++◌, ◌+◌, ◌<◌, ◌≤◌, ℕ, List, arith, ap,
  Bool-cases, sym, length-append, length, ltb, ltb→lt, lt→ltb, ◌∙◌,
}
use ossl_scripts.Backtrace.{collect_frames, sigtrap_hndl, collect_backtrace, Trap}
use mathlib.Core.List.{append-nil, append_assoc}

collect_frames-fits :
    (fs stack : List ℕ)
    → length stack + length fs ≤ 64
    → collect_frames fs stack ≡ some (stack ++ fs)
unfolding collect_frames collect_backtrace Option.bind
collect_frames-fits [] stack h = ap some (sym (append-nil stack))
collect_frames-fits (f ∷ fs) stack h = rw (lt→ltb (length stack) 64 (omega arith)) (
    collect_frames-fits fs (stack ++ f ∷ []) (omega (arith, length-append stack (f ∷ []), h))
    ∙ ap some (append_assoc stack (f ∷ []) fs))

collect_frames-overruns :
    (fs stack : List ℕ)
    → length stack ≤ 64
    → 64 < length stack + length fs
    → collect_frames fs stack ≡ none
unfolding collect_frames collect_backtrace Option.bind
collect_frames-overruns [] stack low h = absurd (omega arith)
collect_frames-overruns (f ∷ fs) stack low h = elim (Bool-cases (ltb (length stack) 64)) [
  | inl room ↦
      let below : length stack < 64 = ltb→lt (length stack) 64 room in
      rw room (
        collect_frames-overruns fs (stack ++ f ∷ [])
          (omega (arith, length-append stack (f ∷ []), below))
          (omega (arith, length-append stack (f ∷ []), h)))
  | inr full ↦ rw full refl
]

-- The first trap on a stack of at most 64 frames records exactly its frames, in order, and a further
-- trap changes nothing; with more frames the handler writes behind the end of the array.
pub sigtrap_hndl-bounds :
    (frames more : List ℕ) (t : Trap)
    → t.done ≡ false
    → (length frames ≤ 64
        → (sigtrap_hndl frames t ≡ some (record { stack = frames; done = true }))
          × (sigtrap_hndl more (record { stack = frames; done = true })
              ≡ some (record { stack = frames; done = true })))
      × (64 < length frames → sigtrap_hndl frames t ≡ none)
unfolding sigtrap_hndl
sigtrap_hndl-bounds frames more t first = (
  λ low. (rw (first, collect_frames-fits frames [] (omega arith)) refl, refl),
  λ high. rw (first, collect_frames-overruns frames [] (omega arith) (omega arith)) refl,
)
