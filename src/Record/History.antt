-- ===== src/Record/History.antt =====
-- What a log of mprofile/record.c says of the heap: which record describes the buffer at each
-- address, event by event.
use Prim.Native.Nat.{compare}
use ossl_scripts.Base.{ℕ, none, some, ◌==◌, Option, if◌then◌else◌, [], ◌∷◌, List}
use mathlib.Core.Option
use ossl_scripts.Tree.Map.{assign}
use ossl_scripts.Record.{MprofileRecord, state_alloc, state_free, state_realloc, Records}

-- from the address of a live buffer to the latest record of it
abbrev pub Live : Type 0
Live = ℕ → Option ℕ

abbrev pub nothing_live : Live
nothing_live _ = none

-- a link, from a record to its successor
abbrev pub Link : Type 0
Link = ℕ × ℕ

abbrev pub opened : Live → Option ℕ → Option Live
opened m none = some m
opened m (some _) = none

-- an event opens a buffer that is not live
unfoldable pub opens : (mem r : ℕ) → Live → Option Live
opens mem r m = opened (assign compare m mem (some r)) (m mem)

abbrev pub closed : Live → Option ℕ → Option (Live × Option ℕ)
closed m none = none
closed m (some q) = some (m, some q)

-- the buffer at `mem` is given out again, to the record that followed `q`
abbrev pub reopens : (mem r : ℕ) → Option (Live × Option ℕ) → Option (Live × Option ℕ)
reopens mem r none = none
reopens mem r (some (m, q)) = Option.map (λ m'. (m', q)) (opens mem r m)

-- The live buffers after one event, and the record that it follows; `none` if the event does not fit
-- the history: an address is given out that is in use, or one is given back that is not.
unfoldable pub event : MprofileRecord → (r : ℕ) → Live → Option (Live × Option ℕ)
event e r m =
    if e.mpr_state == state_alloc
    then Option.map (λ m'. (m', none)) (opens e.mpr_mem r m)
    else if e.mpr_state == state_free
    then (if e.mpr_mem == 0
        then some (m, none)
        else closed (assign compare m e.mpr_mem none) (m e.mpr_mem))
    else if e.mpr_state == state_realloc
    then reopens e.mpr_mem r (closed (assign compare m e.mpr_realloc none) (m e.mpr_realloc))
    else some (m, none)

abbrev pub follow : Option ℕ → (r : ℕ) → List Link → List Link
follow none r ls = ls
follow (some q) r ls = (q, r) ∷ ls

abbrev pub and_then :
    Option (Live × Option ℕ)
    → (Live → Option ℕ → Option (Live × List Link))
    → Option (Live × List Link)
and_then none k = none
and_then (some (m, o)) k = k m o

abbrev pub followed : Option ℕ → (r : ℕ) → Option (Live × List Link) → Option (Live × List Link)
followed o r none = none
followed o r (some (m, ls)) = some (m, follow o r ls)

-- The live buffers after a log, and its links in order; `none` if some event does not fit.
unfoldable pub history : List ℕ → Records → Live → Option (Live × List Link)
history [] recs m = some (m, [])
history (r ∷ rs) recs m = and_then (event (recs r) r m) λ m' o. followed o r (history rs recs m')
