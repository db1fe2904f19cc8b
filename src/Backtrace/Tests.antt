-- ===== src/Backtrace/Tests.antt =====
-- backtrace.test/backtrace.c at concrete values.
use ossl_scripts.Base.{
  [], none, some, true, false, refl, ◌∷◌, ◌≡◌, ◌<◌, ◌≤◌, ℕ, Option, length, if◌then◌else◌, leb,
  List,
}
use ossl_scripts.Backtrace.{Trap, write_hex, hex_rounds, sigtrap_hndl, codes}
use ossl_scripts.Shlibs.{DlInfo}
use ossl_scripts.Backtrace.Handler.{sigtrap_hndl-bounds}

-- 0xdefedaee, with the digits d and e in each other's place
swapped_run : write_hex 3741244142 ≡ codes "0x00000000edfdeadd"
unfolding write_hex hex_rounds
swapped_run = refl

abbrev two_frames : List ℕ
two_frames = 4096 ∷ 8192 ∷ []

abbrev before_trap : Trap
before_trap = record { stack = []; done = false }

sigtrap_hndl-bounds_example :
    (length two_frames ≤ 64
      → (sigtrap_hndl two_frames before_trap ≡ some (record { stack = two_frames; done = true }))
        × (sigtrap_hndl (12288 ∷ []) (record { stack = two_frames; done = true })
            ≡ some (record { stack = two_frames; done = true })))
    × (64 < length two_frames → sigtrap_hndl two_frames before_trap ≡ none)
sigtrap_hndl-bounds_example = sigtrap_hndl-bounds two_frames (12288 ∷ []) before_trap refl

-- two libraries, one above 8191 and one below
abbrev two_libraries : (frame : ℕ) → Option DlInfo
two_libraries frame =
    if leb 8192 frame then some (codes "libc", 8192) else some (codes "prog", 4096)
