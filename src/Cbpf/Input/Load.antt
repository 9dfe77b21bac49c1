-- ===== src/Cbpf/Input/Load.antt =====
-- `<[u8] as Input>::load` of crates/thekernel-axcbpf/src/program.rs, against a description of it.
use thekernel_ax.Prelude.{
  ℕ, ◌+◌, ◌-◌, ◌*◌, ◌^◌, ◌≤◌, ◌<◌, ◌≡◌, refl, ap, Bool, true, false, none, some, List, [], ◌∷◌,
  arith, leb, leb→le, le→leb, if◌then◌else◌, length, take, drop, length-take, length-drop,
}
use thekernel_ax.Cbpf.Opcode.{LoadWidth, byte, half, word}
use thekernel_ax.Cbpf.Input.{bytes, checked_add, get_range, from_be, load_bytes}

-- The number that a list of bytes writes, its first byte being the highest digit.
abbrev pub big_endian_from : ℕ → List ℕ → ℕ
big_endian_from acc [] = acc
big_endian_from acc (b ∷ bs) = big_endian_from (acc * 256 + b) bs

abbrev pub big_endian : List ℕ → ℕ
big_endian = big_endian_from 0

from_be-big_endian :
    (width : LoadWidth) (slice : List ℕ)
    → length slice ≡ bytes width
    → from_be width slice ≡ some (big_endian slice)
unfolding from_be bytes
from_be-big_endian byte (a ∷ []) l = ap some (omega arith)
from_be-big_endian half (a ∷ b ∷ []) l = ap some (omega arith)
from_be-big_endian word (a ∷ b ∷ c ∷ d ∷ []) l = ap some (omega arith)
from_be-big_endian _ _ l = absurd (omega arith)

bytes-le_four : (width : LoadWidth) → bytes width ≤ 4
unfolding bytes
bytes-le_four byte = omega arith
bytes-le_four half = omega arith
bytes-le_four word = omega arith

checked_add-small : (a b : ℕ) → a < 2 ^ 32 → b ≤ 4 → checked_add a b ≡ some (a + b)
unfolding checked_add
checked_add-small a b ha hb = ground arith

get_range-inside :
    (xs : List ℕ) (start n : ℕ)
    → start + n ≤ length xs
    → get_range xs start (start + n) ≡ some (take n (drop start xs))
unfolding get_range
get_range-inside xs start n h =
    let width : start + n - start ≡ n = omega arith in
    rw (le→leb start (start + n) (omega arith), le→leb (start + n) (length xs) h, width)

get_range-outside :
    (xs : List ℕ) (start n : ℕ)
    → leb (start + n) (length xs) ≡ false
    → get_range xs start (start + n) ≡ none
unfolding get_range
get_range-outside xs start n h = rw (le→leb start (start + n) (omega arith), h)

-- A load at a `u32` offset reads the big-endian number that stands at that offset when all of its
-- bytes lie in the slice, and fails otherwise.
pub load_bytes-eq-big_endian :
    (xs : List ℕ) (start : ℕ) (width : LoadWidth)
    → start < 2 ^ 32
    → load_bytes xs start width ≡ (
        if leb (start + bytes width) (length xs)
        then some (big_endian (take (bytes width) (drop start xs)))
        else none)
unfolding load_bytes
load_bytes-eq-big_endian xs start width h =
    rw (checked_add-small start (bytes width) h (bytes-le_four width), load_bytes)
      (by_room (leb (start + bytes width) (length xs)) refl)
  where
    by_room :
        (room : Bool)
        → leb (start + bytes width) (length xs) ≡ room
        → elim (get_range xs start (start + bytes width)) [
          | none ↦ none
          | some slice ↦ from_be width slice
        ]
          ≡ (if room then some (big_endian (take (bytes width) (drop start xs))) else none)
    by_room true e =
        let inside = leb→le (start + bytes width) (length xs) e in
        rw (get_range-inside xs start (bytes width) inside) (
          from_be-big_endian width (take (bytes width) (drop start xs))
            (omega (arith, length-take (bytes width) (drop start xs), length-drop start xs)))
    by_room false e = rw (get_range-outside xs start (bytes width) e)
