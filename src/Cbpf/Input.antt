-- ===== src/Cbpf/Input.antt =====
-- crates/thekernel-axcbpf/src/program.rs: the trait `Input`, and its implementations for a byte
-- slice and for a packet with metadata.
pub mod Load
use thekernel_ax.Prelude.{
  ℕ, ◌+◌, ◌-◌, ◌*◌, ◌^◌, ◌&&◌, Option, none, some, List, ◌∷◌, ltb, leb, if◌then◌else◌, length, take,
  drop,
}
use thekernel_ax.Cbpf.Opcode.{LoadWidth, byte, half, word}
use thekernel_ax.Cbpf.Ancillary.{Ancillary, PacketMetadata, read}

abbrev pub u32_max : ℕ
u32_max = 0xffff_ffff

-- `usize` is taken to have 64 bits.
abbrev pub usize_mod : ℕ
usize_mod = 2 ^ 64

-- `LoadWidth::bytes`
unfoldable pub bytes : LoadWidth → ℕ
bytes byte = 1
bytes half = 2
bytes word = 4

-- The data source of an evaluation.
pub record Input : Type 0 where
  pub len : ℕ
  pub load : ℕ → LoadWidth → Option ℕ
  pub ancillary : Ancillary → Option ℕ

-- `u32::try_from(len).unwrap_or(u32::MAX)`
abbrev pub saturate_len : ℕ → ℕ
saturate_len n = if ltb u32_max n then u32_max else n

-- `checked_add` on `usize`
unfoldable pub checked_add : ℕ → ℕ → Option ℕ
checked_add a b = if ltb (a + b) usize_mod then some (a + b) else none

-- `slice.get(start..end)`
unfoldable pub get_range : List ℕ → ℕ → ℕ → Option (List ℕ)
get_range xs start end =
    if leb start end && leb end (length xs) then some (take (end - start) (drop start xs)) else none

-- `from_be_bytes` of as many bytes as the width has; `none` is an index out of range.
unfoldable pub from_be : LoadWidth → List ℕ → Option ℕ
from_be byte (a ∷ _) = some a
from_be half (a ∷ b ∷ _) = some (a * 2 ^ 8 + b)
from_be word (a ∷ b ∷ c ∷ d ∷ _) = some (a * 2 ^ 24 + b * 2 ^ 16 + c * 2 ^ 8 + d)
from_be _ _ = none

-- `<[u8] as Input>::load`
unfoldable pub load_bytes : List ℕ → ℕ → LoadWidth → Option ℕ
unfolding bytes checked_add get_range from_be
load_bytes xs start width = elim (checked_add start (bytes width)) [
  | none ↦ none
  | some end ↦ elim (get_range xs start end) [ none ↦ none | some slice ↦ from_be width slice ]
]

unfoldable pub byte_input : List ℕ → Input
byte_input xs = record {
  len = saturate_len (length xs);
  load = load_bytes xs;
  ancillary = λ _. none;
}

-- `PacketInput::new`, as an input.
unfoldable pub packet_input : List ℕ → PacketMetadata → Input
packet_input xs metadata = record {
  len = saturate_len (length xs);
  load = load_bytes xs;
  ancillary = λ field. some (read field metadata);
}
