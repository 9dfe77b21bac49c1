-- ===== src/Cbpf/Ancillary.antt =====
-- crates/thekernel-axcbpf/src/ancillary.rs: the Linux ancillary window and packet metadata.
use thekernel_ax.Prelude.{
  ℕ, ◌+◌, ◌-◌, ◌%◌, ◌^◌, ◌≡◌, refl, Bool, true, Option, none, some, arith, ltb, ◌==◌, if◌then◌else◌,
  bit_and,
}

abbrev pub skf_ad_off : ℕ
skf_ad_off = 0xffff_f000

abbrev pub skf_ad_max : ℕ
skf_ad_max = 64

-- Typed ancillary values supported by the packet metadata provider.
pub data Ancillary : Type 0 where
  protocol pkttype ifindex mark queue vlan_tag vlan_tag_present vlan_tpid : Ancillary

-- `SKF_AD_PROTOCOL` and the other offsets within the window.
unfoldable pub offset : Ancillary → ℕ
offset protocol = 0
offset pkttype = 4
offset ifindex = 8
offset mark = 20
offset queue = 24
offset vlan_tag = 44
offset vlan_tag_present = 48
offset vlan_tpid = 60

unfoldable pub metadata_offset : Ancillary → ℕ
metadata_offset protocol = 0
metadata_offset ifindex = 4
metadata_offset pkttype = 8
metadata_offset mark = 12
metadata_offset queue = 16
metadata_offset vlan_tag = 20
metadata_offset vlan_tag_present = 24
metadata_offset vlan_tpid = 28

-- `SKF_AD_OFF.wrapping_add(self.offset())`
unfoldable pub encoded_offset : Ancillary → ℕ
unfolding offset
encoded_offset field = (skf_ad_off + offset field) % 2 ^ 32

unfoldable pub ancillary_from_offset : ℕ → Option Ancillary
ancillary_from_offset value =
    if value == (skf_ad_off + 0) % 2 ^ 32
    then some protocol
    else if value == (skf_ad_off + 4) % 2 ^ 32
    then some pkttype
    else if value == (skf_ad_off + 8) % 2 ^ 32
    then some ifindex
    else if value == (skf_ad_off + 20) % 2 ^ 32
    then some mark
    else if value == (skf_ad_off + 24) % 2 ^ 32
    then some queue
    else if value == (skf_ad_off + 44) % 2 ^ 32
    then some vlan_tag
    else if value == (skf_ad_off + 48) % 2 ^ 32
    then some vlan_tag_present
    else if value == (skf_ad_off + 60) % 2 ^ 32
    then some vlan_tpid
    else none

-- `offset.wrapping_sub(SKF_AD_OFF) < SKF_AD_MAX`
unfoldable pub is_ancillary_offset : ℕ → Bool
is_ancillary_offset value = ltb ((value + 2 ^ 32 - skf_ad_off) % 2 ^ 32) skf_ad_max

-- Normalized host-order metadata of one packet.
pub record PacketMetadata : Type 0 where
  pub protocol : ℕ
  pub ifindex : ℕ
  pub pkttype : ℕ
  pub mark : ℕ
  pub queue : ℕ
  pub vlan_tag : ℕ
  pub vlan_tag_present : ℕ
  pub vlan_tpid : ℕ

-- `PacketMetadata::new`; `present as u32` is 0 or 1.
unfoldable pub new_metadata : ℕ → ℕ → ℕ → ℕ → ℕ → ℕ → Bool → ℕ → PacketMetadata
new_metadata proto interface packet_type fwmark rx_queue tag present tpid = record {
  protocol = proto;
  ifindex = interface;
  pkttype = bit_and packet_type 0x7;
  mark = fwmark;
  queue = rx_queue;
  vlan_tag = tag;
  vlan_tag_present = if present then 1 else 0;
  vlan_tpid = tpid;
}

-- `Ancillary::read`
unfoldable pub read : Ancillary → PacketMetadata → ℕ
read protocol metadata = metadata.protocol
read pkttype metadata = metadata.pkttype
read ifindex metadata = metadata.ifindex
read mark metadata = metadata.mark
read queue metadata = metadata.queue
read vlan_tag metadata = metadata.vlan_tag
read vlan_tag_present metadata = metadata.vlan_tag_present
read vlan_tpid metadata = metadata.vlan_tpid

-- A supported field is encoded in the ancillary window and found again from its encoding.
pub ancillary_from_offset-encoded_offset :
    (field : Ancillary)
    → (ancillary_from_offset (encoded_offset field) ≡ some field)
      × (is_ancillary_offset (encoded_offset field) ≡ true)
unfolding ancillary_from_offset encoded_offset is_ancillary_offset
ancillary_from_offset-encoded_offset protocol = (refl, refl)
ancillary_from_offset-encoded_offset _ = (refl, refl)

-- An offset that resolves to a field is that field's encoding, so no other word is taken for one.
pub encoded_offset_of_ancillary :
    (value : ℕ) (field : Ancillary)
    → ancillary_from_offset value ≡ some field
    → encoded_offset field ≡ value
unfolding ancillary_from_offset encoded_offset
encoded_offset_of_ancillary value field h = ground arith
