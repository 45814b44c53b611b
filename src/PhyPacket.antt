-- ===== src/PhyPacket.antt =====
-- The uncoded Bluetooth packet that is sent on the air: firmware/radio/src/phy_packet.h and
-- firmware/radio/src/phy_packet.c. A list is the bytes of an array; `none` stands for NULL, and
-- `given` is false where one of the destinations is NULL.
pub mod Whitening
pub mod Reversal
pub mod Crc
pub mod Packet
mod Examples
use open_ull_receiver.Base.{
  ℕ, zero, suc, ◌+◌, ◌-◌, bit_and, bit_or, bit_xor, u8, sub32, ◌<<<◌, ◌>>>◌, Bool, true, false, not,
  ◌&&◌, ◌||◌, Option, none, some, List, [], ◌∷◌, ◌++◌, length, replicate, ltb, leb, ◌==◌,
  if◌then◌else◌,
}
use open_ull_receiver.Clock.{Time, clock_mask}

abbrev pub max_packet : ℕ
max_packet = 255

-- One bit of the whitening register.
pub lfsr_step : ℕ → ℕ
lfsr_step l = if bit_and l 1 == 0 then l >>> 1 else bit_xor l 0x88 >>> 1

-- `left` bits of a byte, from bit `bit` on: the register and the byte.
pub whiten_bits : ℕ → ℕ → ℕ → ℕ → ℕ × ℕ
whiten_bits zero bit l byte = (l, byte)
whiten_bits (suc left) bit l byte =
    whiten_bits left (bit + 1) (lfsr_step l)
      (if bit_and l 1 == 0 then byte else bit_xor byte (1 <<< bit))

pub whiten_bytes : ℕ → List ℕ → List ℕ
whiten_bytes l [] = []
whiten_bytes l (byte ∷ bytes) =
    let (l', byte') = whiten_bits 8 0 l byte in byte' ∷ whiten_bytes l' bytes

-- The register after the eight bits of a byte.
pub skip_byte : ℕ → ℕ
skip_byte l = (whiten_bits 8 0 l 0).0

-- The two bytes of the header pass by before the data.
pub outer_whitening : Option (List ℕ) → ℕ → Option (List ℕ)
outer_whitening none channel = none
outer_whitening (some bytes) channel =
    if ltb max_packet (length bytes) || ltb 39 channel
    then none
    else some (whiten_bytes (skip_byte (skip_byte (bit_or channel 0x40))) bytes)

pub reverse8 : ℕ → ℕ
reverse8 x0 =
    let x1 = u8 (bit_or (x0 >>> 4) (x0 <<< 4)) in
    let x2 = u8 (bit_or (bit_and x1 0xcc >>> 2) (bit_and x1 0x33 <<< 2)) in
    u8 (bit_or (bit_and x2 0xaa >>> 1) (bit_and x2 0x55 <<< 1))

-- The check register after one bit of data, which is the lowest of `x`.
pub crc_bit : ℕ → ℕ → ℕ
crc_bit crc x =
    let shifted = bit_and (crc <<< 1) 0xffffff in
    if bit_and (bit_xor (crc >>> 23) x) 1 == 0 then shifted else bit_xor shifted 0x65b

-- `left` bits of a byte, from bit `bit` on.
pub crc_bits : ℕ → ℕ → ℕ → ℕ → ℕ
crc_bits zero bit crc byte = crc
crc_bits (suc left) bit crc byte = crc_bits left (bit + 1) (crc_bit crc (byte >>> bit)) byte

pub crc_bytes : ℕ → List ℕ → ℕ
crc_bytes crc [] = crc
crc_bytes crc (byte ∷ bytes) = crc_bytes (crc_bits 8 0 crc byte) bytes

-- The three bytes of the check value, and the four of the access address.
pub crc_tail : ℕ → List ℕ
crc_tail crc =
    reverse8 (u8 (crc >>> 16)) ∷ reverse8 (u8 (crc >>> 8)) ∷ reverse8 (u8 (crc >>> 0)) ∷ []

pub address_bytes : ℕ → List ℕ
address_bytes aa = u8 (aa >>> 0) ∷ u8 (aa >>> 8) ∷ u8 (aa >>> 16) ∷ u8 (aa >>> 24) ∷ []

-- What is sent before whitening: the preamble and the address, then the PDU and its check value.
pub prefix : ℕ → ℕ → List ℕ
prefix aa phy = replicate phy (if bit_and aa 1 == 0 then 0xaa else 0x55) ++ address_bytes aa

pub body : ℕ → List ℕ → List ℕ
body crc_init pdu = pdu ++ crc_tail (crc_bytes crc_init pdu)

-- The packet; the C function also stores its length.
pub packet_build : Bool → ℕ → ℕ → ℕ → ℕ → ℕ → Option (List ℕ) → Option (List ℕ)
packet_build given capacity aa crc_init channel phy none = none
packet_build given capacity aa crc_init channel phy (some pdu) =
    if not given
      || ltb phy 1
      || ltb 2 phy
      || ltb 39 channel
      || ltb 0xffffff crc_init
      || ltb (length pdu) 2
      || ltb (max_packet - 4 - 3 - phy) (length pdu)
    then none
    else if ltb capacity (phy + 4 + length pdu + 3)
    then none
    else some (prefix aa phy ++ whiten_bytes (bit_or channel 0x40) (body crc_init pdu))

pub dtm_start : Time → ℕ → Bool → Option Time
dtm_start inner phy given =
    if not given || ltb clock_mask inner.hs || ltb 624 inner.hus || ltb phy 1 || ltb 2 phy
    then none
    else let lead = if phy == 1 then 112 else 64 in
      if ltb inner.hus lead
      then some
          (record { hs = bit_and (sub32 inner.hs 1) clock_mask; hus = inner.hus + 625 - lead })
      else some (record { hs = inner.hs; hus = inner.hus - lead })
