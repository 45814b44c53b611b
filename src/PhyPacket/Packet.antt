-- ===== src/PhyPacket/Packet.antt =====
-- What `ull_phy_packet_build` of firmware/radio/src/phy_packet.c sends, as a receiver reads it.
use open_ull_receiver.Base.{
  ℕ, ◌+◌, ◌≤◌, ◌^◌, ◌<◌, ◌≡◌, refl, ap, ◌∙◌, bit_and, bit_or, true, some, List, [], ◌∷◌, ◌++◌,
  length, arith, ◌==◌, if◌then◌else◌, drop, take, replicate, length-append, length-replicate, All,
  All-append, IsByte, zero, suc,
}
use open_ull_receiver.PhyPacket.{
  crc_bytes, crc_tail, body, prefix, address_bytes, packet_build, whiten_bytes, max_packet,
}
use open_ull_receiver.PhyPacket.Whitening.{
  whiten_bytes_twice, length-whiten_bytes, whiten_bytes-IsByte,
}
use open_ull_receiver.PhyPacket.Crc.{body-residue}
use open_ull_receiver.PhyPacket.Reversal.{reverse8-lt}

-- The arguments that the function accepts, apart from its pointers.
pub record Accepts (capacity crc_init channel phy : ℕ) (pdu : List ℕ) : Type 0 where
  pub phy_low : 1 ≤ phy
  pub phy_high : phy ≤ 2
  pub channel_known : channel ≤ 39
  pub crc_width : crc_init < 2 ^ 24
  pub header : 2 ≤ length pdu
  pub fits : phy + 4 + length pdu + 3 ≤ max_packet
  pub room : phy + 4 + length pdu + 3 ≤ capacity

module _ (capacity aa crc_init channel phy : ℕ) (pdu : List ℕ) where
  accepted :
      Accepts capacity crc_init channel phy pdu
      → packet_build true capacity aa crc_init channel phy (some pdu)
        ≡ some (prefix aa phy ++ whiten_bytes (bit_or channel 0x40) (body crc_init pdu))
  unfolding packet_build
  accepted a = ground arith

  packet_build-Accepts :
      {out : List ℕ}
      → packet_build true capacity aa crc_init channel phy (some pdu) ≡ some out
      → Accepts capacity crc_init channel phy pdu
        × (out ≡ prefix aa phy ++ whiten_bytes (bit_or channel 0x40) (body crc_init pdu))
  unfolding packet_build
  packet_build-Accepts h = ground arith

drop_prefix : (xs ys : List ℕ) → drop (length xs) (xs ++ ys) ≡ ys
drop_prefix [] ys = refl
drop_prefix (x ∷ xs) ys = drop_prefix xs ys

take_prefix : (xs ys : List ℕ) → take (length xs) (xs ++ ys) ≡ xs
take_prefix [] ys = refl
take_prefix (x ∷ xs) ys = ap (λ (l : List ℕ). x ∷ l) (take_prefix xs ys)

length-prefix : (aa phy : ℕ) → length (prefix aa phy) ≡ phy + 4
unfolding prefix address_bytes
length-prefix aa phy = omega (
  arith,
  length-append {A = ℕ} (replicate phy (if bit_and aa 1 == 0 then 0xaa else 0x55))
      (address_bytes aa),
  length-replicate {A = ℕ} phy (if bit_and aa 1 == 0 then 0xaa else 0x55),
)

length-body : (crc_init : ℕ) (pdu : List ℕ) → length (body crc_init pdu) ≡ length pdu + 3
unfolding body crc_tail
length-body crc_init pdu = omega (arith, length-append pdu (crc_tail (crc_bytes crc_init pdu)))

-- What a receiver gets that takes `phy` preamble bytes and the address off, undoes the whitening
-- of the channel and splits off the check value.
pub received : ℕ → ℕ → List ℕ → List ℕ
received channel phy out = whiten_bytes (bit_or channel 0x40) (drop (phy + 4) out)

module _ (aa crc_init channel phy : ℕ) (pdu : List ℕ) where
  length-packet :
      length (prefix aa phy ++ whiten_bytes (bit_or channel 0x40) (body crc_init pdu))
      ≡ phy + 4 + length pdu + 3
  length-packet = omega (
    arith,
    length-append (prefix aa phy) (whiten_bytes (bit_or channel 0x40) (body crc_init pdu)),
    length-prefix aa phy,
    length-whiten_bytes (bit_or channel 0x40) (body crc_init pdu),
    length-body crc_init pdu,
  )

  received-packet :
      received channel phy (prefix aa phy ++ whiten_bytes (bit_or channel 0x40) (body crc_init pdu))
      ≡ body crc_init pdu
  unfolding received
  received-packet = rw (← length-prefix aa phy) (
      ap (whiten_bytes (bit_or channel 0x40))
        (drop_prefix (prefix aa phy) (whiten_bytes (bit_or channel 0x40) (body crc_init pdu)))
      ∙ whiten_bytes_twice (bit_or channel 0x40) (body crc_init pdu))

replicate-IsByte : (n x : ℕ) → IsByte x → All IsByte (replicate n x)
replicate-IsByte zero x h = tt
replicate-IsByte (suc n) x h = (h, replicate-IsByte n x h)

prefix-IsByte : (aa phy : ℕ) → All IsByte (prefix aa phy)
unfolding prefix address_bytes
prefix-IsByte aa phy =
    All-append IsByte (replicate phy (if bit_and aa 1 == 0 then 0xaa else 0x55)) (address_bytes aa)
      (replicate-IsByte phy (if bit_and aa 1 == 0 then 0xaa else 0x55) (ground arith)) (omega arith)

body-IsByte : (crc_init : ℕ) (pdu : List ℕ) → All IsByte pdu → All IsByte (body crc_init pdu)
unfolding body crc_tail
body-IsByte crc_init pdu h =
    All-append IsByte pdu (crc_tail (crc_bytes crc_init pdu)) h
      (reverse8-lt _, (reverse8-lt _, (reverse8-lt _, tt)))

packet-IsByte :
    (aa crc_init channel phy : ℕ) (pdu : List ℕ)
    → All IsByte pdu
    → All IsByte (prefix aa phy ++ whiten_bytes (bit_or channel 0x40) (body crc_init pdu))
packet-IsByte aa crc_init channel phy pdu h =
    All-append IsByte (prefix aa phy) (whiten_bytes (bit_or channel 0x40) (body crc_init pdu))
      (prefix-IsByte aa phy)
      (whiten_bytes-IsByte (bit_or channel 0x40) (body crc_init pdu) (body-IsByte crc_init pdu h))

take-body : (crc_init : ℕ) (pdu : List ℕ) → take (length pdu) (body crc_init pdu) ≡ pdu
unfolding body
take-body crc_init pdu = take_prefix pdu (crc_tail (crc_bytes crc_init pdu))

-- A packet that was built has at most 255 bytes and fits its destination; and a receiver that
-- undoes the whitening of its channel finds the PDU, unchanged, with a check value that brings the
-- register to zero. Of a PDU of bytes it is made of bytes.
pub packet_received :
    (capacity aa crc_init channel phy : ℕ) (pdu : List ℕ) {out : List ℕ}
    → packet_build true capacity aa crc_init channel phy (some pdu) ≡ some out
    → (length out ≡ phy + 4 + length pdu + 3)
      × (length out ≤ max_packet)
      × (length out ≤ capacity)
      × (take (length pdu) (received channel phy out) ≡ pdu)
      × (crc_bytes crc_init (received channel phy out) ≡ 0)
      × (All IsByte pdu → All IsByte out)
unfolding received
packet_received capacity aa crc_init channel phy pdu {out} h =
    let (a, e) = packet_build-Accepts capacity aa crc_init channel phy pdu h in
    let sent = whiten_bytes (bit_or channel 0x40) (body crc_init pdu) in
    let size : length out ≡ phy + 4 + length pdu + 3 =
      ap (λ (l : List ℕ). length l) e ∙ length-packet aa crc_init channel phy pdu in
    let back : received channel phy out ≡ body crc_init pdu =
      ap (received channel phy) e ∙ received-packet aa crc_init channel phy pdu in
    (
      size,
      omega (arith, a.fits),
      omega (arith, a.room),
      rw back (take-body crc_init pdu),
      rw back (body-residue crc_init pdu a.crc_width),
      λ bytes. rw e (packet-IsByte aa crc_init channel phy pdu bytes),
    )
