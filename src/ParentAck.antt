-- ===== src/ParentAck.antt =====
-- The acknowledgement state machine of the parent link: firmware/radio/src/parent_ack.h and
-- firmware/radio/src/parent_ack.c. A payload pointer that may be NULL is an option of the bytes
-- that it points to; `p + 4` drops four of them.
pub mod Digits
pub mod Verdicts
pub mod Redelivery
pub mod ExactlyOnce
mod Examples
use open_ull_receiver.Base.{
  ℕ, ◌+◌, bit_and, bit_or, bit_xor, u8, inc32, ◌<<<◌, ◌>>>◌, Bool, true, false, not, ◌&&◌, ◌||◌,
  Option, none, some, List, get_or, drop, leb, ltb, ◌==◌, if◌then◌else◌,
}

abbrev pub byte_at : List ℕ → ℕ → ℕ
byte_at p i = get_or p i 0

-- The three scalar shapes that carry a control of the headset.
unfoldable pub is_wheel : Option (List ℕ) → ℕ → Bool
is_wheel none n = false
is_wheel (some p) n =
    n == 6
    && byte_at p 0 == 10
    && byte_at p 1 == 1
    && byte_at p 2 == 0
    && byte_at p 4 == 0
    && ((byte_at p 3 == 1 || byte_at p 3 == 2) && byte_at p 5 == 2
        || byte_at p 3 == 3 && leb (byte_at p 5) 100)

pub is_media : Option (List ℕ) → ℕ → Bool
is_media none n = false
is_media (some p) n = n == 2 && byte_at p 0 == 13

pub is_mic : Option (List ℕ) → ℕ → Bool
is_mic none n = false
is_mic (some p) n =
    n == 3 && (byte_at p 0 == 5 || byte_at p 0 == 6) && byte_at p 1 == 2 && byte_at p 2 == 0

-- `struct ull_parent_ack`; the counters are `unsigned` of 32 bits.
pub record Ack : Type 0 where
  pub active : Bool
  pub tx_sn : ℕ
  pub rx_nesn : ℕ
  pub accepted : ℕ
  pub duplicates : ℕ
  pub empty : ℕ
  pub acked : ℕ
  pub rejected : ℕ
  pub stale : ℕ

pub reset : Ack → Ack
reset s = record {
  active = false;
  tx_sn = 0;
  rx_nesn = 0;
  accepted = 0;
  duplicates = 0;
  empty = 0;
  acked = 0;
  rejected = 0;
  stale = 0;
}

-- The header of the next empty parent PDU, or 0 for none.
unfoldable pub header : Ack → ℕ
header s = if s.active then u8 (bit_or (bit_or 1 (s.tx_sn <<< 3)) (s.rx_nesn <<< 2)) else 0

-- The kinds of PDU that `receive` knows.
unfoldable pub empty_pdu : ℕ → ℕ → Bool
empty_pdu h n = bit_and h 3 == 1 && n == 0

-- The L2CAP frame of a scalar of `k` bytes: its length, then channel 0x0101.
unfoldable pub framed : ℕ → ℕ → List ℕ → ℕ → Bool
framed k h p n =
    bit_and h 3 == 2
    && n == k + 4
    && byte_at p 0 == k
    && byte_at p 1 == 0
    && byte_at p 2 == 1
    && byte_at p 3 == 1

unfoldable pub wheel_pdu : ℕ → Option (List ℕ) → ℕ → Bool
wheel_pdu h none n = false
wheel_pdu h (some p) n = framed 6 h p n && is_wheel (some (drop 4 p)) 6

pub media_pdu : ℕ → Option (List ℕ) → ℕ → Bool
media_pdu h none n = false
media_pdu h (some p) n = framed 2 h p n && is_media (some (drop 4 p)) 2

pub mic_pdu : ℕ → Option (List ℕ) → ℕ → Bool
mic_pdu h none n = false
mic_pdu h (some p) n = framed 3 h p n && is_mic (some (drop 4 p)) 3

-- wheel || media || mic
unfoldable pub control_pdu : ℕ → Option (List ℕ) → ℕ → Bool
control_pdu h p n = wheel_pdu h p n || media_pdu h p n || mic_pdu h p n

-- What is refused whatever the state.
unfoldable pub malformed : ℕ → Option (List ℕ) → ℕ → Bool
malformed h none n = not (bit_and h 0xe0 == 0) || bit_and h 3 == 0 || ltb 60 n || not (n == 0)
malformed h (some p) n = not (bit_and h 0xe0 == 0) || bit_and h 3 == 0 || ltb 60 n

-- The header's NESN and SN bits.
abbrev pub nesn_bit : ℕ → ℕ
nesn_bit h = bit_and (h >>> 2) 1

abbrev pub sn_bit : ℕ → ℕ
sn_bit h = bit_and (h >>> 3) 1

-- The first PDU, while no link is active.
pub bootstrap : Ack → ℕ → Bool → Bool → ℕ → ℕ → Ack × Bool
bootstrap s h control empty sent sent_length =
    if not (control || empty)
      || empty && not (sent == 1)
      || not (sent_length == 0)
      || not (sent == 0) && not (sent == 1)
      || sent == 1 && not (nesn_bit h == 1)
    then (record s { rejected = inc32 s.rejected }, false)
    else let s' = record s { active = true; tx_sn = nesn_bit h; rx_nesn = bit_xor (sn_bit h) 1 } in
      if empty
      then (record s' { empty = inc32 s.empty }, true)
      else (record s' { accepted = inc32 s.accepted }, true)

-- The peer's acknowledgement of the last empty PDU sent.
unfoldable pub acknowledge : Ack → ℕ → Ack
acknowledge s h =
    if not (nesn_bit h == s.tx_sn)
    then record s { tx_sn = bit_xor s.tx_sn 1; acked = inc32 s.acked }
    else s

-- The peer's data, once the acknowledgement has been taken.
unfoldable pub take_data : Ack → ℕ → Bool → Bool → Ack × Bool
take_data s h control empty =
    if not (sn_bit h == s.rx_nesn)
    then (record s { duplicates = inc32 s.duplicates }, true)
    else if not empty && not control
    then (record s { rejected = inc32 s.rejected }, false)
    else let s' = record s { rx_nesn = bit_xor s.rx_nesn 1 } in
      if control
      then (record s' { accepted = inc32 s.accepted }, true)
      else (record s' { empty = inc32 s.empty }, true)

unfoldable pub receive : Ack → ℕ → Option (List ℕ) → ℕ → ℕ → ℕ → Ack × Bool
receive s h p n sent sent_length =
    if malformed h p n
    then (record s { rejected = inc32 s.rejected }, false)
    else if not s.active
    then bootstrap s h (control_pdu h p n) (empty_pdu h n) sent sent_length
    else if not (sent_length == 0) || not (sent == header s)
    then (record s { stale = inc32 s.stale }, false)
    else take_data (acknowledge s h) h (control_pdu h p n) (empty_pdu h n)
