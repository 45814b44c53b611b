-- ===== src/RawLlcp/Parent.antt =====
-- The parent connection within the Air, in firmware/radio/src/raw_llcp.c: the E1 and E2 messages travel in Air
-- packets, with sequence numbers of their own.
use open_ull_receiver.Base.{
  ℕ, ◌+◌, bit_and, bit_or, bit_xor, u8, ◌<<<◌, ◌>>>◌, Bool, true, false, not, ◌&&◌, ◌||◌, none,
  some, Option, List, [], ◌∷◌, length, take, drop, same_bytes, ltb, leb, ◌==◌, if◌then◌else◌,
}
use open_ull_receiver.AirSession.{get16}
use open_ull_receiver.AirFeedback.Reception.{ControlRx}
use open_ull_receiver.ParentAck.{byte_at, nesn_bit, sn_bit}
use open_ull_receiver.RawLlcp.State.{
  Pdu, Controller, AirParent, Raw, bit_set, encrypted, parent_sequence, is_sequence,
  air_parent_current, idle,
}
use open_ull_receiver.RawLlcp.Detached.{UsbCall, detached_eligible, receive_detached}

-- `ull_raw_parent_poll_header`; `none` is its status 0x0c.
unfoldable pub parent_poll_header : Controller → Raw → Option ℕ
parent_poll_header c s =
    let known =
      c.llc == s.committed_llc && c.lld == s.committed_lld
      || c.llc == s.session_llc && c.lld == s.session_lld in
    if not (c.llc == 0) && not (c.lld == 0) && known && encrypted c && ltb c.cs_index 6
    then some (bit_or 1 (bit_and (c.cs 12 >>> 10) 12))
    else none

-- `ull_raw_parent_air_pdu`
unfoldable pub parent_pdu : Controller → Raw → Option Pdu
parent_pdu c s =
    let p = s.air_parent in
    if not p.active
    then elim (parent_poll_header c s) [
      | none ↦ none
      | some h ↦ some (record { header = h; payload = [] })
    ]
    else if not (air_parent_current c p)
    then none
    else some (record {
      header = u8 (bit_or (bit_or (if p.pending then 3 else 1) (p.tx_sn <<< 3)) (p.rx_nesn <<< 2));
      payload = if p.pending then p.message else [];
    })

abbrev pub is_e1 : ControlRx → Bool
is_e1 rx = bit_and rx.header 3 == 3 && length rx.payload == 9 && byte_at rx.payload 0 == 0xe1

abbrev pub is_empty_reply : ControlRx → Bool
is_empty_reply rx = bit_and rx.header 3 == 1 && length rx.payload == 0

-- The E1 message that answers the proposal, within a second of it and on its own link.
unfoldable pub first_valid : Controller → Raw → ControlRx → Pdu → Bool
first_valid c s rx sent =
    is_e1 rx
    && s.e1_expected
    && byte_at s.sent_e0 2 == 2
    && leb s.e0_sent_us c.now
    && ltb c.now (s.e0_sent_us + 1000000)
    && length sent.payload == 0
    && bit_and sent.header 3 == 1
    && sn_bit rx.header == nesn_bit sent.header
    && not (nesn_bit rx.header == sn_bit sent.header)
    && s.session_llc == s.committed_llc
    && s.session_lld == s.committed_lld
    && idle c s
    && same_bytes 6 (drop 1 rx.payload) (drop 31 s.sent_e0)
    && get16 (drop 7 rx.payload) == s.e0_counter

-- The parent that begins with it.
unfoldable pub first_parent : Raw → ControlRx → ℕ → AirParent
first_parent s rx hardware = record {
  active = true;
  pending = false;
  tx_sn = nesn_bit rx.header;
  rx_nesn = bit_xor (sn_bit rx.header) 1;
  hardware_sequence = hardware;
  llc = s.session_llc;
  lld = s.session_lld;
  accepted_e1 = take 9 rx.payload;
  message = [];
}

-- The first branch; the list is the stages that are reported.
unfoldable pub receive_first : Controller → Raw → ControlRx → Pdu → Raw × Bool × List ℕ
receive_first c s rx sent = elim (parent_sequence c s.session_llc s.session_lld) [
  | none ↦ (s, false, [])
  | some hardware ↦
      if first_valid c s rx sent
      then (
        record s {
          e1_expected = false;
          e1_received = true;
          session_prepared = false;
          received_e1 = take 9 rx.payload;
          air_parent = first_parent s rx hardware;
        },
        true,
        1 ∷ [],
      )
      else (s, false, [])
]

-- What was sent is the PDU that waits for its acknowledgement.
unfoldable pub exact : AirParent → Pdu → Bool
exact p sent =
    sn_bit sent.header == p.tx_sn
    && length sent.payload == (if p.pending then length p.message else 0)
    && bit_and sent.header 3 == (if p.pending then 3 else 1)
    && same_bytes (length sent.payload) sent.payload p.message

-- The acknowledgement: the parent, and whether a message was acknowledged.
unfoldable pub acknowledged_parent : AirParent → ControlRx → Pdu → AirParent × Bool
acknowledged_parent p rx sent =
    let t = record p { tx_sn = bit_xor p.tx_sn 1 } in
    if exact p sent && not (nesn_bit rx.header == p.tx_sn)
    then (if p.pending then (record t { pending = false; message = [] }, true) else (t, false))
    else (p, false)

-- The peer's own sequence number.
unfoldable pub answered_parent : AirParent → ControlRx → AirParent
answered_parent p rx =
    if sn_bit rx.header == p.rx_nesn then record p { rx_nesn = bit_xor p.rx_nesn 1 } else p

-- The second branch: a reply to the active parent.
unfoldable pub receive_reply : Controller → Raw → ControlRx → Pdu → Raw × Bool × List ℕ
receive_reply c s rx sent =
    let a = acknowledged_parent s.air_parent rx sent in
    let p = answered_parent a.0 rx in
    let software = bit_or (p.tx_sn <<< 13) (p.rx_nesn <<< 12) in
    let back = a.1 && is_sequence (parent_sequence c p.llc p.lld) software in
    if not (air_parent_current c s.air_parent)
      || not (is_empty_reply rx || same_bytes 9 rx.payload s.air_parent.accepted_e1)
    then (s, false, [])
    else (
      record s {
        e2_confirmed = s.e2_confirmed || a.1;
        air_parent = if back then record p { active = false } else p;
      },
      true,
      if not a.1 then [] else if back then 3 ∷ 4 ∷ [] else 3 ∷ [],
    )

-- The path of `ull_raw_receive_air_control` for a parent that is not retired.
unfoldable pub receive_attached : Controller → Raw → ControlRx → Pdu → Raw × Bool × List ℕ
receive_attached c s rx sent =
    if not (is_e1 rx) && not (is_empty_reply rx)
    then (s, false, [])
    else if not s.air_parent.active
    then receive_first c s rx sent
    else receive_reply c s rx sent

-- `ull_raw_receive_air_control`: the state, the result, the calls on the USB side, and the stages.
unfoldable pub receive_air_control :
    Controller → Raw → Option ControlRx → Pdu → Raw × Bool × List UsbCall × List ℕ
receive_air_control c s none sent = (s, false, [], [])
receive_air_control c s (some rx) sent =
    let d = receive_detached s rx sent in
    let a = receive_attached c s rx sent in
    if ltb 60 (length rx.payload)
      || ltb 68 (length sent.payload)
      || bit_set rx.header 0xe0
      || bit_set sent.header 0xf0
    then (s, false, [], [])
    else if detached_eligible c s
    then (d.0, d.1, d.2, [])
    else (a.0, a.1, [], a.2)
