-- ===== src/RawLlcp/Keys.antt =====
-- The controls of the headset in firmware/radio/src/raw_llcp.c, and the calls that they cause on the USB side.
use open_ull_receiver.Base.{
  ℕ, zero, suc, ◌<◌, bit_or, u8, ◌<<<◌, inl, inr, Bool-cases, ◌≡◌, ◌≤◌, refl, ap, ◌∙◌, Bool, true,
  false, ◌||◌, some, List, [], length, ltb, arith, inc32,
}
use open_ull_receiver.AirFeedback.Reception.{ControlRx}
use open_ull_receiver.ParentAck.{Ack, header, receive}
use open_ull_receiver.ParentAck.Digits.{IsValid, receive-IsValid}
use open_ull_receiver.ParentAck.Redelivery.{receive_twice}
use open_ull_receiver.RawLlcp.State.{Pdu, Controller, Raw, bit_set}
use open_ull_receiver.RawLlcp.Detached.{UsbCall, detached_eligible, receive_detached, control_calls}
use open_ull_receiver.RawLlcp.Parent.{receive_air_control}

-- The poll that the detached parent sends next.
abbrev pub next_poll : Raw → Pdu
next_poll s = record { header = header s.detached; payload = [] }

-- The state after a repetition, which counts it.
abbrev pub repeated : Raw → Raw
repeated s = record s {
  detached = record (s.detached) { duplicates = inc32 s.detached.duplicates };
}

detached_repeats :
    (s : Raw) (rx : ControlRx)
    → receive s.detached rx.header (some rx.payload) (length rx.payload) (header s.detached) 0
      ≡ (record (s.detached) { duplicates = inc32 s.detached.duplicates }, true)
    → receive_detached s rx (next_poll s) ≡ (repeated s, true, [])
unfolding receive_detached
detached_repeats s rx e = rw e (ground arith)

small_bits :
    (t r : ℕ) → t < 2 → r < 2 → bit_set (u8 (bit_or (bit_or 1 (t <<< 3)) (r <<< 2))) 0xf0 ≡ false
small_bits zero zero p q = refl
small_bits zero (suc zero) p q = refl
small_bits (suc zero) zero p q = refl
small_bits (suc zero) (suc zero) p q = refl
small_bits (suc (suc t)) r p q = absurd (omega arith)
small_bits t (suc (suc r)) p q = absurd (omega arith)

poll_small : (a : Ack) → IsValid a → bit_set (header a) 0xf0 ≡ false
unfolding header
poll_small a v = elim (Bool-cases a.active) [
  | inl on ↦ rw on (small_bits a.tx_sn a.rx_nesn v.tx v.rx)
  | inr off ↦ rw off refl
]

control_calls_most : (rx : ControlRx) → length (control_calls rx) ≤ 1
unfolding control_calls
control_calls_most rx = ground arith

eligible_again :
    (c : Controller) (s : Raw) (rx : ControlRx) (sent : Pdu)
    → detached_eligible c (receive_detached s rx sent).0 ≡ detached_eligible c s
unfolding receive_detached detached_eligible
eligible_again c s rx sent = refl

-- What has been heard once: the repetition, and a state that stays valid.
detached_fine :
    (s : Raw) (rx : ControlRx) (sent : Pdu)
    → IsValid s.detached
    → (receive_detached s rx sent).1 ≡ true
    → let s' = (receive_detached s rx sent).0 in
      (receive_detached s' rx (next_poll s') ≡ (repeated s', true, [])) × IsValid s'.detached
unfolding receive_detached
detached_fine s rx sent v ok = (
  detached_repeats (receive_detached s rx sent).0 rx (
      receive_twice s.detached rx.header (some rx.payload) (length rx.payload) sent.header
        (length sent.payload) v ok),
  receive-IsValid s.detached rx.header (some rx.payload) (length rx.payload) sent.header
      (length sent.payload) v,
)

detached_most : (s : Raw) (rx : ControlRx) (sent : Pdu) → length (receive_detached s rx sent).2 ≤ 1
unfolding receive_detached
detached_most s rx sent = ground (arith, control_calls_most rx)

-- From a state whose sequence numbers are bits, a PDU that the retired parent's receiver accepts makes at most one
-- call on the USB side, and when the headset repeats it in answer to the next poll, it makes none: the
-- call returns true and counts the repetition.
pub receive_control_again :
    (c : Controller) (s : Raw) (rx : ControlRx) (sent : Pdu)
    → IsValid s.detached
    → detached_eligible c s ≡ true
    → (receive_air_control c s (some rx) sent).1 ≡ true
    → let r = receive_air_control c s (some rx) sent in
      (length r.2 ≤ 1)
      × (receive_air_control c r.0 (some rx) (next_poll r.0) ≡ (repeated r.0, true, [], []))
unfolding receive_air_control
receive_control_again c s rx sent v able ok =
    let d = receive_detached s rx sent in
    let guard =
      ltb 60 (length rx.payload)
      || ltb 68 (length sent.payload)
      || bit_set rx.header 0xe0
      || bit_set sent.header 0xf0 in
    elim (Bool-cases guard) [
      | inl shut ↦ let bad : false ≡ true = rw shut at ok in absurd (cc)
      | inr fine ↦
          let heard : d.1 ≡ true = rw (fine, able) at ok in
          let (again, valid) = detached_fine s rx sent v heard in
          let small = poll_small d.0.detached valid in
          let able' = eligible_again c s rx sent ∙ able in
          let sizes : (ltb 60 (length rx.payload) ≡ false) × (bit_set rx.header 0xe0 ≡ false) =
            ground arith in
          rw (fine, able, sizes.0, sizes.1, small, able')
            (
              detached_most s rx sent,
              ap (λ (r : Raw × Bool × List UsbCall). (r.0, r.1, r.2, [])) again,
            )
    ]
