-- ===== src/ParentAck/Examples.antt =====
-- Runs of firmware/radio/src/parent_ack.c, and the theorems at concrete inputs. The PDUs are those
-- of tests/parent_ack_test.c.
use open_ull_receiver.Base.{
  ℕ, ◌+◌, ◌≡◌, ◌≢◌, refl, sym, ap, Bool, true, false, none, some, List, [], ◌∷◌, arith,
}
use open_ull_receiver.ParentAck.{
  Ack, header, receive, bootstrap, malformed, control_pdu, wheel_pdu, media_pdu, mic_pdu, framed,
  is_wheel, is_media, is_mic, empty_pdu,
}
use open_ull_receiver.ParentAck.Digits.{IsValid}
use open_ull_receiver.ParentAck.ExactlyOnce.{
  Link, Reach, opened, poll, answer, answered, delivered_once,
}

abbrev fresh : Ack
fresh = record {
  active = false;
  tx_sn = 0;
  rx_nesn = 0;
  accepted = 0;
  duplicates = 0;
  empty = 0;
  acked = 0;
  rejected = 0;
  stale = 0;
}

abbrev wheel : List ℕ
wheel = 6 ∷ 0 ∷ 1 ∷ 1 ∷ 10 ∷ 1 ∷ 0 ∷ 1 ∷ 0 ∷ 2 ∷ []

-- The wheel PDU with header 0x06 that answers a poll.
abbrev live : Ack
live = record fresh { active = true; tx_sn = 1; rx_nesn = 1; accepted = 1 }

wheel_opens : receive fresh 0x06 (some wheel) 10 1 0 ≡ (live, true)
unfolding receive bootstrap malformed control_pdu wheel_pdu media_pdu mic_pdu framed is_wheel
    is_media is_mic empty_pdu
wheel_opens = refl

fresh-IsValid : IsValid fresh
fresh-IsValid = omega arith

-- The link as the wheel PDU opened it, and after the peer has answered the next empty PDU with an
-- empty one, header 0x09.
abbrev first : Link
first = record { ack = live; sn = 0; nesn = 1; confirmed = 0; taken = 1 }

first-Reach : Reach first
first-Reach =
    opened fresh 0x06 (some wheel) 10 1 0 first fresh-IsValid refl
      (ap (λ (r : Ack × Bool). r.1) wheel_opens) (sym (ap (λ (r : Ack × Bool). r.0) wheel_opens))
      refl refl refl refl

second-Reach : Reach (answer (poll first) 0x09 none 0)
unfolding poll header
second-Reach = answered 0x09 none 0 first-Reach refl refl

delivered_once_example :
    let l : Link = answer (poll first) 0x09 none 0 in
    (l.sn ≡ l.ack.rx_nesn → l.taken ≡ l.confirmed)
    × (l.sn ≢ l.ack.rx_nesn → l.taken ≡ l.confirmed + 1)
delivered_once_example = delivered_once second-Reach
