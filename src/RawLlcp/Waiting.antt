-- ===== src/RawLlcp/Waiting.antt =====
-- The E2 message of firmware/radio/src/raw_llcp.c while it waits for its acknowledgement: the exchanges, and the
-- state that they leave as it is.
use open_ull_receiver.Base.{
  ℕ, zero, suc, ◌<◌, ◌≤◌, ◌∙◌, ltb, ◌≡◌, inl, inr, refl, bit_and, bit_or, bit_xor, u8, ◌<<<◌, Bool,
  true, false, not, ◌&&◌, ◌||◌, none, some, Option, List, [], ◌∷◌, length, same_bytes,
  same_bytes_refl, ◌==◌, if◌then◌else◌, arith, Bool-cases,
}
use open_ull_receiver.AirFeedback.Reception.{ControlRx}
use open_ull_receiver.ParentAck.{nesn_bit, sn_bit}
use open_ull_receiver.RawLlcp.State.{Pdu, Controller, AirParent, Raw, bit_set, air_parent_current}
use open_ull_receiver.RawLlcp.Detached.{detached_eligible, receive_detached}
use open_ull_receiver.RawLlcp.Parent.{
  parent_pdu, is_e1, is_empty_reply, receive_first, exact, acknowledged_parent, answered_parent,
  receive_reply, receive_attached, receive_air_control,
}

-- What goes out, and what does not.
abbrev pub pdu_or_none : Option Pdu → Pdu
pdu_or_none none = record { header = 0; payload = [] }
pdu_or_none (some p) = p

-- A reply, if one comes, to the parent's PDU. The controller may have moved on between the two.
pub record Exchange : Type 0 where
  pub before : Controller
  pub after : Controller
  pub reply : Option ControlRx

-- The parent's PDU is sent, and the reply is received.
abbrev pub exchange : Raw → Exchange → Raw
exchange s x = (receive_air_control x.after s x.reply (pdu_or_none (parent_pdu x.before s))).0

unfoldable pub exchanges : Raw → List Exchange → Raw
exchanges s [] = s
exchanges s (x ∷ rest) = exchanges (exchange s x) rest

-- A reply that the parent `p` takes.
abbrev pub replies : AirParent → ControlRx → Bool
replies p rx =
    not (bit_set rx.header 0xe0)
    && (is_empty_reply rx || is_e1 rx && same_bytes 9 rx.payload p.accepted_e1)

unfoldable pub reply_acknowledges : AirParent → Option ControlRx → Bool
reply_acknowledges p none = false
reply_acknowledges p (some rx) = replies p rx && not (nesn_bit rx.header == p.tx_sn)

-- The link of `p` was current at both ends of the exchange, and the reply acknowledges the sequence number of `p`.
abbrev pub acknowledges : AirParent → Exchange → Bool
acknowledges p x =
    air_parent_current x.before p && air_parent_current x.after p && reply_acknowledges p x.reply

unfoldable pub any_acknowledges : AirParent → List Exchange → Bool
any_acknowledges p [] = false
any_acknowledges p (x ∷ rest) = acknowledges p x || any_acknowledges p rest

-- E2, given the number of the parent `p`, waits for its acknowledgement.
pub record IsWaiting (p : AirParent) (s : Raw) : Type 0 where
  pub active : s.air_parent.active ≡ true
  pub began : p.active ≡ true
  pub pending : s.air_parent.pending ≡ true
  pub unconfirmed : s.e2_confirmed ≡ false
  pub number : s.air_parent.tx_sn ≡ p.tx_sn
  pub small : p.tx_sn < 2
  pub next : s.air_parent.rx_nesn < 2
  pub llc : s.air_parent.llc ≡ p.llc
  pub lld : s.air_parent.lld ≡ p.lld
  pub hardware : s.air_parent.hardware_sequence ≡ p.hardware_sequence
  pub answer : s.air_parent.accepted_e1 ≡ p.accepted_e1
  pub short : length s.air_parent.message ≤ 68

header_bits :
    (t r : ℕ)
    → t < 2
    → r < 2
    → let h = u8 (bit_or (bit_or 3 (t <<< 3)) (r <<< 2)) in
      (sn_bit h ≡ t) × (bit_and h 3 ≡ 3) × (bit_set h 0xf0 ≡ false)
header_bits zero zero p q = (refl, refl, refl)
header_bits zero (suc zero) p q = (refl, refl, refl)
header_bits (suc zero) zero p q = (refl, refl, refl)
header_bits (suc zero) (suc zero) p q = (refl, refl, refl)
header_bits (suc (suc t)) r p q = absurd (omega arith)
header_bits t (suc (suc r)) p q = absurd (omega arith)

pub same_link :
    (p : AirParent) (c : Controller) (s : Raw)
    → IsWaiting p s
    → air_parent_current c s.air_parent ≡ air_parent_current c p
unfolding air_parent_current
same_link p c s w = rw (w.active, w.began, w.llc, w.lld, w.hardware)

-- What is sent: E2 while the link is current, and otherwise nothing that could be acknowledged.
pub record Sent (p : AirParent) (c : Controller) (s : Raw) (sent : Pdu) : Type 0 where
  pub matches : exact s.air_parent sent ≡ air_parent_current c p
  pub fits : ltb 68 (length sent.payload) ≡ false
  pub plain : bit_set sent.header 0xf0 ≡ false

pub parent_pdu-Sent :
    (p : AirParent) (c : Controller) (s : Raw)
    → IsWaiting p s
    → Sent p c s (pdu_or_none (parent_pdu c s))
unfolding exact parent_pdu
parent_pdu-Sent p c s w =
    let a = s.air_parent in
    let (number, kind, plain) = header_bits a.tx_sn a.rx_nesn (rw w.number w.small) w.next in
    let same = same_bytes_refl (length a.message) a.message refl in
    elim (Bool-cases (air_parent_current c p)) [
      | inl e ↦
          let now : air_parent_current c a ≡ true = same_link p c s w ∙ e in
          record {
            matches = rw (e, now, w.active, w.pending) (ground (arith, number, kind, same));
            fits = rw (now, w.active, w.pending) (ground (arith, w.short));
            plain = rw (now, w.active, w.pending) plain;
          }
      | inr e ↦
          let now : air_parent_current c a ≡ false = same_link p c s w ∙ e in
          record {
            matches = rw (e, now, w.active, w.pending) (ground arith);
            fits = rw (now, w.active) refl;
            plain = rw (now, w.active) refl;
          }
    ]

-- A confirmation stays.
attached_stays :
    (c : Controller) (s : Raw) (rx : ControlRx) (sent : Pdu)
    → s.e2_confirmed ≡ true
    → (receive_attached c s rx sent).0.e2_confirmed ≡ true
unfolding receive_attached receive_first receive_reply
attached_stays c s rx sent e = ground arith

pub control_stays :
    (c : Controller) (s : Raw) (rx : Option ControlRx) (sent : Pdu)
    → s.e2_confirmed ≡ true
    → (receive_air_control c s rx sent).0.e2_confirmed ≡ true
unfolding receive_air_control receive_detached
control_stays c s none sent e = e
control_stays c s (some rx) sent e = ground (arith, attached_stays c s rx sent e)

-- While E2 waits, a reply takes the path of the attached parent.
pub control_attached :
    (p : AirParent) (c b : Controller) (s : Raw) (rx : ControlRx) (sent : Pdu)
    → IsWaiting p s
    → Sent p b s sent
    → (receive_air_control c s (some rx) sent).0 ≡ (
        if ltb 60 (length rx.payload) || bit_set rx.header 0xe0
        then s
        else (receive_attached c s rx sent).0)
unfolding receive_air_control detached_eligible
control_attached p c b s rx sent w k = ground (arith, w.pending, k.fits, k.plain)

-- A result that leaves E2 waiting.
pub record Still (p : AirParent) (r : Raw × Bool × List ℕ) : Type 0 where
  pub still : IsWaiting p r.0

pub branch-Still :
    {p : AirParent} {x y : Raw × Bool × List ℕ} (b : Bool)
    → (b ≡ true → Still p x)
    → (b ≡ false → Still p y)
    → Still p (if b then x else y)
branch-Still true f g = f refl
branch-Still false f g = g refl

flipped : (n : ℕ) → n < 2 → bit_xor n 1 < 2
flipped zero p = omega arith
flipped (suc zero) p = omega arith
flipped (suc (suc n)) p = absurd (omega arith)

abbrev answered : Raw → ControlRx → Raw
answered s rx = record s {
  e2_confirmed = s.e2_confirmed || false;
  air_parent = answered_parent s.air_parent rx;
}

pub answered-IsWaiting :
    (p : AirParent) (s : Raw) (rx : ControlRx) → IsWaiting p s → IsWaiting p (answered s rx)
unfolding answered_parent
answered-IsWaiting p s rx w =
    let k = flipped s.air_parent.rx_nesn w.next in
    record {
      active = ground (arith, w.active);
      began = w.began;
      pending = ground (arith, w.pending);
      unconfirmed = ground (arith, w.unconfirmed);
      number = ground (arith, w.number);
      small = w.small;
      next = ground (arith, w.next, k);
      llc = ground (arith, w.llc);
      lld = ground (arith, w.lld);
      hardware = ground (arith, w.hardware);
      answer = ground (arith, w.answer);
      short = ground (arith, w.short);
    }

pub kept :
    (p : AirParent) (rx : ControlRx) (sent : Pdu)
    → (exact p sent && not (nesn_bit rx.header == p.tx_sn)) ≡ false
    → acknowledged_parent p rx sent ≡ (p, false)
unfolding acknowledged_parent
kept p rx sent e = ground arith
