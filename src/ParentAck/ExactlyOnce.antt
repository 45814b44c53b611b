-- ===== src/ParentAck/ExactlyOnce.antt =====
-- The receiver of firmware/radio/src/parent_ack.c against a peer that follows the acknowledgement
-- rule of the Bluetooth link layer (Core 5.4, Volume 6, Part B, 4.5.9), over a link that loses
-- replies. The peer is the headset: its rule is stated here, not translated.
use open_ull_receiver.Base.{
  ℕ, ◌+◌, ◌/◌, ◌<◌, ◌^◌, ◌≡◌, ◌≢◌, bit_xor, Bool, true, false, Option, List, ◌==◌, ◌&&◌, arith,
  if◌then◌else◌, not,
}
use open_ull_receiver.ParentAck.{Ack, header, nesn_bit, sn_bit, receive}
use open_ull_receiver.ParentAck.Digits.{
  IsValid, receive-IsValid, header_sum, bit_and-one, bit_xor-one,
}
use open_ull_receiver.ParentAck.Verdicts.{
  Verdict, Receipt, Fresh, verdict, receive-Receipt, verdict-Fresh,
}
use open_ull_receiver.ParentAck.Redelivery.{receive-IsSettled}

-- The two ends. `confirmed` counts the peer's PDUs that it knows to have arrived, `taken` those
-- that the receiver has counted as accepted or empty.
pub record Link : Type 0 where
  pub ack : Ack
  pub sn : ℕ
  pub nesn : ℕ
  pub confirmed : ℕ
  pub taken : ℕ

-- The receiver's empty PDU reaches the peer: an NESN that differs from the peer's SN confirms its
-- PDU, and an SN that the peer expects is new to it.
unfoldable pub poll : Link → Link
poll l =
    let h = header l.ack in
    let confirms = not (nesn_bit h == l.sn) in
    let news = sn_bit h == l.nesn in
    record l {
      sn = if confirms then bit_xor l.sn 1 else l.sn;
      nesn = if news then bit_xor l.nesn 1 else l.nesn;
      confirmed = if confirms then l.confirmed + 1 else l.confirmed;
    }

-- Whether a call counted new data.
unfoldable pub counts_new : Ack → Ack → Bool
counts_new s t = not (s.accepted == t.accepted && s.empty == t.empty)

-- The peer's answer reaches the receiver.
unfoldable pub answer : Link → ℕ → Option (List ℕ) → ℕ → Link
answer l h p n =
    let (t, _) = receive l.ack h p n (header l.ack) 0 in
    record l { ack = t; taken = if counts_new l.ack t then l.taken + 1 else l.taken }

-- The histories of a link: opened by a first PDU, then empty PDUs that reach the peer, each with
-- or without an answer that reaches the receiver. An answer carries the peer's sequence numbers
-- and any data.
pub data Reach : Link → Type 0 where
  opened :
      (s : Ack) (h : ℕ) (p : Option (List ℕ)) (n sent sent_length : ℕ) (l : Link)
      → IsValid s
      → s.active ≡ false
      → (receive s h p n sent sent_length).1 ≡ true
      → l.ack ≡ (receive s h p n sent sent_length).0
      → l.sn ≡ sn_bit h
      → l.nesn ≡ nesn_bit h
      → l.confirmed ≡ 0
      → l.taken ≡ 1
      → Reach l
  unanswered : {l : Link} → Reach l → Reach (poll l)
  answered :
      {l : Link} (h : ℕ) (p : Option (List ℕ)) (n : ℕ)
      → Reach l
      → sn_bit h ≡ (poll l).sn
      → nesn_bit h ≡ (poll l).nesn
      → Reach (answer (poll l) h p n)

-- The receiver is ahead by the PDU in flight, if it has taken that.
pub record InStep (l : Link) : Type 0 where
  pub valid : IsValid l.ack
  pub live : l.ack.active ≡ true
  pub sn : l.sn < 2
  pub level : l.sn ≡ l.ack.rx_nesn → l.taken ≡ l.confirmed
  pub ahead : l.sn ≢ l.ack.rx_nesn → l.taken ≡ l.confirmed + 1

poll-InStep : (l : Link) → InStep l → InStep (poll l)
unfolding poll
poll-InStep l i =
    ground
      (arith, header_sum l.ack i.valid i.live, bit_and-one (header l.ack / 2 ^ 2), bit_xor-one l.sn)

-- One answer, by what the receiver decides about it.
answered_as :
    (v : Verdict) (l : Link) (h : ℕ) (r : Ack × Bool)
    → InStep l
    → Receipt v l.ack r
    → IsValid r.0
    → (l.sn ≢ l.ack.rx_nesn → ¬ (Fresh v))
    → InStep (record l { ack = r.0; taken = if counts_new l.ack r.0 then l.taken + 1 else l.taken })
unfolding counts_new
answered_as Verdict.control l h r i x v f = ground (arith, bit_xor-one l.ack.rx_nesn)
answered_as _ l h r i x v f = ground (arith, bit_xor-one l.ack.rx_nesn)

answer-InStep :
    (l : Link) (h : ℕ) (p : Option (List ℕ)) (n : ℕ)
    → InStep l
    → sn_bit h ≡ l.sn
    → InStep (answer l h p n)
unfolding answer
answer-InStep l h p n i e =
    answered_as (verdict l.ack h p n (header l.ack) 0) l h (receive l.ack h p n (header l.ack) 0) i
      (receive-Receipt l.ack h p n (header l.ack) 0)
      (receive-IsValid l.ack h p n (header l.ack) 0 i.valid)
      (rw (← e) (verdict-Fresh l.ack h p n (header l.ack) 0 i.live))

Reach-InStep : {l : Link} → Reach l → InStep l
Reach-InStep (opened s h p n sent sent_length l v off ok e sn nesn c t) = ground (
  arith,
  receive-IsSettled s h p n sent sent_length v ok,
  receive-IsValid s h p n sent sent_length v,
  bit_and-one (h / 2 ^ 3),
)
Reach-InStep (unanswered {l} r) = poll-InStep l (Reach-InStep r)
Reach-InStep (answered {l} h p n r e _) =
    answer-InStep (poll l) h p n (poll-InStep l (Reach-InStep r)) e

-- Exactly-once delivery over a lossy link. In every history the receiver has counted each of the
-- peer's PDUs that the peer knows to have arrived exactly once, and besides these at most the one
-- in flight: that one just when the peer's sequence number is not the one that it expects.
pub delivered_once :
    {l : Link}
    → Reach l
    → (l.sn ≡ l.ack.rx_nesn → l.taken ≡ l.confirmed)
      × (l.sn ≢ l.ack.rx_nesn → l.taken ≡ l.confirmed + 1)
delivered_once r = let i = Reach-InStep r in (i.level, i.ahead)
