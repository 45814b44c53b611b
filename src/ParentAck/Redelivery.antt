-- ===== src/ParentAck/Redelivery.antt =====
-- A PDU that reaches the receiver of firmware/radio/src/parent_ack.c a second time.
use open_ull_receiver.Base.{
  ℕ, ◌/◌, ◌^◌, ◌≡◌, ◌≢◌, bit_and, inc32, Bool, true, false, Option, List, arith,
}
use open_ull_receiver.ParentAck.{
  Ack, header, nesn_bit, sn_bit, bootstrap, acknowledge, take_data, receive, malformed, control_pdu,
  empty_pdu,
}
use open_ull_receiver.ParentAck.Digits.{IsValid, acknowledge-IsValid, bit_and-one, bit_xor-one}

-- The state holds what a received header leaves behind: its acknowledgement is taken, its data
-- is not expected again.
pub record IsSettled (s : Ack) (h : ℕ) : Type 0 where
  pub live : s.active ≡ true
  pub acked : nesn_bit h ≡ s.tx_sn
  pub had : sn_bit h ≢ s.rx_nesn

acknowledge-nesn : (s : Ack) (h : ℕ) → IsValid s → nesn_bit h ≡ (acknowledge s h).tx_sn
unfolding acknowledge
acknowledge-nesn s h v = ground (arith, bit_and-one (h / 2 ^ 2), bit_xor-one s.tx_sn)

acknowledge-active : (s : Ack) (h : ℕ) → (acknowledge s h).active ≡ s.active
unfolding acknowledge
acknowledge-active s h = ground arith

bootstrap-IsSettled :
    (s : Ack) (h : ℕ) (c e : Bool) (sent sent_length : ℕ)
    → (bootstrap s h c e sent sent_length).1 ≡ true
    → IsSettled (bootstrap s h c e sent sent_length).0 h
unfolding bootstrap
bootstrap-IsSettled s h c e sent sent_length ok =
    ground (arith, bit_and-one (h / 2 ^ 3), bit_xor-one (bit_and (h / 2 ^ 3) 1))

take_data-IsSettled :
    (s : Ack) (h : ℕ) (c e : Bool)
    → IsValid s
    → s.active ≡ true
    → nesn_bit h ≡ s.tx_sn
    → (take_data s h c e).1 ≡ true
    → IsSettled (take_data s h c e).0 h
unfolding take_data
take_data-IsSettled s h c e v live a ok =
    ground (arith, bit_and-one (h / 2 ^ 3), bit_xor-one s.rx_nesn)

pub receive-IsSettled :
    (s : Ack) (h : ℕ) (p : Option (List ℕ)) (n sent sent_length : ℕ)
    → IsValid s
    → (receive s h p n sent sent_length).1 ≡ true
    → IsSettled (receive s h p n sent sent_length).0 h × (malformed h p n ≡ false)
unfolding receive
receive-IsSettled s h p n sent sent_length v ok = ground (
  arith,
  bootstrap-IsSettled s h (control_pdu h p n) (empty_pdu h n) sent sent_length,
  acknowledge-IsValid s h v,
  acknowledge-nesn s h v,
  acknowledge-active s h,
  take_data-IsSettled (acknowledge s h) h (control_pdu h p n) (empty_pdu h n),
)

receive_settled :
    (s : Ack) (h : ℕ) (p : Option (List ℕ)) (n : ℕ)
    → IsSettled s h
    → malformed h p n ≡ false
    → receive s h p n (header s) 0 ≡ (record s { duplicates = inc32 s.duplicates }, true)
unfolding receive acknowledge take_data
receive_settled s h p n settled fine = ground arith

-- A PDU that was received is never taken twice: if the peer sends it again in answer to the next
-- empty PDU, the call returns true and changes nothing but the count of duplicates. This holds
-- for the PDU that opened the link, for new data and for a duplicate alike.
pub receive_twice :
    (s : Ack) (h : ℕ) (p : Option (List ℕ)) (n sent sent_length : ℕ)
    → IsValid s
    → (receive s h p n sent sent_length).1 ≡ true
    → let s' = (receive s h p n sent sent_length).0 in
      receive s' h p n (header s') 0 ≡ (record s' { duplicates = inc32 s'.duplicates }, true)
receive_twice s h p n sent sent_length v ok =
    let (settled, fine) = receive-IsSettled s h p n sent sent_length v ok in
    receive_settled (receive s h p n sent sent_length).0 h p n settled fine
