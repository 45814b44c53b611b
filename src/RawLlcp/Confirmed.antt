-- ===== src/RawLlcp/Confirmed.antt =====
-- The E2 message of firmware/radio/src/raw_llcp.c and its acknowledgement by the peer.
use open_ull_receiver.Base.{
  ℕ, zero, suc, ◌<◌, ◌≤◌, ltb, ◌≡◌, inl, inr, refl, true, false, not, ◌&&◌, ◌||◌, none, some,
  Option, List, [], ◌∷◌, length, take, same_bytes, ◌==◌, arith, Bool-cases,
}
use open_ull_receiver.AirSession.{Plan, byte_at}
use open_ull_receiver.AirFeedback.Reception.{ControlRx}
use open_ull_receiver.ParentAck.{nesn_bit}
use open_ull_receiver.RawLlcp.State.{
  Pdu, Controller, AirParent, Raw, bit_set, air_parent_current, idle,
}
use open_ull_receiver.RawLlcp.Parent.{
  parent_pdu, is_e1, is_empty_reply, exact, acknowledged_parent, receive_reply, receive_attached,
  receive_air_control,
}
use open_ull_receiver.RawLlcp.Send.{commit_air}
use open_ull_receiver.RawLlcp.Plans.{prepared_plan_current}
use open_ull_receiver.RawLlcp.Waiting.{
  pdu_or_none, Exchange, exchange, exchanges, reply_acknowledges, acknowledges, any_acknowledges,
  IsWaiting, same_link, Sent, parent_pdu-Sent, control_stays, control_attached, Still, branch-Still,
  answered-IsWaiting, kept,
}

module _ (p : AirParent) (c b : Controller) (s : Raw) (w : IsWaiting p s) (rx : ControlRx)
    (sent : Pdu) (k : Sent p b s sent) where
  acknowledged_now :
      acknowledges p (record { before = b; after = c; reply = some rx }) ≡ true
      → (receive_air_control c s (some rx) sent).0.e2_confirmed ≡ true
  unfolding receive_attached receive_reply acknowledged_parent reply_acknowledges
  acknowledged_now a =
      let link = same_link p c s w in
      let same = k.matches in
      rw (control_attached p c b s rx sent w k)
        (ground (arith, w.active, w.pending, w.number, w.answer, link, same))

  attached-IsWaiting :
      bit_set rx.header 0xe0 ≡ false
      → acknowledges p (record { before = b; after = c; reply = some rx }) ≡ false
      → IsWaiting p (receive_attached c s rx sent).0
  unfolding receive_attached receive_reply reply_acknowledges
  attached-IsWaiting good a =
      let link = same_link p c s w in
      let same = k.matches in
      let here : Still p (s, false, []) = record { still = w } in
      (branch-Still (not (is_e1 rx) && not (is_empty_reply rx)) (λ _. here)
        (λ kind.
          branch-Still (not s.air_parent.active) (λ no. absurd (ground (arith, w.active)))
            (λ _.
              branch-Still
                (not (air_parent_current c s.air_parent)
                  || not (is_empty_reply rx || same_bytes 9 rx.payload s.air_parent.accepted_e1))
                (λ _. here)
                (λ taken.
                  let quiet : (exact s.air_parent sent
                        && not (nesn_bit rx.header == s.air_parent.tx_sn))
                      ≡ false =
                    ground (arith, w.number, w.answer, link, same) in
                  let e = kept s.air_parent rx sent quiet in
                  rw e (record { still = answered-IsWaiting p s rx w }))))).still

  control-IsWaiting :
      acknowledges p (record { before = b; after = c; reply = some rx }) ≡ false
      → IsWaiting p (receive_air_control c s (some rx) sent).0
  control-IsWaiting a =
      rw (control_attached p c b s rx sent w k)
        (elim (Bool-cases (ltb 60 (length rx.payload) || bit_set rx.header 0xe0)) [
          | inl e ↦ rw e w
          | inr e ↦ rw e (attached-IsWaiting (ground arith) a)
        ])

-- One exchange from a waiting state.
exchange-IsWaiting :
    (p : AirParent) (s : Raw) (b c : Controller) (rx : Option ControlRx)
    → IsWaiting p s
    → acknowledges p (record { before = b; after = c; reply = rx }) ≡ false
    → IsWaiting p (exchange s (record { before = b; after = c; reply = rx }))
unfolding receive_air_control
exchange-IsWaiting p s b c none w a = w
exchange-IsWaiting p s b c (some rx) w a =
    control-IsWaiting p c b s w rx (pdu_or_none (parent_pdu b s)) (parent_pdu-Sent p b s w) a

exchange_confirms :
    (p : AirParent) (s : Raw) (b c : Controller) (rx : Option ControlRx)
    → IsWaiting p s
    → acknowledges p (record { before = b; after = c; reply = rx }) ≡ true
    → (exchange s (record { before = b; after = c; reply = rx })).e2_confirmed ≡ true
unfolding reply_acknowledges
exchange_confirms p s b c none w a = ground arith
exchange_confirms p s b c (some rx) w a =
    acknowledged_now p c b s w rx (pdu_or_none (parent_pdu b s)) (parent_pdu-Sent p b s w) a

-- Any exchanges from a waiting state, and from a confirmed one.
exchanges_stay :
    (s : Raw) (xs : List Exchange) → s.e2_confirmed ≡ true → (exchanges s xs).e2_confirmed ≡ true
unfolding exchanges
exchanges_stay s [] e = e
exchanges_stay s (x ∷ rest) e =
    exchanges_stay (exchange s x) rest
      (control_stays x.after s x.reply (pdu_or_none (parent_pdu x.before s)) e)

exchanges_confirm :
    (p : AirParent) (s : Raw) (xs : List Exchange)
    → IsWaiting p s
    → (exchanges s xs).e2_confirmed ≡ any_acknowledges p xs
unfolding exchanges any_acknowledges
exchanges_confirm p s [] w = w.unconfirmed
exchanges_confirm p s (x ∷ rest) w = elim (Bool-cases (acknowledges p x)) [
  | inl a ↦
      rw a (exchanges_stay (exchange s x) rest (exchange_confirms p s x.before x.after x.reply w a))
  | inr b ↦ rw b (
      exchanges_confirm p (exchange s x) rest (exchange-IsWaiting p s x.before x.after x.reply w b))
]

-- The numbers that the Air parent takes part in are bits.
pub record HasBits (p : AirParent) : Type 0 where
  pub number : p.tx_sn < 2
  pub next : p.rx_nesn < 2

length-take : (k : ℕ) (l : List ℕ) → length (take k l) ≤ k
length-take zero l = omega arith
length-take (suc k) [] = omega arith
length-take (suc k) (x ∷ l) = let h = length-take k l in omega arith

committed-IsWaiting :
    (c : Controller) (s : Raw) (plan : Plan)
    → HasBits s.air_parent
    → s.air_parent.active ≡ true
    → (commit_air c s plan).1 ≡ 0
    → IsWaiting s.air_parent (commit_air c s plan).0
unfolding commit_air
committed-IsWaiting c s plan v on ok =
    let free =
      byte_at s.sent_e0 2 == 2
      && air_parent_current c s.air_parent
      && not s.air_parent.pending
      && idle c s
      && prepared_plan_current c s plan in
    let e : free ≡ true = ground arith in
    rw e (record {
      active = on;
      began = on;
      pending = refl;
      unconfirmed = refl;
      number = refl;
      small = v.number;
      next = v.next;
      llc = refl;
      lld = refl;
      hardware = refl;
      answer = refl;
      short = length-take 68 plan.e2;
    })

-- After a commitment within the Air by an active parent whose sequence numbers are bits, the parent's PDU is sent
-- any number of times, and each time a reply, malformed or not, comes or none, while the controller may change
-- in any way: E2 counts as confirmed exactly when, in one of these exchanges, the parent's link was current both
-- when the PDU was made and when the reply came, the reply's header has no reserved bit, the reply was empty or
-- the accepted E1, and it acknowledged the sequence number that E2 was given.
pub commit_confirmed :
    (c : Controller) (s : Raw) (plan : Plan) (xs : List Exchange)
    → HasBits s.air_parent
    → s.air_parent.active ≡ true
    → (commit_air c s plan).1 ≡ 0
    → (exchanges (commit_air c s plan).0 xs).e2_confirmed ≡ any_acknowledges s.air_parent xs
commit_confirmed c s plan xs v on ok =
    exchanges_confirm s.air_parent (commit_air c s plan).0 xs (committed-IsWaiting c s plan v on ok)
