-- ===== src/ParentAck/Verdicts.antt =====
-- What one call of `ull_parent_ack_receive` decides, as seen in its counters, its result and the
-- sequence number that it expects: firmware/radio/src/parent_ack.c.
use open_ull_receiver.Base.{
  ℕ, ◌≡◌, ◌≢◌, bit_xor, inc32, Bool, true, false, Option, List, ◌==◌, arith, if◌then◌else◌, not,
  ◌&&◌, ◌||◌,
}
use open_ull_receiver.ParentAck.{
  Ack, header, nesn_bit, sn_bit, bootstrap, acknowledge, take_data, receive, malformed, control_pdu,
  empty_pdu,
}

pub data Verdict : Type 0 where
  control idle repeated refused outdated : Verdict

-- The five counters after a verdict: just its own has been incremented.
abbrev pub Counted : Verdict → Ack → Ack → Type 0
Counted Verdict.control s t =
    (t.accepted ≡ inc32 s.accepted)
    × (t.empty ≡ s.empty)
    × (t.duplicates ≡ s.duplicates)
    × (t.rejected ≡ s.rejected)
    × (t.stale ≡ s.stale)
Counted Verdict.idle s t =
    (t.accepted ≡ s.accepted)
    × (t.empty ≡ inc32 s.empty)
    × (t.duplicates ≡ s.duplicates)
    × (t.rejected ≡ s.rejected)
    × (t.stale ≡ s.stale)
Counted Verdict.repeated s t =
    (t.accepted ≡ s.accepted)
    × (t.empty ≡ s.empty)
    × (t.duplicates ≡ inc32 s.duplicates)
    × (t.rejected ≡ s.rejected)
    × (t.stale ≡ s.stale)
Counted Verdict.refused s t =
    (t.accepted ≡ s.accepted)
    × (t.empty ≡ s.empty)
    × (t.duplicates ≡ s.duplicates)
    × (t.rejected ≡ inc32 s.rejected)
    × (t.stale ≡ s.stale)
Counted Verdict.outdated s t =
    (t.accepted ≡ s.accepted)
    × (t.empty ≡ s.empty)
    × (t.duplicates ≡ s.duplicates)
    × (t.rejected ≡ s.rejected)
    × (t.stale ≡ inc32 s.stale)

-- Whether the call returns true.
abbrev pub delivers : Verdict → Bool
delivers Verdict.refused = false
delivers Verdict.outdated = false
delivers _ = true

-- The sequence number expected next, on a live link: only new data moves it.
abbrev pub expects : Verdict → ℕ → ℕ
expects Verdict.control r = bit_xor r 1
expects Verdict.idle r = bit_xor r 1
expects _ r = r

abbrev pub Receipt : Verdict → Ack → Ack × Bool → Type 0
Receipt v s r =
    Counted v s r.0
    × (r.1 ≡ delivers v)
    × (s.active ≡ true → r.0.rx_nesn ≡ expects v s.rx_nesn)
    × (s.active ≡ true → r.0.active ≡ true)

taken_as : Ack → ℕ → Bool → Bool → Verdict
taken_as s h c e =
    if not (sn_bit h == s.rx_nesn)
    then Verdict.repeated
    else if c
    then Verdict.control
    else if e
    then Verdict.idle
    else Verdict.refused

take_data-Receipt :
    (s : Ack) (h : ℕ) (c e : Bool) → Receipt (taken_as s h c e) s (take_data s h c e)
unfolding taken_as take_data
take_data-Receipt s h c e = ground arith

-- Taking the acknowledgement in first changes nothing that the receipt speaks of.
acknowledge-Receipt :
    (v : Verdict) (s : Ack) (h : ℕ) (r : Ack × Bool) → Receipt v (acknowledge s h) r → Receipt v s r
unfolding acknowledge
acknowledge-Receipt Verdict.control s h r x = ground arith
acknowledge-Receipt _ s h r x = ground arith

started_as : ℕ → Bool → Bool → ℕ → ℕ → Verdict
started_as h c e sent sent_length =
    if not (c || e)
      || e && not (sent == 1)
      || not (sent_length == 0)
      || not (sent == 0) && not (sent == 1)
      || sent == 1 && not (nesn_bit h == 1)
    then Verdict.refused
    else if e
    then Verdict.idle
    else Verdict.control

bootstrap-Receipt :
    (s : Ack) (h : ℕ) (c e : Bool) (sent sent_length : ℕ)
    → s.active ≡ false
    → Receipt (started_as h c e sent sent_length) s (bootstrap s h c e sent sent_length)
unfolding started_as bootstrap
bootstrap-Receipt s h c e sent sent_length off = ground arith

-- What a call decides: the first of its tests that holds.
pub verdict : Ack → ℕ → Option (List ℕ) → ℕ → ℕ → ℕ → Verdict
verdict s h p n sent sent_length =
    if malformed h p n
    then Verdict.refused
    else if not s.active
    then started_as h (control_pdu h p n) (empty_pdu h n) sent sent_length
    else if not (sent_length == 0) || not (sent == header s)
    then Verdict.outdated
    else taken_as (acknowledge s h) h (control_pdu h p n) (empty_pdu h n)

-- Every call increments exactly one of the five counters accepted, empty, duplicates, rejected and
-- stale, returns true just for the first three, and on a live link moves the expected sequence
-- number just for the first two and leaves the link live.
pub receive-Receipt :
    (s : Ack) (h : ℕ) (p : Option (List ℕ)) (n sent sent_length : ℕ)
    → Receipt (verdict s h p n sent sent_length) s (receive s h p n sent sent_length)
unfolding verdict receive
receive-Receipt s h p n sent sent_length = ground (
  arith,
  bootstrap-Receipt s h (control_pdu h p n) (empty_pdu h n) sent sent_length,
  acknowledge-Receipt (taken_as (acknowledge s h) h (control_pdu h p n) (empty_pdu h n)) s h
      (take_data (acknowledge s h) h (control_pdu h p n) (empty_pdu h n))
      (take_data-Receipt (acknowledge s h) h (control_pdu h p n) (empty_pdu h n)),
)

-- New data is data whose number is expected.
taken_as_new :
    (s : Ack) (h : ℕ) (c e : Bool) → sn_bit h ≢ s.rx_nesn → taken_as s h c e ≡ Verdict.repeated
unfolding taken_as
taken_as_new s h c e ne = ground arith

acknowledge-rx : (s : Ack) (h : ℕ) → (acknowledge s h).rx_nesn ≡ s.rx_nesn
unfolding acknowledge
acknowledge-rx s h = ground arith

abbrev pub Fresh : Verdict → Type 0
Fresh Verdict.control = Unit
Fresh Verdict.idle = Unit
Fresh _ = ⊥

pub verdict-Fresh :
    (s : Ack) (h : ℕ) (p : Option (List ℕ)) (n sent sent_length : ℕ)
    → s.active ≡ true
    → sn_bit h ≢ s.rx_nesn
    → ¬ (Fresh (verdict s h p n sent sent_length))
unfolding verdict
verdict-Fresh s h p n sent sent_length live ne = ground (
  arith,
  acknowledge-rx s h,
  taken_as_new (acknowledge s h) h (control_pdu h p n) (empty_pdu h n),
)
