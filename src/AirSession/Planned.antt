-- ===== src/AirSession/Planned.antt =====
-- What `ull_air_session_plan_build` of firmware/radio/src/air_session.c accepts, and the time that it
-- plans.
use open_ull_receiver.Base.{
  same_bytes, ℕ, ◌+◌, ◌*◌, ◌/◌, ◌%◌, ◌≤◌, ◌^◌, ◌≡◌, ◌≢◌, refl, ◌↔◌, true, some, List, arith,
  bit_and, drop, false,
}
use open_ull_receiver.Base.Bits.{bit_and_ones}
use open_ull_receiver.Clock.{clock_mask, half_us, circle, IsTime}
use open_ull_receiver.AirSession.{
  Plan, Anchor, Seed, Planning, plan_build, refused, used_channels, first_start, get16, ahead_of,
  byte_at, expected, e2_message,
}

-- The first Air event: `ahead` intervals of the control link of 30 ms after the anchor, and the
-- negotiated offset later.
first_start_lem :
    (anchor : Anchor) (ahead offset_us : ℕ)
    → anchor.hs ≤ clock_mask
    → anchor.hus ≤ 624
    → anchor.interval_hs ≡ 96
    → ahead ≤ 32
    → offset_us ≤ 4000
    → let t = first_start anchor ahead offset_us in
      IsTime t
      × (half_us t ≡ (anchor.hs * 625 + anchor.hus + ahead * 60000 + 2 * offset_us) % circle)
unfolding first_start
first_start_lem anchor ahead offset_us a b c d e =
    let fine = (anchor.hus + offset_us * 2 % 2 ^ 32) % 2 ^ 32 in
    ground (arith, bit_and_ones 28 ((anchor.hs + ahead * anchor.interval_hs + fine / 625) % 2 ^ 32))

-- The tests that the first `if` of the code passes.
pub record Fits (proposal reply : List ℕ) (anchor : Anchor) (seed : Seed) (offset_us : ℕ)
    : Type 0 where
  pub parameters : same_bytes 37 proposal (expected proposal) ≡ true
  pub reply_code : byte_at reply 0 ≡ 0xe1
  pub window : same_bytes 8 (drop 1 reply) (drop 31 proposal) ≡ true
  pub coarse : anchor.hs ≤ clock_mask
  pub fine : anchor.hus ≤ 624
  pub interval : anchor.interval_hs ≡ 96
  pub flag : seed.receive_enabled ≤ 1
  pub address : seed.access_address ≢ 0
  pub map_top : bit_and (byte_at seed.channel_map 4) 0xe0 ≡ 0
  pub offset_low : 2000 ≤ offset_us
  pub offset_high : offset_us ≤ 4000
  pub second_stream : byte_at proposal 2 ≡ 2 → seed.receive_enabled ≡ 0

module _ (proposal reply : List ℕ) (anchor : Anchor) (seed : Seed) (offset_us : ℕ) where
  Fits-refused :
      (refused proposal reply anchor seed offset_us ≡ false)
      ↔ Fits proposal reply anchor seed offset_us
  unfolding refused
  Fits-refused = (λ h. ground arith, λ f. ground arith)

-- How many events ahead of the anchor the instant of the proposal is.
abbrev pub lead_events : List ℕ → Anchor → ℕ
lead_events proposal anchor = ahead_of (get16 (drop 37 proposal)) anchor.event_counter

-- All that a plan requires.
pub record Plannable (proposal reply : List ℕ) (anchor : Anchor) (seed : Seed) (offset_us : ℕ)
    : Type 0 where
  pub fits : Fits proposal reply anchor seed offset_us
  pub channels : 2 ≤ used_channels 37 0 seed.channel_map
  pub soon : 2 ≤ lead_events proposal anchor
  pub not_late : lead_events proposal anchor ≤ 32

-- What a plan says, apart from the bytes of its message.
pub record Plans (proposal : List ℕ) (anchor : Anchor) (seed : Seed) (offset_us : ℕ) (p : Plan)
    : Type 0 where
  pub time : IsTime p.start
  pub start :
      half_us p.start
      ≡ (anchor.hs * 625 + anchor.hus + lead_events proposal anchor * 60000 + 2 * offset_us)
        % circle
  pub instant : p.acl_instant ≡ get16 (drop 37 proposal)
  pub counter : p.event_counter ≡ seed.event_counter
  pub address : p.access_address ≡ seed.access_address
  pub offset : p.offset_us ≡ offset_us
  pub message : p.e2 ≡ e2_message proposal seed (get16 (drop 37 proposal)) offset_us

module _ (proposal reply : List ℕ) (anchor : Anchor) (seed : Seed) (offset_us : ℕ) where
  -- The plan that the code fills in.
  filled : Plan
  filled = record {
    start = first_start anchor (lead_events proposal anchor) offset_us;
    acl_instant = get16 (drop 37 proposal);
    event_counter = seed.event_counter;
    access_address = seed.access_address;
    offset_us = offset_us;
    e2 = e2_message proposal seed (get16 (drop 37 proposal)) offset_us;
  }

  planned-Plannable :
      (p : Plan)
      → plan_build true (some proposal) (some reply) (some anchor) (some seed) offset_us
        ≡ Planning.planned p
      → (refused proposal reply anchor seed offset_us ≡ false)
        × (2 ≤ used_channels 37 0 seed.channel_map)
        × (2 ≤ lead_events proposal anchor)
        × (lead_events proposal anchor ≤ 32)
        × (p ≡ filled)
  unfolding plan_build filled
  planned-Plannable p h = ground arith

  filled-Plans :
      Plannable proposal reply anchor seed offset_us → Plans proposal anchor seed offset_us filled
  unfolding filled
  filled-Plans a =
      let f = a.fits in
      let t =
        first_start_lem anchor (lead_events proposal anchor) offset_us f.coarse f.fine f.interval
          a.not_late f.offset_high in
      record {
        time = t.0;
        start = t.1;
        instant = refl;
        counter = refl;
        address = refl;
        offset = refl;
        message = refl;
      }

  plan_build-filled :
      Plannable proposal reply anchor seed offset_us
      → plan_build true (some proposal) (some reply) (some anchor) (some seed) offset_us
        ≡ Planning.planned filled
  unfolding plan_build filled
  plan_build-filled a = ground (arith, (Fits-refused proposal reply anchor seed offset_us).1 a.fits)

  -- The function plans a session exactly when the proposal and the reply match the profile and one
  -- another, anchor, seed and offset are in range, the map has two channels and the instant is 2
  -- to 32 events ahead; and the plan starts the Air events that many intervals of 30 ms and the
  -- offset after the anchor, modulo the clock, at a time of the clock.
  pub plan_build_planned :
      ((p : Plan)
        → plan_build true (some proposal) (some reply) (some anchor) (some seed) offset_us
          ≡ Planning.planned p
        → Plannable proposal reply anchor seed offset_us × Plans proposal anchor seed offset_us p)
      × (Plannable proposal reply anchor seed offset_us
          → (p : Plan) × (plan_build true
                (some proposal)
                (some reply)
                (some anchor)
                (some seed)
                offset_us
              ≡ Planning.planned p))
  plan_build_planned = (
    λ p h.
        let (fine, channels, soon, not_late, e) = planned-Plannable p h in
        let a : Plannable proposal reply anchor seed offset_us = record {
          fits = (Fits-refused proposal reply anchor seed offset_us).0 fine;
          channels = channels;
          soon = soon;
          not_late = not_late;
        } in
        (a, rw e (filled-Plans a)),
    λ a. (filled, plan_build-filled a),
  )
