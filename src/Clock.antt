-- ===== src/Clock.antt =====
-- The controller's clock: 28 bits of coarse ticks of 312.5 microseconds, and half microseconds
-- within a tick. The radio sources pass the two as separate numbers: `start_hs` and `start_hus` in
-- firmware/radio/src/air_session.h, `hs` and `hus` in firmware/radio/src/phy_packet.h.
use open_ull_receiver.Base.{ℕ, ◌+◌, ◌*◌, ◌^◌, ◌≤◌}

pub record Time : Type 0 where
  pub hs : ℕ
  pub hus : ℕ

-- CLOCK_MASK
abbrev pub clock_mask : ℕ
clock_mask = 0x0fffffff

-- A time in half microseconds, and how many make the clock go round.
abbrev pub half_us : Time → ℕ
half_us t = t.hs * 625 + t.hus

abbrev pub circle : ℕ
circle = 2 ^ 28 * 625

pub record IsTime (t : Time) : Type 0 where
  pub coarse : t.hs ≤ clock_mask
  pub fine : t.hus ≤ 624
