-- ===== src/AirSession/Times.antt =====
-- `ull_air_session_time` of firmware/radio/src/air_session.c: the grid of subevents on the clock.
use open_ull_receiver.Base.{ℕ, ◌+◌, ◌*◌, ◌/◌, ◌%◌, ◌≡◌, true, some, arith}
use open_ull_receiver.Base.Bits.{bit_and_ones}
use open_ull_receiver.Clock.{Time, half_us, circle, IsTime}
use open_ull_receiver.AirSession.{Plan, session_time, interval_us, subinterval_us}

-- Event `index` starts `index` intervals of 5 ms after the session, and its subevent a multiple of
-- 1.42 ms later, exactly and without accumulated rounding, on a clock that wraps at 2 ^ 28 ticks;
-- the result is a time of that clock.
pub session_time_lem :
    (plan : Plan) (index subevent : ℕ) (t : Time)
    → session_time (some plan) index subevent true ≡ some t
    → IsTime t
      × (half_us t
          ≡ (half_us plan.start + 2 * (index * interval_us + subevent * subinterval_us)) % circle)
unfolding session_time
session_time_lem plan index subevent t h = ground (
  arith,
  bit_and_ones 28 (
      plan.start.hs
      + (plan.start.hus + index * (interval_us * 2) + subevent * (subinterval_us * 2)) / 625),
)
