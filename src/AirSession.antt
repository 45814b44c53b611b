-- ===== src/AirSession.antt =====
-- The plan of an Air session and its clock: firmware/radio/src/air_session.h,
-- firmware/radio/src/air_session.c and firmware/radio/src/e0_request.h. A list is the bytes of an
-- array, `none` stands for NULL, and `given` is false where a destination is NULL.
pub mod Planned
pub mod Times
pub mod Layout
mod Examples
use open_ull_receiver.Base.{
  ℕ, zero, suc, ◌+◌, ◌-◌, ◌*◌, ◌/◌, ◌%◌, ◌^◌, bit_and, u8, u16, u32, ◌>>>◌, Bool, true, false, not,
  ◌&&◌, ◌||◌, Option, none, some, List, [], ◌∷◌, ◌++◌, length, same_bytes, get_or, set, take, drop,
  ltb, leb, ◌==◌, if◌then◌else◌,
}
use open_ull_receiver.Clock.{Time, clock_mask}

abbrev pub byte_at : List ℕ → ℕ → ℕ
byte_at p i = get_or p i 0

abbrev pub interval_us : ℕ
interval_us = 5000

abbrev pub subinterval_us : ℕ
subinterval_us = 1420

abbrev pub subevents : ℕ
subevents = 3

abbrev pub group_span_us : ℕ
group_span_us = subinterval_us * subevents

-- `struct ull_air_anchor`: the scheduled event of the control link.
pub record Anchor : Type 0 where
  pub hs : ℕ
  pub interval_hs : ℕ
  pub hus : ℕ
  pub event_counter : ℕ

-- `struct ull_air_session_seed`
pub record Seed : Type 0 where
  pub access_address : ℕ
  pub event_counter : ℕ
  pub channel_map : List ℕ
  pub receive_enabled : ℕ
  pub iv : List ℕ
  pub key : List ℕ

-- `struct ull_air_session_plan`; `start` is `start_hs` and `start_hus`.
pub record Plan : Type 0 where
  pub start : Time
  pub acl_instant : ℕ
  pub event_counter : ℕ
  pub access_address : ℕ
  pub offset_us : ℕ
  pub e2 : List ℕ

-- Little-endian reads and writes.
unfoldable pub get16 : List ℕ → ℕ
get16 p = byte_at p 0 + byte_at p 1 * 256

unfoldable pub put16 : ℕ → List ℕ
put16 v = u8 v ∷ u8 (v >>> 8) ∷ []

unfoldable pub put24 : ℕ → List ℕ
put24 v = put16 (u16 v) ++ (u8 (v >>> 16) ∷ [])

unfoldable pub put32 : ℕ → List ℕ
put32 v = put16 (u16 v) ++ put16 (u16 (v >>> 16))

-- The parameters of the proposal.
abbrev pub e0_parameters : List ℕ
e0_parameters =
    0xe0 ∷ 0x01 ∷ 0x01 ∷ 0x02 ∷ 0x01 ∷ 0x02 ∷ 0x02 ∷ 0x5f ∷ 0x10 ∷ 0x28 ∷ 0x00 ∷ 0x88 ∷ 0x13 ∷ 0x00
    ∷ 0x88 ∷ 0x13 ∷ 0x00 ∷ 0x5f ∷ 0x00 ∷ 0x28 ∷ 0x00 ∷ 0x03 ∷ 0x02 ∷ 0x8c ∷ 0x05 ∷ 0x00 ∷ 0x11
    ∷ 0x01 ∷ 0x01 ∷ 0x04 ∷ 0x00 ∷ 0xd0 ∷ 0x07 ∷ 0x00 ∷ 0xa0 ∷ 0x0f ∷ 0x00 ∷ []

-- Those that a proposal has to repeat: the second stream has no microphone.
unfoldable pub expected : List ℕ → List ℕ
expected proposal =
    if byte_at proposal 2 == 2
    then set (set (set (set e0_parameters 2 2) 9 0) 19 0) 26 1
    else e0_parameters

-- The channels among `left` from `i` on that the map uses.
unfoldable pub used_channels : ℕ → ℕ → List ℕ → ℕ
used_channels zero i map = 0
used_channels (suc left) i map =
    bit_and (byte_at map (i / 8) >>> (i % 8)) 1 + used_channels left (i + 1) map

-- The result of `plan_build`: -1, -2, or 0 with the plan.
pub data Planning : Type 0 where
  invalid untimely : Planning
  planned : Plan → Planning

-- The first test of `plan_build`.
unfoldable pub refused : List ℕ → List ℕ → Anchor → Seed → ℕ → Bool
refused proposal reply anchor seed offset_us =
    not (same_bytes 37 proposal (expected proposal))
    || not (byte_at reply 0 == 0xe1)
    || not (same_bytes 8 (drop 1 reply) (drop 31 proposal))
    || ltb clock_mask anchor.hs
    || ltb 624 anchor.hus
    || not (anchor.interval_hs == 96)
    || ltb 1 seed.receive_enabled
    || seed.access_address == 0
    || not (bit_and (byte_at seed.channel_map 4) 0xe0 == 0)
    || ltb offset_us 2000
    || ltb 4000 offset_us
    || byte_at proposal 2 == 2 && not (seed.receive_enabled == 0)

-- The 68 bytes of the E2 message, in order.
unfoldable pub e2_message : List ℕ → Seed → ℕ → ℕ → List ℕ
e2_message proposal seed instant offset_us =
    (0xe2 ∷ [])
    ++ (put32 seed.access_address
        ++ (put24 offset_us
            ++ (put24 group_span_us
                ++ (put24 group_span_us
                    ++ ((0 ∷ [])
                        ++ (put16 instant
                            ++ ((1 ∷ seed.receive_enabled ∷ [])
                                ++ (take 5 seed.channel_map
                                    ++ (put32 seed.event_counter
                                        ++ (put32 1026
                                            ++ (put32 (
                                                  1026
                                                  + (if byte_at proposal 2 == 2
                                                        || not (seed.receive_enabled == 0)
                                                      then 302
                                                      else 142))
                                                ++ (put32 0xffffffff
                                                    ++ (put32 0xffffffff
                                                        ++ (take 8 seed.iv
                                                            ++ take 16 seed.key))))))))))))))

-- The time of the first Air event, `ahead` events of the control link after the anchor.
unfoldable pub first_start : Anchor → ℕ → ℕ → Time
first_start anchor ahead offset_us =
    let fine = u32 (anchor.hus + u32 (offset_us * 2)) in
    record {
      hs = bit_and (u32 (anchor.hs + ahead * anchor.interval_hs + fine / 625)) clock_mask;
      hus = u16 (fine % 625);
    }

-- How many events ahead the instant is, on a counter of 16 bits.
abbrev pub ahead_of : ℕ → ℕ → ℕ
ahead_of instant counter = (instant + 2 ^ 16 - counter) % 2 ^ 16

unfoldable pub plan_build :
    Bool → Option (List ℕ) → Option (List ℕ) → Option Anchor → Option Seed → ℕ → Planning
plan_build true (some proposal) (some reply) (some anchor) (some seed) offset_us =
    let instant = get16 (drop 37 proposal) in
    let ahead = ahead_of instant anchor.event_counter in
    if refused proposal reply anchor seed offset_us
    then Planning.invalid
    else if ltb (used_channels 37 0 seed.channel_map) 2
    then Planning.invalid
    else if ltb ahead 2 || ltb 32 ahead
    then Planning.untimely
    else Planning.planned (record {
      start = first_start anchor ahead offset_us;
      acl_instant = instant;
      event_counter = seed.event_counter;
      access_address = seed.access_address;
      offset_us = offset_us;
      e2 = e2_message proposal seed instant offset_us;
    })
plan_build _ _ _ _ _ offset_us = Planning.invalid

-- The start of a subevent; `none` is -1.
unfoldable pub session_time : Option Plan → ℕ → ℕ → Bool → Option Time
session_time none index subevent given = none
session_time (some plan) index subevent given =
    if not given || leb subevents subevent || ltb clock_mask plan.start.hs || ltb 624 plan.start.hus
    then none
    else let fine = plan.start.hus + index * (interval_us * 2) + subevent * (subinterval_us * 2) in
      some (record {
        hs = u32 (bit_and (plan.start.hs + fine / 625) clock_mask);
        hus = u16 (fine % 625);
      })
