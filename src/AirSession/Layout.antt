-- ===== src/AirSession/Layout.antt =====
-- The bytes of the E2 message of firmware/radio/src/air_session.c, as the headset reads them.
use open_ull_receiver.Base.{
  ℕ, ◌+◌, ◌-◌, ◌*◌, ◌^◌, ◌<◌, ◌≡◌, refl, ◌∙◌, ap, List, ◌++◌, arith, drop, take, length,
  length-append, drop_over, take_over, take_whole, length-take_whole, if◌then◌else◌, ◌==◌, ◌||◌,
  not, Bool-cases, inl, inr,
}
use open_ull_receiver.AirSession.{Seed, e2_message, byte_at, get16, put16, put24, put32}

-- Little-endian numbers of three and four bytes.
pub get24 : List ℕ → ℕ
get24 p = byte_at p 0 + byte_at p 1 * 2 ^ 8 + byte_at p 2 * 2 ^ 16

pub get32 : List ℕ → ℕ
get32 p = byte_at p 0 + byte_at p 1 * 2 ^ 8 + byte_at p 2 * 2 ^ 16 + byte_at p 3 * 2 ^ 24

-- The sizes of the arrays of a seed, and the widths of its numbers.
pub record IsSeed (seed : Seed) : Type 0 where
  pub map_size : length seed.channel_map ≡ 5
  pub iv_size : length seed.iv ≡ 8
  pub key_size : length seed.key ≡ 16
  pub address_width : seed.access_address < 2 ^ 32
  pub counter_width : seed.event_counter < 2 ^ 32

-- The second reply slot, behind the first: 302 microseconds with audio in both directions or with the second
-- stream, and otherwise 142.
abbrev pub second_slot : List ℕ → Seed → ℕ
second_slot proposal seed =
    if byte_at proposal 2 == 2 then 302 else if seed.receive_enabled == 0 then 142 else 302

-- What a reader of the message finds, in all of its bytes.
pub record Reads (proposal : List ℕ) (seed : Seed) (instant offset_us : ℕ) (e2 : List ℕ)
    : Type 0 where
  pub size : length e2 ≡ 68
  pub code : byte_at e2 0 ≡ 0xe2
  pub address : get32 (drop 1 e2) ≡ seed.access_address
  pub offset : get24 (drop 5 e2) ≡ offset_us
  pub span : get24 (drop 8 e2) ≡ 4260
  pub span_again : get24 (drop 11 e2) ≡ 4260
  pub zero_byte : byte_at e2 14 ≡ 0
  pub acl_instant : get16 (drop 15 e2) ≡ instant
  pub one_byte : byte_at e2 17 ≡ 1
  pub receive : byte_at e2 18 ≡ seed.receive_enabled
  pub channel_map : take 5 (drop 19 e2) ≡ seed.channel_map
  pub counter : get32 (drop 24 e2) ≡ seed.event_counter
  pub first_reply : get32 (drop 28 e2) ≡ 1026
  pub second_reply : get32 (drop 32 e2) ≡ 1026 + second_slot proposal seed
  pub no_reply : get32 (drop 36 e2) ≡ 2 ^ 32 - 1
  pub no_reply_again : get32 (drop 40 e2) ≡ 2 ^ 32 - 1
  pub iv : take 8 (drop 44 e2) ≡ seed.iv
  pub key : take 16 (drop 52 e2) ≡ seed.key

-- The message from the event counter on.
abbrev rest : List ℕ → Seed → List ℕ
rest proposal seed =
    put32 seed.event_counter
    ++ (put32 1026
        ++ (put32 (
              1026
              + (if byte_at proposal 2 == 2 || not (seed.receive_enabled == 0) then 302 else 142))
            ++ (put32 0xffffffff ++ (put32 0xffffffff ++ (take 8 seed.iv ++ take 16 seed.key)))))

get32_slot :
    (proposal : List ℕ) (seed : Seed)
    → get32 (drop 8 (rest proposal seed)) ≡ 1026 + second_slot proposal seed
unfolding get32 put32 put16
get32_slot proposal seed = elim (Bool-cases (byte_at proposal 2 == 2)) [
  | inl e ↦ rw e refl
  | inr e ↦ elim (Bool-cases (seed.receive_enabled == 0)) [
    | inl r ↦ rw (e, r) refl
    | inr r ↦ rw (e, r) refl
  ]
]

module _ (proposal : List ℕ) (seed : Seed) (instant offset_us : ℕ) where
  -- What stands `m` bytes behind the channel map.
  e2_tail :
      (m k : ℕ)
      → length seed.channel_map ≡ 5
      → k ≡ 5 + m
      → drop k (take 5 seed.channel_map ++ rest proposal seed) ≡ drop m (rest proposal seed)
  e2_tail m k sized e =
      drop_over 5 m k (take 5 seed.channel_map) (rest proposal seed)
        (length-take_whole 5 seed.channel_map sized) e

  length-rest : length seed.iv ≡ 8 → length seed.key ≡ 16 → length (rest proposal seed) ≡ 44
  unfolding put16 put32
  length-rest iv key = omega (
    arith,
    length-append (take 8 seed.iv) (take 16 seed.key),
    length-take_whole 8 seed.iv iv,
    length-take_whole 16 seed.key key,
  )

  length-e2_message : IsSeed seed → length (e2_message proposal seed instant offset_us) ≡ 68
  unfolding e2_message put16 put24 put32
  length-e2_message s = omega (
    arith,
    length-append (take 5 seed.channel_map) (rest proposal seed),
    length-take_whole 5 seed.channel_map s.map_size,
    length-rest s.iv_size s.key_size,
  )

  -- For a seed with arrays of their sizes and numbers of their widths, an instant of 16 bits and an offset of 24,
  -- the E2 message has 68 bytes, and each of them is read back: in little-endian order the code 0xe2, the access
  -- address, the offset, the group span of 4260 microseconds twice, a 0, the instant, a 1, the receive flag,
  -- the channel map, the event counter, the first reply slot at 1026, the second 302 behind it for the second stream
  -- or with a return direction and 142 otherwise, two words of ones, the IV and the key.
  pub e2_message-Reads :
      IsSeed seed
      → instant < 2 ^ 16
      → offset_us < 2 ^ 24
      → Reads proposal seed instant offset_us (e2_message proposal seed instant offset_us)
  unfolding e2_message put16 put24 put32 get16 get24 get32
  e2_message-Reads s i o = record {
    size = length-e2_message s;
    code = refl;
    address = omega (arith, s.address_width);
    offset = omega arith;
    span = refl;
    span_again = refl;
    zero_byte = refl;
    acl_instant = omega arith;
    one_byte = refl;
    receive = refl;
    channel_map =
        take_over 5 (take 5 seed.channel_map) (rest proposal seed)
          (length-take_whole 5 seed.channel_map s.map_size)
        ∙ take_whole 5 seed.channel_map s.map_size;
    counter = ap get32 (e2_tail 0 5 s.map_size refl) ∙ omega (arith, s.counter_width);
    first_reply = ap get32 (e2_tail 4 9 s.map_size refl);
    second_reply = ap get32 (e2_tail 8 13 s.map_size refl) ∙ get32_slot proposal seed;
    no_reply = ap get32 (e2_tail 12 17 s.map_size refl);
    no_reply_again = ap get32 (e2_tail 16 21 s.map_size refl);
    iv =
        ap (take 8) (e2_tail 20 25 s.map_size refl)
        ∙ take_over 8 (take 8 seed.iv) (take 16 seed.key) (length-take_whole 8 seed.iv s.iv_size)
        ∙ take_whole 8 seed.iv s.iv_size;
    key =
        ap (take 16) (
          e2_tail 28 33 s.map_size refl
          ∙ drop_over 8 0 8 (take 8 seed.iv) (take 16 seed.key)
              (length-take_whole 8 seed.iv s.iv_size) refl)
        ∙ ap (take 16) (take_whole 16 seed.key s.key_size)
        ∙ take_whole 16 seed.key s.key_size;
  }
