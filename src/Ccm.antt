-- ===== src/Ccm.antt =====
-- The encryption of Air packets: firmware/radio/src/tone_packet.c, with the CCM context that it
-- keeps. The operations of mbed TLS are a parameter; a list is a pointer with its length, and
-- `given` is false where one of the pointers is NULL.
pub mod Nonce
pub mod Toy
mod Examples
pub mod Cache
pub mod Sealed
use open_ull_receiver.Base.{
  ℕ, ◌+◌, ◌-◌, ◌^◌, bit_or, u8, ◌<<<◌, ◌>>>◌, Bool, true, false, not, ◌&&◌, ◌||◌, Option, none,
  some, List, [], ◌∷◌, ◌++◌, length, same_bytes, reversed, take, drop, replicate, ltb, leb, ◌==◌,
  if◌then◌else◌,
}

-- What the code uses of mbed TLS: a context from a key of 128 bits, most significant byte first;
-- the sealed bytes with a tag of four bytes; and the plain bytes of a valid packet. Each may fail.
pub record Mbedtls (Context : Type 0) : Type 0 where
  pub setkey : List ℕ → Option Context
  pub encrypt_and_tag : Context → List ℕ → ℕ → List ℕ → Option (List ℕ)
  pub auth_decrypt : Context → List ℕ → ℕ → List ℕ → List ℕ → Option (List ℕ)

-- The static variables: `session_ccm`, which is there while `session_ccm_ready`, and its key.
pub record Session (Context : Type 0) : Type 0 where
  pub ccm : Option Context
  pub key_le : List ℕ

abbrev pub ccm_reset : {Context : Type 0} → Session Context
ccm_reset = record { ccm = none; key_le = replicate 16 0 }

-- A new context in place of the old, or none where `setkey` failed.
abbrev pub renewed : {Context : Type 0} → Option Context → List ℕ → Session Context × Option Context
renewed none key = (ccm_reset, none)
renewed (some c) key = (record { ccm = some c; key_le = key }, some c)

unfoldable pub renew :
    {Context : Type 0} → Mbedtls Context → List ℕ → Session Context × Option Context
renew lib key = renewed (lib.setkey (reversed (take 16 key))) (take 16 key)

-- The session afterwards, and its context unless `setkey` failed.
abbrev pub reuse :
    {Context : Type 0}
    → Mbedtls Context
    → Session Context
    → Option Context
    → List ℕ
    → Session Context × Option Context
reuse lib s none key = renew lib key
reuse lib s (some c) key = if same_bytes 16 s.key_le key then (s, some c) else renew lib key

unfoldable pub ccm_session_key :
    {Context : Type 0}
    → Mbedtls Context
    → Session Context
    → List ℕ
    → Session Context × Option Context
ccm_session_key lib s key = reuse lib s s.ccm key

-- The 13 bytes of a nonce: 39 bits of the counter, the direction, and the IV.
unfoldable pub nonce : ℕ → ℕ → List ℕ → List ℕ
nonce counter direction iv =
    u8 counter
    ∷ u8 (counter >>> 8)
    ∷ u8 (counter >>> 16)
    ∷ u8 (counter >>> 24)
    ∷ u8 (bit_or (u8 (counter >>> 32)) (direction <<< 7))
    ∷ take 8 iv

-- -1, -2, or 0 with the bytes at `out`.
pub data Sealing : Type 0 where
  refused failed : Sealing
  sealed : List ℕ → Sealing

abbrev pub sealing : Option (List ℕ) → Sealing
sealing none = Sealing.failed
sealing (some bytes) = Sealing.sealed bytes

-- The first tests of both operations, on the length of the payload.
abbrev pub cannot_seal : Bool → ℕ → ℕ → ℕ → ℕ → Bool
cannot_seal given counter direction size capacity =
    not given
    || size == 0
    || ltb 240 size
    || ltb capacity (size + 4)
    || leb (2 ^ 39) counter
    || ltb 1 direction

abbrev pub cannot_open : Bool → ℕ → ℕ → ℕ → ℕ → Bool
cannot_open given counter direction size capacity =
    not given
    || ltb size 5
    || ltb 244 size
    || ltb capacity (size - 4)
    || leb (2 ^ 39) counter
    || ltb 1 direction

abbrev pub with_context :
    {Context : Type 0} → Option Context → (Context → Option (List ℕ)) → Sealing
with_context none f = Sealing.failed
with_context (some c) f = sealing (f c)

unfoldable pub ccm_encrypt :
    {Context : Type 0}
    → Mbedtls Context
    → Session Context
    → Bool
    → List ℕ
    → List ℕ
    → ℕ
    → ℕ
    → ℕ
    → List ℕ
    → ℕ
    → Session Context × Sealing
ccm_encrypt lib s given key iv counter direction aad payload capacity =
    if cannot_seal given counter direction (length payload) capacity
    then (s, Sealing.refused)
    else let after = ccm_session_key lib s key in
      (
        after.0,
        with_context (after.1)
            (λ c. lib.encrypt_and_tag c (nonce counter direction iv) aad payload),
      )

unfoldable pub ccm_decrypt :
    {Context : Type 0}
    → Mbedtls Context
    → Session Context
    → Bool
    → List ℕ
    → List ℕ
    → ℕ
    → ℕ
    → ℕ
    → List ℕ
    → ℕ
    → Session Context × Sealing
ccm_decrypt lib s given key iv counter direction aad payload capacity =
    let plain = length payload - 4 in
    if cannot_open given counter direction (length payload) capacity
    then (s, Sealing.refused)
    else let after = ccm_session_key lib s key in
      (
        after.0,
        with_context (after.1) (λ c.
            lib.auth_decrypt c (nonce counter direction iv) aad (take plain payload)
              (drop plain payload)),
      )
