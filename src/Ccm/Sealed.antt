-- ===== src/Ccm/Sealed.antt =====
-- That `ull_ble_ccm_decrypt` of firmware/radio/src/tone_packet.c opens what `ull_ble_ccm_encrypt`
-- seals.
use open_ull_receiver.Base.{
  ℕ, ◌+◌, ◌-◌, ◌≤◌, ◌≡◌, sym, ap, ◌∙◌, true, false, some, List, length, take, drop, reversed, arith,
  Option-cases, inl, inr,
}
use open_ull_receiver.Ccm.{
  Mbedtls, Session, ccm_session_key, ccm_encrypt, ccm_decrypt, Sealing, cannot_seal, cannot_open,
  nonce, sealing,
}
use open_ull_receiver.Ccm.Cache.{IsCoherent, session_key_lem}

-- What mbed TLS documents: the sealed bytes are those of the payload and a tag of four bytes, and
-- opening them under the same context, nonce and additional byte gives the payload.
pub record Opens {Context : Type 0} (lib : Mbedtls Context) : Type 0 where
  pub tagged :
      (c : Context) (n : List ℕ) (aad : ℕ) (p q : List ℕ)
      → lib.encrypt_and_tag c n aad p ≡ some q
      → length q ≡ length p + 4
  pub opened :
      (c : Context) (n : List ℕ) (aad : ℕ) (p q : List ℕ)
      → lib.encrypt_and_tag c n aad p ≡ some q
      → lib.auth_decrypt c n aad (take (length p) q) (drop (length p) q) ≡ some p

module _ {Context : Type 0} (lib : Mbedtls Context) where
  -- The context behind a sealed packet.
  pub sealed_facts :
      (s : Session Context) (key iv payload bytes : List ℕ) (counter direction aad capacity : ℕ)
      → IsCoherent lib s
      → length key ≡ 16
      → (ccm_encrypt lib s true key iv counter direction aad payload capacity).1
        ≡ Sealing.sealed bytes
      → (c : Context) × (lib.setkey (reversed key) ≡ some c)
        × (lib.encrypt_and_tag c (nonce counter direction iv) aad payload ≡ some bytes)
        × (cannot_seal true counter direction (length payload) capacity ≡ false)
  unfolding ccm_encrypt
  sealed_facts s key iv payload bytes counter direction aad capacity i l h =
      elim (Option-cases ((ccm_session_key lib s key).1)) [
        | inl e ↦ absurd (ground arith)
        | inr (c, e) ↦
            elim (Option-cases (lib.encrypt_and_tag c (nonce counter direction iv) aad payload)) [
              | inl e' ↦ absurd (ground arith)
              | inr (q, e') ↦
                  (c, sym ((session_key_lem lib s key i l).0) ∙ e, ground arith, ground arith)
            ]
      ]

  -- A packet sealed in one session opens, in any other with the same key, counter, direction and
  -- additional byte, to the same payload, where the output has room for it.
  pub ccm_decrypt-ccm_encrypt :
      (s t : Session Context) (key iv payload bytes : List ℕ)
      (counter direction aad capacity room : ℕ)
      → Opens lib
      → IsCoherent lib s
      → IsCoherent lib t
      → length key ≡ 16
      → length payload ≤ room
      → (ccm_encrypt lib s true key iv counter direction aad payload capacity).1
        ≡ Sealing.sealed bytes
      → (ccm_decrypt lib t true key iv counter direction aad bytes room).1 ≡ Sealing.sealed payload
  unfolding ccm_decrypt
  ccm_decrypt-ccm_encrypt s t key iv payload bytes counter direction aad capacity room o i j l r h =
      let (c, found, done, fits) =
        sealed_facts s key iv payload bytes counter direction aad capacity i l h in
      let size = o.tagged c (nonce counter direction iv) aad payload bytes done in
      let plain : length bytes - 4 ≡ length payload = omega arith in
      let ctx = (session_key_lem lib t key j l).0 ∙ found in
      let may : cannot_open true counter direction (length bytes) room ≡ false = ground arith in
      rw may (
        rw ctx
          (rw plain (ap sealing (o.opened c (nonce counter direction iv) aad payload bytes done))))
