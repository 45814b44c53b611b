-- ===== src/Ccm/Examples.antt =====
-- Runs of the model of the encryption of firmware/radio/src/tone_packet.c, with the
-- toy cipher in the place of mbed TLS.
use open_ull_receiver.Base.{ℕ, ◌≡◌, refl, true, some, List, [], ◌∷◌, length, reversed, arith}
use open_ull_receiver.Ccm.{
  Session, ccm_session_key, ccm_encrypt, ccm_decrypt, ccm_reset, Sealing, nonce, renew,
}
use open_ull_receiver.Ccm.Toy.{tag, toy, toy-Opens}
use open_ull_receiver.Ccm.Nonce.{nonce_injective}
use open_ull_receiver.Ccm.Cache.{IsCoherent}
use open_ull_receiver.Ccm.Sealed.{ccm_decrypt-ccm_encrypt}

abbrev key : List ℕ
key = 1 ∷ 2 ∷ 3 ∷ 4 ∷ 5 ∷ 6 ∷ 7 ∷ 8 ∷ 9 ∷ 10 ∷ 11 ∷ 12 ∷ 13 ∷ 14 ∷ 15 ∷ 16 ∷ []

abbrev iv : List ℕ
iv = 1 ∷ 2 ∷ 3 ∷ 4 ∷ 5 ∷ 6 ∷ 7 ∷ 8 ∷ []

reset-IsCoherent : IsCoherent toy ccm_reset
reset-IsCoherent = record { key_size = refl; cached = λ c h. absurd (ground arith) }

-- A session that has the key cached.
abbrev warm : Session (List ℕ)
warm = record { ccm = some (reversed key); key_le = key }

warm-IsCoherent : IsCoherent toy warm
unfolding toy
warm-IsCoherent = record { key_size = refl; cached = λ c h. h }

packet_sealed :
    (ccm_encrypt toy ccm_reset true key iv 0 1 3 (42 ∷ []) 240).1
    ≡ Sealing.sealed (42 ∷ 16 ∷ 16 ∷ 16 ∷ 16 ∷ [])
unfolding ccm_encrypt ccm_session_key renew reversed toy tag
packet_sealed = refl

ccm_decrypt-ccm_encrypt_example :
    (ccm_decrypt toy warm true key iv 0 1 3 (42 ∷ 16 ∷ 16 ∷ 16 ∷ 16 ∷ []) 64).1
    ≡ Sealing.sealed (42 ∷ [])
ccm_decrypt-ccm_encrypt_example =
    ccm_decrypt-ccm_encrypt toy ccm_reset warm key iv (42 ∷ []) (42 ∷ 16 ∷ 16 ∷ 16 ∷ 16 ∷ []) 0 1 3
      240 64 toy-Opens reset-IsCoherent warm-IsCoherent refl (omega arith) packet_sealed

abbrev five : ℕ
five = 5

abbrev one : ℕ
one = 1

nonce_injective_example :
    (five ≡ five) × (one ≡ one) × (iv ≡ iv) × (length (nonce five one iv) ≡ 13)
nonce_injective_example =
    nonce_injective five five one one iv iv (omega arith) (omega arith) (omega arith) (omega arith)
      refl refl refl
