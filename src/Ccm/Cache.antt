-- ===== src/Ccm/Cache.antt =====
-- The cached context of firmware/radio/src/tone_packet.c, and what comes out of a sealed packet.
use open_ull_receiver.Base.{
  ℕ, ◌-◌, ◌≡◌, refl, sym, ap, ◌∙◌, Bool, true, false, Option, none, some, List, length, take, drop,
  same_bytes, reversed, same_bytes_equal, take_whole, arith, Bool-cases, if◌then◌else◌, inl, inr,
}
use open_ull_receiver.Ccm.{
  Mbedtls, Session, reuse, renewed, ccm_session_key, renew, ccm_reset, ccm_encrypt, ccm_decrypt,
  Sealing, with_context, cannot_seal, cannot_open, nonce,
}

module _ {Context : Type 0} (lib : Mbedtls Context) where
  -- A cached context is that of the key beside it.
  pub record IsCoherent (s : Session Context) : Type 0 where
    pub key_size : length s.key_le ≡ 16
    pub cached : (c : Context) → s.ccm ≡ some c → lib.setkey (reversed s.key_le) ≡ some c

  ccm_reset-IsCoherent : IsCoherent ccm_reset
  ccm_reset-IsCoherent = record { key_size = refl; cached = λ c h. absurd (ground arith) }

  renewed_lem :
      (o : Option Context) (key : List ℕ)
      → lib.setkey (reversed key) ≡ o
      → length key ≡ 16
      → ((renewed o key).1 ≡ o) × IsCoherent ((renewed o key).0)
  renewed_lem none key h l = (refl, ccm_reset-IsCoherent)
  renewed_lem (some c) key h l = (refl, record { key_size = l; cached = λ c' e. h ∙ e })

  renew_lem :
      (key : List ℕ)
      → length key ≡ 16
      → ((renew lib key).1 ≡ lib.setkey (reversed key)) × IsCoherent ((renew lib key).0)
  unfolding renew
  renew_lem key l = rw (take_whole 16 key l) (renewed_lem (lib.setkey (reversed key)) key refl l)

  reuse_lem :
      (s : Session Context) (o : Option Context) (key : List ℕ)
      → s.ccm ≡ o
      → IsCoherent s
      → length key ≡ 16
      → ((reuse lib s o key).1 ≡ lib.setkey (reversed key)) × IsCoherent ((reuse lib s o key).0)
  reuse_lem s none key e i l = renew_lem key l
  reuse_lem s (some c) key e i l = elim (Bool-cases (same_bytes 16 s.key_le key)) [
    | inl same ↦ rw same (
      sym (i.cached c e)
          ∙ ap (λ (k : List ℕ). lib.setkey (reversed k))
              (same_bytes_equal 16 s.key_le key i.key_size l same),
      i,
    )
    | inr other ↦ rw other (renew_lem key l)
  ]

  pub session_key_lem :
      (s : Session Context) (key : List ℕ)
      → IsCoherent s
      → length key ≡ 16
      → ((ccm_session_key lib s key).1 ≡ lib.setkey (reversed key))
        × IsCoherent ((ccm_session_key lib s key).0)
  unfolding ccm_session_key
  session_key_lem s key i l = reuse_lem s s.ccm key refl i l

  -- The first test, and the work behind it.
  guarded :
      (refused : Bool) (s s' r r' : Session Context) (o o' : Sealing)
      → IsCoherent s
      → IsCoherent r
      → o ≡ o'
      → let f : Session Context × Sealing = if refused then (s, Sealing.refused) else (r, o) in
        let g : Session Context × Sealing = if refused then (s', Sealing.refused) else (r', o') in
        (f.1 ≡ g.1) × IsCoherent (f.0)
  guarded true s s' r r' o o' i j e = (refl, i)
  guarded false s s' r r' o o' i j e = (e, j)

  -- The cache is invisible: from a coherent session both operations give what they give with no
  -- cached context, and leave a coherent session.
  pub ccm_encrypt_cached :
      (s : Session Context) (given : Bool) (key iv payload : List ℕ)
      (counter direction aad capacity : ℕ)
      → IsCoherent s
      → length key ≡ 16
      → ((ccm_encrypt lib s given key iv counter direction aad payload capacity).1
          ≡ (ccm_encrypt lib ccm_reset given key iv counter direction aad payload capacity).1)
        × ((ccm_decrypt lib s given key iv counter direction aad payload capacity).1
            ≡ (ccm_decrypt lib ccm_reset given key iv counter direction aad payload capacity).1)
        × IsCoherent ((ccm_encrypt lib s given key iv counter direction aad payload capacity).0)
        × IsCoherent ((ccm_decrypt lib s given key iv counter direction aad payload capacity).0)
  unfolding ccm_encrypt ccm_decrypt
  ccm_encrypt_cached s given key iv payload counter direction aad capacity i l =
      let here = session_key_lem s key i l in
      let fresh = session_key_lem ccm_reset key ccm_reset-IsCoherent l in
      let same = here.0 ∙ sym (fresh.0) in
      let plain = length payload - 4 in
      let seal : Context → Option (List ℕ) =
        λ c. lib.encrypt_and_tag c (nonce counter direction iv) aad payload in
      let open_ : Context → Option (List ℕ) = λ c.
        lib.auth_decrypt c (nonce counter direction iv) aad (take plain payload)
          (drop plain payload) in
      let use_ : (Context → Option (List ℕ)) → Option Context → Sealing = λ f o. with_context o f in
      let sealed =
        guarded (cannot_seal given counter direction (length payload) capacity) s ccm_reset
          ((ccm_session_key lib s key).0) ((ccm_session_key lib ccm_reset key).0)
          (use_ seal ((ccm_session_key lib s key).1))
          (use_ seal ((ccm_session_key lib ccm_reset key).1)) i (here.1) (ap (use_ seal) same) in
      let opened =
        guarded (cannot_open given counter direction (length payload) capacity) s ccm_reset
          ((ccm_session_key lib s key).0) ((ccm_session_key lib ccm_reset key).0)
          (use_ open_ ((ccm_session_key lib s key).1))
          (use_ open_ ((ccm_session_key lib ccm_reset key).1)) i (here.1) (ap (use_ open_) same) in
      (sealed.0, opened.0, sealed.1, opened.1)
