-- ===== src/AutoLink/Delivered.antt =====
-- Whole messages of firmware/radio/src/auto_link.c, from `send_acl` of one side to `process` of the other.
use mathlib.Core.List.{append_assoc, append-nil}
use open_ull_receiver.Base.{
  ℕ, zero, suc, ◌+◌, ◌^◌, ◌≤◌, ◌<◌, ◌≡◌, ◌⊎◌, inl, inr, refl, sym, ap, ◌∙◌, min, u8, ◌>>>◌, Bool,
  true, false, ◌||◌, none, some, List, [], ◌∷◌, ◌++◌, length, take, drop, ltb, ◌==◌, arith,
  length-append, length-take, take-append-drop,
}
use open_ull_receiver.AirSession.{put16}
use open_ull_receiver.AutoLink.Peer.{Peer, Link, no_handle, send_packet, sent_or_not}
use open_ull_receiver.AutoLink.Acl.{
  acl_packet, send_parts, l2cap_message, send_acl, acl_append, process_acl,
}
use open_ull_receiver.AutoLink.Reassembled.{
  process_all, HasFront, assembled_at, process_first, process_next, packet_head, grown,
  grown-HasFront, append_more, append_last, length-l2cap,
}

abbrev Attempt : Link → List ℕ → Link × Bool → Type 0
Attempt l p r =
    (r.1 ≡ false) ⊎ ((r.1 ≡ true) × (r.0.sent ≡ l.sent ++ (p ∷ [])) × (r.0.peer ≡ l.peer))

sent_or_not-Attempt :
    (l : Link) (p : List ℕ) (answers : List Bool) → Attempt l p (sent_or_not l p answers)
unfolding sent_or_not
sent_or_not-Attempt l p [] = inl refl
sent_or_not-Attempt l p (true ∷ rest) = inr (refl, refl, refl)
sent_or_not-Attempt l p (false ∷ rest) = inl refl

send_packet-Attempt : (l : Link) (p : List ℕ) → Attempt l p (send_packet l p)
unfolding send_packet
send_packet-Attempt l p = sent_or_not-Attempt l p l.accepts

send_parts_nil : (fuel : ℕ) (l : Link) (first : Bool) → send_parts fuel l first [] ≡ (l, true)
unfolding send_parts
send_parts_nil zero l first = refl
send_parts_nil (suc fuel) l first = refl

module _ (h cid : ℕ) (payload : List ℕ) (lt : h < 4096) (small : length payload ≤ 296)
    (short : cid < 2 ^ 16) where
  -- The peer has received `front` of the message; the first packet begins it.
  abbrev Awaits : Bool → List ℕ → Peer → Type 0
  Awaits first front s =
      HasFront h front (assembled_at (length front) s)
      × ((first ≡ true × (front ≡ []))
          ⊎ ((first ≡ false) × (s.assembled ≡ length front) × (0 < length front)))

  process_packet :
      (s : Peer) (first : Bool) (front part : List ℕ)
      → Awaits first front s
      → length part < 2 ^ 16
      → process_acl s (acl_packet h first part)
        ≡ acl_append (assembled_at (length front) s) (acl_packet h first part) (5 + length part)
  process_packet s first front part (v, inl (f, e)) few =
      rw (f, e) (process_first s h part lt few v.mine)
  process_packet s first front part (v, inr (f, e, some_front)) few =
      rw (f, ← e) (process_next s h part lt few v.mine (omega arith))

  module _ (s : Peer) (first : Bool) (front part : List ℕ) (w : Awaits first front s)
      (few : length part ≤ 300) where
    abbrev packet : List ℕ
    packet = acl_packet h first part

    small_part : length part < 2 ^ 16
    small_part = omega arith

    body_part : drop 5 packet ≡ part
    body_part = (packet_head h first part lt small_part).3

    abbrev grown_peer : Peer
    grown_peer =
        grown h cid payload front part (assembled_at (length front) s) (w.0) refl packet body_part

    last_part :
        front ++ part ≡ l2cap_message cid payload
        → process_acl s packet ≡ (record grown_peer { assembled = 0 }, some (cid, payload))
    last_part e =
        process_packet s first front part w small_part
        ∙ append_last h cid payload front part (assembled_at (length front) s) (w.0) refl packet
            body_part (omega arith) short e

    more_part :
        (ys : List ℕ)
        → 0 < length part
        → 0 < length ys
        → (front ++ part) ++ ys ≡ l2cap_message cid payload
        → (process_acl s packet ≡ (grown_peer, none)) × Awaits false (front ++ part) grown_peer
    more_part ys some_part more e =
        let size = length-append front part in
        let whole = ap (λ (l : List ℕ). length l) e in
        let fits : length front + length part ≤ 4096 =
          omega (arith, whole, size, length-append (front ++ part) ys, length-l2cap cid payload) in
        let g =
          grown-HasFront h cid payload front part (assembled_at (length front) s) (w.0) refl packet
            body_part fits in
        (
          process_packet s first front part w small_part
              ∙ append_more h cid payload front part (assembled_at (length front) s) (w.0) refl
                  packet body_part ys (omega arith) e more,
          (
            record { tail = g.tail; shape = g.shape; room = g.room; mine = g.mine },
            inr (refl, omega (arith, size), omega (arith, size)),
          ),
        )

  -- What is sent of a message, and what the peer makes of it.
  abbrev Delivers : Link → Link → Peer → Type 0
  Delivers l l' s =
      (ps : List (List ℕ)) × (l'.sent ≡ l.sent ++ ps)
      × ((process_all s ps).1 ≡ (cid, payload) ∷ [])
      × ((process_all s ps).0.assembled ≡ 0)

  -- A packet and what follows it.
  then_rest :
      (l u : Link) (s : Peer) (first : Bool) (front part : List ℕ) (w : Awaits first front s)
      (few : length part ≤ 300) (fuel : ℕ) (ys : List ℕ)
      → 0 < length part
      → (front ++ part) ++ ys ≡ l2cap_message cid payload
      → u.sent ≡ l.sent ++ (acl_packet h first part ∷ [])
      → ((z : ℕ) (zs : List ℕ)
          → ys ≡ z ∷ zs
          → Awaits false (front ++ part) (grown_peer s first front part w few)
          → Delivers u (send_parts fuel u false (z ∷ zs)).0 (grown_peer s first front part w few))
      → Delivers l (send_parts fuel u false ys).0 s
  unfolding process_all
  then_rest l u s first front part w few fuel [] some_part e sent rest =
      let whole : front ++ part ≡ l2cap_message cid payload =
        sym (append-nil (front ++ part)) ∙ e in
      let step = last_part s first front part w few whole in
      (
        acl_packet h first part ∷ [],
        ap (λ (r : Link × Bool). r.0.sent) (send_parts_nil fuel u false) ∙ sent,
        rw step refl,
        rw step refl,
      )
  then_rest l u s first front part w few fuel (z ∷ zs) some_part e sent rest =
      let (step, next) = more_part s first front part w few (z ∷ zs) some_part (omega arith) e in
      let (ps, out, message, done) = rest z zs refl next in
      (
        acl_packet h first part ∷ ps,
        out
            ∙ ap (λ (k : List (List ℕ)). k ++ ps) sent
            ∙ append_assoc l.sent (acl_packet h first part ∷ []) ps,
        rw step message,
        rw step done,
      )

  send_parts-Delivers :
      (fuel : ℕ) (l : Link) (s : Peer) (first : Bool) (front : List ℕ) (x : ℕ) (xs : List ℕ)
      → l.peer.handle ≡ h
      → 0 < l.peer.acl_limit
      → Awaits first front s
      → front ++ (x ∷ xs) ≡ l2cap_message cid payload
      → (send_parts fuel l first (x ∷ xs)).1 ≡ true
      → Delivers l (send_parts fuel l first (x ∷ xs)).0 s
  unfolding send_parts process_all
  send_parts-Delivers zero l s first front x xs mine some_limit w e ok = cc
  send_parts-Delivers (suc fuel) l s first front x xs mine some_limit w e ok =
      let n = min (length (x ∷ xs)) l.peer.acl_limit in
      let part = take n (x ∷ xs) in
      let ys = drop n (x ∷ xs) in
      let p = acl_packet l.peer.handle first part in
      let joined : (front ++ part) ++ ys ≡ l2cap_message cid payload =
        append_assoc front part ys
        ∙ ap (λ (b : List ℕ). front ++ b) (take-append-drop n (x ∷ xs))
        ∙ e in
      elim (send_packet-Attempt l p) [
        | inl no_send ↦ let bad = rw no_send at ok in cc
        | inr (done, sent, same) ↦
            let u = (send_packet l p).0 in
            let going : (send_parts fuel u false ys).1 ≡ true = rw done at ok in
            let size = length-take n (x ∷ xs) in
            let whole = ap (λ (b : List ℕ). length b) e in
            let few : length part ≤ 300 =
              omega (arith, size, whole, length-append front (x ∷ xs), length-l2cap cid payload) in
            rw done (
              then_rest l u s first front part w few fuel ys (omega (arith, size)) joined
                (sent ∙ ap (λ (k : ℕ). l.sent ++ (acl_packet k first part ∷ [])) mine)
                (λ z zs split next.
                  send_parts-Delivers fuel u (grown_peer s first front part w few) false
                    (front ++ part) z zs (ap (λ (q : Peer). q.handle) same ∙ mine)
                    (rw same some_limit) next
                    (ap (λ (b : List ℕ). (front ++ part) ++ b) (sym split) ∙ joined)
                    (ap (λ (b : List ℕ). (send_parts fuel u false b).1) (sym split) ∙ going)))
      ]

  -- A message that `send_acl` reports as sent has left as packets from which a peer of the same handle, in
  -- whatever state its buffer is, puts exactly that message together, and then awaits a new one.
  pub send_acl-Delivers :
      (l : Link) (s : Peer)
      → l.peer.handle ≡ h
      → 0 < l.peer.acl_limit
      → s.handle ≡ h
      → length s.fragment ≡ 4096
      → (send_acl l cid payload).1 ≡ true
      → Delivers l (send_acl l cid payload).0 s
  unfolding send_acl put16
  send_acl-Delivers l s mine some_limit theirs room ok =
      let guard : (l.peer.handle == no_handle || ltb 296 (length payload)) ≡ false =
        ground (arith, mine) in
      let n = length payload in
      let going : (send_parts (length (l2cap_message cid payload)) l true
            (l2cap_message cid payload)).1
          ≡ true =
        rw guard at ok in
      rw guard (
        send_parts-Delivers (length (l2cap_message cid payload)) l s true [] (u8 n)
          (u8 (n >>> 8) ∷ u8 cid ∷ u8 (cid >>> 8) ∷ payload) mine some_limit
          (record { tail = s.fragment; shape = refl; room = room; mine = theirs }, inl (refl, refl))
          refl going)
