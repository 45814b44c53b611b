-- ===== src/AutoLink/Handshake.antt =====
-- What must have happened before firmware/radio/src/auto_link.c holds a connection and starts its audio.
use open_ull_receiver.Base.{
  ℕ, zero, suc, ◌≡◌, ◌⊎◌, inl, inr, refl, ◌∙◌, Bool, true, false, not, ◌&&◌, ◌||◌, List, [], ◌∷◌,
  length, take, drop, min, same_bytes, replicate, ◌==◌, if◌then◌else◌, arith, Bool-cases,
}
use open_ull_receiver.AutoLink.Peer.{Bond, Status, Peer, Link, byte_at, send_packet, sent_or_not}
use open_ull_receiver.AutoLink.Acl.{acl_packet, send_parts, l2cap_message, send_acl}
use open_ull_receiver.AutoLink.Events.{
  l2cap_configuration, l2cap_idle, l2cap_proprietary, l2cap_reply, l2cap, on_peer, fail,
  fail_unless,
}

-- The order of the handshake: the peer's configuration is taken on an encrypted link only, the idle
-- message goes to a verified peer only, and the connection is held after that.
pub record IsShaken (s : Peer) : Type 0 where
  pub secret : s.peer_verified ≡ true → (s.encrypted ≡ true) ⊎ (s.failed ≡ true)
  pub verified : s.idle_sent ≡ true → s.peer_verified ≡ true
  pub held : s.holding ≡ true → s.idle_sent ≡ true

-- What no event takes back.
pub record Keeps (s t : Peer) : Type 0 where
  pub stage : t.startup_step ≡ s.startup_step
  pub stream : t.started ≡ s.started
  pub attempt : t.stream_attempted ≡ s.stream_attempted
  pub holds : s.holding ≡ true → t.holding ≡ true
  pub acked : s.raw_acked ≡ true → t.raw_acked ≡ true
  pub ready : s.air_ready ≡ true → t.air_ready ≡ true

-- The peer of a link after some calls, from what it was.
pub record From (s : Peer) (l : Link) : Type 0 where
  pub keeps : Keeps s l.peer
  pub shaken : IsShaken s → IsShaken l.peer

pub From_refl : (l : Link) → From l.peer l
From_refl l = record { keeps = ground arith; shaken = λ v. v }

pub From_trans : {s : Peer} {l l' : Link} → From s l → From l.peer l' → From s l'
From_trans {s} {l} {l'} f g =
    let a = f.keeps in
    let b = g.keeps in record { keeps = ground arith; shaken = λ v. g.shaken (f.shaken v) }

pub From_same : {s : Peer} {l : Link} → l.peer ≡ s → From s l
From_same {s} {l} e = record { keeps = rw e (ground arith); shaken = λ v. rw e v }

-- Both ways of a test.
pub branch :
    {s : Peer} {x y : Link} (c : Bool)
    → (c ≡ true → From s x)
    → (c ≡ false → From s y)
    → From s (if c then x else y)
branch true f g = f refl
branch false f g = g refl

-- Sending leaves the peer as it is.
sent_or_not-peer : (l : Link) (p : List ℕ) (bs : List Bool) → (sent_or_not l p bs).0.peer ≡ l.peer
unfolding sent_or_not
sent_or_not-peer l p [] = refl
sent_or_not-peer l p (true ∷ bs) = refl
sent_or_not-peer l p (false ∷ bs) = refl

pub send_packet-peer : (l : Link) (p : List ℕ) → (send_packet l p).0.peer ≡ l.peer
unfolding send_packet
send_packet-peer l p = sent_or_not-peer l p l.accepts

send_parts-peer :
    (fuel : ℕ) (l : Link) (first : Bool) (body : List ℕ)
    → (send_parts fuel l first body).0.peer ≡ l.peer
unfolding send_parts
send_parts-peer zero l first [] = refl
send_parts-peer (suc fuel) l first [] = refl
send_parts-peer zero l first (x ∷ xs) = refl
send_parts-peer (suc fuel) l first (x ∷ xs) =
    let n = min (length (x ∷ xs)) l.peer.acl_limit in
    let p = acl_packet l.peer.handle first (take n (x ∷ xs)) in
    elim (Bool-cases ((send_packet l p).1)) [
      | inl e ↦
          rw e (
            send_parts-peer fuel (send_packet l p).0 false (drop n (x ∷ xs)) ∙ send_packet-peer l p)
      | inr e ↦ rw e (send_packet-peer l p)
    ]

pub send_acl-peer : (l : Link) (cid : ℕ) (p : List ℕ) → (send_acl l cid p).0.peer ≡ l.peer
unfolding send_acl
send_acl-peer l cid p =
    ground (arith, send_parts-peer (length (l2cap_message cid p)) l true (l2cap_message cid p))

-- Failing is no step back.
pub fail-From : (l : Link) → From l.peer (fail l)
fail-From l = record { keeps = ground arith; shaken = λ v. ground arith }

pub fail_unless-From : {s : Peer} (r : Link × Bool) → From s r.0 → From s (fail_unless r)
fail_unless-From (l, true) g = g
fail_unless-From (l, false) g = From_trans g (fail-From l)

pub send_acl-From : (l : Link) (cid : ℕ) (p : List ℕ) → From l.peer (send_acl l cid p).0
send_acl-From l cid p = From_same (send_acl-peer l cid p)

configuration-From :
    (b : Bond) (l : Link) (p : List ℕ)
    → not l.peer.encrypted ≡ false
    → From l.peer (l2cap_configuration b l p)
unfolding l2cap_configuration
configuration-From b l p e = record { keeps = ground arith; shaken = λ v. ground arith }

idle_start :
    (l : Link) (c : Bool)
    → (not l.peer.peer_verified || c) ≡ false
    → From l.peer (on_peer l (record (l.peer) { idle_sent = true }))
idle_start l c e = record { keeps = ground arith; shaken = λ w. ground arith }

idle_replies :
    {s : Peer} (l : Link) (p q : List ℕ)
    → From s l
    → let reply = send_acl l 0x101 p in
      let idle = send_acl reply.0 0x101 q in
      From s (if reply.1 then fail_unless idle else fail reply.0)
idle_replies l p q f =
    let reply = send_acl l 0x101 p in
    let first = From_trans f (send_acl-From l 0x101 p) in
    branch reply.1 (λ _. fail_unless-From _ (From_trans first (send_acl-From reply.0 0x101 q)))
      (λ _. From_trans first (fail-From reply.0))

idle-From : (l : Link) (p : List ℕ) → From l.peer (l2cap_idle l p)
unfolding l2cap_idle
idle-From l p =
    let other = not (same_bytes 9 p (17 ∷ 0 ∷ 0 ∷ 0 ∷ 0 ∷ 3 ∷ 0 ∷ 0 ∷ 0 ∷ [])) in
    branch (not l.peer.peer_verified || other) (λ _. fail-From l)
      (λ e.
        idle_replies (on_peer l (record (l.peer) { idle_sent = true }))
          (17 ∷ 1 ∷ 0 ∷ 0 ∷ 0 ∷ 3 ∷ 0 ∷ 0 ∷ 0 ∷ []) (15 ∷ replicate 280 0) (idle_start l other e))

held-From :
    (l : Link) (p : List ℕ) (status : Status)
    → (length p == 281 && byte_at p 0 == 15 && l.peer.peer_verified && l.peer.idle_sent) ≡ true
    → From l.peer (record l { peer = record (l.peer) { holding = true }; status = status })
held-From l p status e = record { keeps = ground arith; shaken = λ v. ground arith }

proprietary-From : (b : Bond) (l : Link) (p : List ℕ) → From l.peer (l2cap_proprietary b l p)
unfolding l2cap_proprietary
proprietary-From b l p =
    search (branch, fail-From l, configuration-From b l p, idle-From l p, held-From l p, From_same)

reply-From : (l : Link) (cid : ℕ) (p : List ℕ) → From l.peer (l2cap_reply l cid p)
unfolding l2cap_reply
reply-From l cid p = search (branch, send_acl-From, From_refl l)

pub l2cap-From : (b : Bond) (l : Link) (cid : ℕ) (p : List ℕ) → From l.peer (l2cap b l cid p)
unfolding l2cap
l2cap-From b l cid p = search (branch, proprietary-From b l p, reply-From l cid p)
