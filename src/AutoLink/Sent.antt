-- ===== src/AutoLink/Sent.antt =====
-- The end of the loop of `send_acl` of firmware/radio/src/auto_link.c.
use open_ull_receiver.Base.{
  ℕ, zero, suc, ◌+◌, ◌≤◌, ◌<◌, ◌≡◌, ◌≢◌, refl, min, Bool, true, false, ◌&&◌, ◌||◌, List, [], ◌∷◌,
  length, take, drop, ltb, ◌==◌, arith, length-drop,
}
use open_ull_receiver.AutoLink.Peer.{Link, no_handle, send_packet, sent_or_not}
use open_ull_receiver.AutoLink.Acl.{acl_packet, send_parts, l2cap_message, send_acl}
use open_ull_receiver.AutoLink.Reassembled.{length-l2cap}

unfoldable pub all_true : List Bool → Bool
all_true [] = true
all_true (b ∷ bs) = b && all_true bs

-- The controller takes each of the next `k` packets.
pub record Ready (k : ℕ) (l : Link) : Type 0 where
  pub takes : all_true l.accepts ≡ true
  pub enough : k ≤ length l.accepts

abbrev Accepted : Link → ℕ → Link × Bool → Type 0
Accepted l k r = (r.1 ≡ true) × Ready k r.0 × (r.0.peer ≡ l.peer)

sent_or_not-Accepted :
    (l : Link) (p : List ℕ) (k : ℕ) (bs : List Bool)
    → all_true bs ≡ true
    → suc k ≤ length bs
    → Accepted l k (sent_or_not l p bs)
unfolding sent_or_not all_true
sent_or_not-Accepted l p k [] a h = absurd (omega arith)
sent_or_not-Accepted l p k (true ∷ bs) a h =
    (refl, record { takes = a; enough = omega arith }, refl)
sent_or_not-Accepted l p k (false ∷ bs) a h = absurd (cc)

send_packet-Accepted :
    (l : Link) (p : List ℕ) (k : ℕ) → Ready (suc k) l → Accepted l k (send_packet l p)
unfolding send_packet
send_packet-Accepted l p k r = sent_or_not-Accepted l p k l.accepts r.takes r.enough

send_parts_done :
    (fuel : ℕ) (l : Link) (first : Bool) (body : List ℕ)
    → 0 < l.peer.acl_limit
    → length body ≤ fuel
    → Ready fuel l
    → (send_parts fuel l first body).1 ≡ true
unfolding send_parts
send_parts_done zero l first [] lim h r = refl
send_parts_done (suc fuel) l first [] lim h r = refl
send_parts_done zero l first (x ∷ xs) lim h r = absurd (omega arith)
send_parts_done (suc fuel) l first (x ∷ xs) lim h r =
    let n = min (length (x ∷ xs)) l.peer.acl_limit in
    let p = acl_packet l.peer.handle first (take n (x ∷ xs)) in
    let (ok, ready, same) = send_packet-Accepted l p fuel r in
    rw ok (
      send_parts_done fuel (send_packet l p).0 false (drop n (x ∷ xs)) (rw same lim)
        (omega (arith, length-drop n (x ∷ xs))) ready)

-- While a handle is held and the controller takes packets, `send_acl` comes to its end with success, for
-- every message of up to 296 bytes and every limit of a packet's size but zero: a packet for each byte
-- is the most that it needs.
pub send_acl_done :
    (l : Link) (cid : ℕ) (payload : List ℕ)
    → l.peer.handle ≢ no_handle
    → 0 < l.peer.acl_limit
    → length payload ≤ 296
    → Ready (4 + length payload) l
    → (send_acl l cid payload).1 ≡ true
unfolding send_acl
send_acl_done l cid payload held lim small ready =
    let guard : (l.peer.handle == no_handle || ltb 296 (length payload)) ≡ false = ground arith in
    let size = length-l2cap cid payload in
    rw guard (
      rw size (
        send_parts_done (4 + length payload) l true (l2cap_message cid payload) lim
          (omega (arith, size)) ready))
