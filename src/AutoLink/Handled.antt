-- ===== src/AutoLink/Handled.antt =====
-- The events of firmware/radio/src/auto_link.c and the order of the handshake.
use open_ull_receiver.Base.{
  ℕ, ◌-◌, ◌/◌, ◌%◌, ◌^◌, Bool, true, false, not, ◌||◌, none, some, Option, List, length, drop, ltb,
  ◌==◌, if◌then◌else◌, arith,
}
use open_ull_receiver.AutoLink.Peer.{Bond, Status, le16, Peer, Link, byte_at, send_packet}
use open_ull_receiver.AutoLink.Acl.{acl_append, process_acl}
use open_ull_receiver.AutoLink.Events.{
  vendor_event, connected, disconnection, process_event, process, deliver, on_peer,
}
use open_ull_receiver.AutoLink.Handshake.{
  From, From_refl, From_trans, From_same, branch, fail-From, send_packet-peer, l2cap-From,
}

-- Events, each of which sets fields that the handshake does not depend on, or moves forward.
pub branch_peer :
    {l : Link} {s t : Peer} (c : Bool)
    → From l.peer (on_peer l s)
    → From l.peer (on_peer l t)
    → From l.peer (on_peer l (if c then s else t))
branch_peer true f g = f
branch_peer false f g = g

module _ (l : Link) where
  activity-From :
      (a : Bool) (n : ℕ) (p : List ℕ)
      → From l.peer
          (on_peer l (record (l.peer) { activity_valid = a; control_slot = n; activity = p }))
  activity-From a n p = record { keeps = ground arith; shaken = λ v. ground arith }

  diagnostic-From : (a : Bool) → From l.peer (on_peer l (record (l.peer) { diagnostic_ok = a }))
  diagnostic-From a = record { keeps = ground arith; shaken = λ v. ground arith }

  guard-From :
      (a c : ℕ) → From l.peer (on_peer l (record (l.peer) { raw_guard = a; raw_status = c }))
  guard-From a c = record { keeps = ground arith; shaken = λ v. ground arith }

  acked-From : From l.peer (on_peer l (record (l.peer) { raw_acked = true }))
  acked-From = record { keeps = ground arith; shaken = λ v. ground arith }

  ready-From : From l.peer (on_peer l (record (l.peer) { air_ready = true }))
  ready-From = record { keeps = ground arith; shaken = λ v. ground arith }

  vendor-From : (d : List ℕ) (len : ℕ) → From l.peer (on_peer l (vendor_event l.peer d len))
  unfolding vendor_event
  vendor-From d len =
      search
        (
          branch_peer,
          activity-From,
          diagnostic-From,
          guard-From,
          acked-From,
          ready-From,
          fail-From l,
          From_refl l,
        )
        depth 12

  lost-From : From l.peer (on_peer l (record (l.peer) { disconnected = true }))
  lost-From = record { keeps = ground arith; shaken = λ v. ground arith }

  handle-From :
      (h now : ℕ) (status : Status)
      → From l.peer
          (record l { peer = record (l.peer) { handle = h; connected_at = now }; status = status })
  handle-From h now status = record { keeps = ground arith; shaken = λ v. ground arith }

  connected-From : (b : Bond) (d : List ℕ) (now : ℕ) → From l.peer (connected b l d now)
  unfolding connected
  connected-From b d now = search (branch, lost-From, fail-From l, handle-From)

  disconnection-From : (d : List ℕ) → From l.peer (disconnection l d)
  unfolding disconnection
  disconnection-From d = record { keeps = ground arith; shaken = λ v. ground arith }

  octets-From : (n : ℕ) → From l.peer (on_peer l (record (l.peer) { max_tx_octets = n }))
  octets-From n = record { keeps = ground arith; shaken = λ v. ground arith }

  encryption-From :
      (on : Bool)
      → From l.peer
          (on_peer l (record (l.peer) { encrypted = on; failed = l.peer.failed || not on }))
  encryption-From on = record { keeps = ground arith; shaken = λ v. ground arith }

  sent-From : (p : List ℕ) → From l.peer (send_packet l p).0
  sent-From p = From_same (send_packet-peer l p)

  event-From : (b : Bond) (now : ℕ) (p : List ℕ) → From l.peer (process_event b l now p)
  unfolding process_event
  event-From b now p =
      search
        (
          branch,
          fail-From l,
          connected-From,
          disconnection-From,
          octets-From,
          vendor-From,
          encryption-From,
          sent-From,
          From_refl l,
        )
        depth 12

-- A packet of a message changes the buffer only, or fails.
record FirstFrom (l : Link) (r : Peer × Option (ℕ × List ℕ)) : Type 0 where
  first : From l.peer (on_peer l r.0)

branch_first :
    {l : Link} {x y : Peer × Option (ℕ × List ℕ)} (c : Bool)
    → FirstFrom l x
    → FirstFrom l y
    → FirstFrom l (if c then x else y)
branch_first true f g = f
branch_first false f g = g

module _ (l : Link) where
  buffer-FirstFrom :
      (k : ℕ) (f : List ℕ) (m : Option (ℕ × List ℕ))
      → FirstFrom l (record (l.peer) { assembled = k; fragment = f }, m)
  buffer-FirstFrom k f m = record {
    first = record { keeps = ground arith; shaken = λ v. ground arith };
  }

  overfull-FirstFrom :
      (k : ℕ) (f : List ℕ) (m : Option (ℕ × List ℕ))
      → FirstFrom l (record (l.peer) { assembled = k; fragment = f; failed = true }, m)
  overfull-FirstFrom k f m = record {
    first = record { keeps = ground arith; shaken = λ v. ground arith };
  }

  append-FirstFrom :
      (k : ℕ) (p : List ℕ) (n : ℕ)
      → FirstFrom l (acl_append (record (l.peer) { assembled = k }) p n)
  unfolding acl_append
  append-FirstFrom k p n = search (branch_first, buffer-FirstFrom, overfull-FirstFrom) depth 12

  acl-FirstFrom : (p : List ℕ) → FirstFrom l (process_acl l.peer p)
  unfolding process_acl
  acl-FirstFrom p =
      let same : FirstFrom l (l.peer, none) = record { first = From_refl l } in
      let next : FirstFrom l (acl_append l.peer p (length p)) =
        append-FirstFrom l.peer.assembled p (length p) in
      let n = length p in
      let pb = le16 (drop 1 p) / 2 ^ 12 % 4 in
      branch_first (not (byte_at p 0 == 2) || ltb n 5 || not (le16 (drop 3 p) == n - 5)) same (
        branch_first (not (le16 (drop 1 p) % 2 ^ 12 == l.peer.handle)) same (
          branch_first (pb == 0 || pb == 2) (append-FirstFrom 0 p n)
            (branch_first (not (pb == 1) || l.peer.assembled == 0) same next)))

deliver-From :
    {s : Peer} (b : Bond) (l : Link) (m : Option (ℕ × List ℕ)) → From s l → From s (deliver b l m)
deliver-From b l none f = f
deliver-From b l (some (cid, p)) f = From_trans f (l2cap-From b l cid p)

pub process-From : (b : Bond) (l : Link) (now : ℕ) (p : List ℕ) → From l.peer (process b l now p)
unfolding process
process-From b l now p =
    let acl =
      deliver-From b (on_peer l (process_acl l.peer p).0) ((process_acl l.peer p).1)
        ((acl-FirstFrom l p).first) in
    search (branch, From_refl l, event-From l b now p, acl) depth 8
