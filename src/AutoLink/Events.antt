-- ===== src/AutoLink/Events.antt =====
-- What the coordinator of firmware/radio/src/auto_link.c does with an L2CAP message and with an HCI packet.
use open_ull_receiver.Base.{
  ℕ, ◌+◌, Bool, true, not, ◌&&◌, ◌||◌, none, some, Option, List, [], ◌∷◌, ◌++◌, length, take, drop,
  replicate, same_bytes, ltb, leb, ◌==◌, if◌then◌else◌,
}
use open_ull_receiver.AutoLink.Peer.{
  Bond, Peer, Link, Status, le16, byte_at, no_handle, send_packet,
}
use open_ull_receiver.AutoLink.Acl.{send_acl, process_acl}

abbrev pub on_peer : Link → Peer → Link
on_peer l s = record l { peer = s }

abbrev pub fail : Link → Link
fail l = record l { peer = record (l.peer) { failed = true } }

abbrev pub fail_unless : Link × Bool → Link
fail_unless (l, ok) = if ok then l else fail l

abbrev pub mode : List ℕ
mode = 0 ∷ 0 ∷ 0 ∷ 0 ∷ 0 ∷ 0x77 ∷ 1 ∷ 0 ∷ 0 ∷ 0x7d ∷ 0 ∷ 0 ∷ []

-- The configuration of the saved peer.
unfoldable pub l2cap_configuration : Bond → Link → List ℕ → Link
l2cap_configuration b l p =
    if not (byte_at p 2 == 1)
      || not (byte_at p 3 == 1)
      || not (same_bytes 16 (drop 4 p) b.sirk)
      || not (same_bytes 12 (drop 25 p) mode)
    then record (fail l) { status = Status.peer_configuration_mismatch }
    else record l {
      peer = record (l.peer) { peer_verified = true };
      status = Status.proprietary_peer_verified;
    }

-- The request that is answered with the idle message.
unfoldable pub l2cap_idle : Link → List ℕ → Link
l2cap_idle l p =
    let l' = on_peer l (record (l.peer) { idle_sent = true }) in
    let reply = send_acl l' 0x101 (17 ∷ 1 ∷ 0 ∷ 0 ∷ 0 ∷ 3 ∷ 0 ∷ 0 ∷ 0 ∷ []) in
    let idle = send_acl reply.0 0x101 (15 ∷ replicate 280 0) in
    if not l.peer.peer_verified || not (same_bytes 9 p (17 ∷ 0 ∷ 0 ∷ 0 ∷ 0 ∷ 3 ∷ 0 ∷ 0 ∷ 0 ∷ []))
    then fail l
    else if reply.1
    then fail_unless idle
    else fail reply.0

-- Channel 0x0101.
unfoldable pub l2cap_proprietary : Bond → Link → List ℕ → Link
unfolding l2cap_configuration l2cap_idle
l2cap_proprietary b l p =
    let n = length p in
    if not l.peer.encrypted
    then fail l
    else if n == 45 && byte_at p 0 == 14 && byte_at p 1 == 2
    then l2cap_configuration b l p
    else if n == 9 && byte_at p 0 == 17 && not l.peer.idle_sent
    then l2cap_idle l p
    else if n == 281 && byte_at p 0 == 15 && l.peer.peer_verified && l.peer.idle_sent
    then record l {
      peer = record (l.peer) { holding = true };
      status = Status.holding_proprietary_connection;
    }
    else record l { logged = l.logged ++ (p ∷ []) }

-- The fixed replies on the other channels.
unfoldable pub l2cap_reply : Link → ℕ → List ℕ → Link
l2cap_reply l cid p =
    let n = length p in
    if cid == 4 && n == 3 && byte_at p 0 == 2
    then (send_acl l 4 (3 ∷ 23 ∷ 0 ∷ [])).0
    else if cid == 4 && leb 7 n && byte_at p 0 == 6
    then (send_acl l 4 (1 ∷ 6 ∷ byte_at p 1 ∷ byte_at p 2 ∷ 10 ∷ [])).0
    else if cid == 6 && not (n == 0) && byte_at p 0 == 1
    then (send_acl l 6 (5 ∷ 5 ∷ [])).0
    else if cid == 5 && leb 4 n && byte_at p 0 == 0x12
    then (send_acl l 5 (0x13 ∷ byte_at p 1 ∷ 2 ∷ 0 ∷ 1 ∷ 0 ∷ [])).0
    else l

-- `l2cap`
unfoldable pub l2cap : Bond → Link → ℕ → List ℕ → Link
unfolding l2cap_proprietary l2cap_reply
l2cap b l cid p = if cid == 0x101 then l2cap_proprietary b l p else l2cap_reply l cid p

-- A vendor event, of `len` parameters `d`.
unfoldable pub vendor_event : Peer → List ℕ → ℕ → Peer
vendor_event s d len =
    if len == 38 && same_bytes 5 d (85 ∷ 76 ∷ 76 ∷ 67 ∷ 1 ∷ [])
    then record s {
      activity_valid = byte_at d 5 == 0 && byte_at d 6 == 6;
      control_slot = byte_at d 7;
      activity = take 30 (drop 8 d);
    }
    else if len == 12 && same_bytes 5 d (85 ∷ 76 ∷ 76 ∷ 68 ∷ 1 ∷ [])
    then record s {
      diagnostic_ok =
          byte_at d 6 == 0
          && not (byte_at d 7 == 0)
          && le16 (drop 8 d) == 27
          && le16 (drop 10 d) == 513;
    }
    else if len == 12 && same_bytes 5 d (85 ∷ 76 ∷ 76 ∷ 84 ∷ 1 ∷ [])
    then (if byte_at d 5 == 1
        then record s { raw_guard = byte_at d 8; raw_status = byte_at d 9 }
        else if byte_at d 5 == 2 && byte_at d 6 == 0xe4
        then (if not (byte_at d 8 == 7) || not (byte_at d 9 == 1)
            then record s { failed = true }
            else record s { raw_acked = true })
        else s)
    else if len == 16 && same_bytes 6 d (85 ∷ 76 ∷ 76 ∷ 82 ∷ 1 ∷ 1 ∷ [])
    then record s { air_ready = true }
    else if len == 28 && same_bytes 5 d (85 ∷ 76 ∷ 76 ∷ 80 ∷ 3 ∷ []) && byte_at d 5 == 3
    then record s { failed = true }
    else s

-- The connection to the saved device.
unfoldable pub connected : Bond → Link → List ℕ → ℕ → Link
connected b l d now =
    if not (byte_at d 1 == 0)
    then on_peer l (record (l.peer) { disconnected = true })
    else if not (same_bytes 6 (drop 6 d) b.target)
    then fail l
    else record l {
      peer = record (l.peer) { handle = le16 (drop 2 d); connected_at = now };
      status = Status.connected_encrypting;
    }

-- A disconnection.
unfoldable pub disconnection : Link → List ℕ → Link
disconnection l d =
    let s = l.peer in
    record l {
      retired =
          l.retired
          || s.started
            && byte_at d 0 == 0
            && not (s.handle == no_handle)
            && le16 (drop 1 d) == s.handle;
      peer = record s { disconnected = s.disconnected || not s.started; handle = no_handle };
    }

-- The first part of `process`, of an HCI event.
unfoldable pub process_event : Bond → Link → ℕ → List ℕ → Link
unfolding vendor_event connected disconnection
process_event b l now p =
    let d = drop 3 p in
    let len = byte_at p 2 in
    let code = byte_at p 1 in
    let on = byte_at d 0 == 0 && not (byte_at d 3 == 0) in
    if not (length p == 3 + len)
    then fail l
    else if code == 0x3e && leb 12 len && (byte_at d 0 == 1 || byte_at d 0 == 10)
    then connected b l d now
    else if code == 5 && leb 4 len
    then disconnection l d
    else if code == 0x3e && len == 11 && byte_at d 0 == 7
    then on_peer l (record (l.peer) { max_tx_octets = le16 (drop 3 d) })
    else if code == 0xff
    then on_peer l (vendor_event l.peer d len)
    else if code == 8 && leb 4 len
    then on_peer l (record (l.peer) { encrypted = on; failed = l.peer.failed || not on })
    else if code == 0x3e && leb 3 len && byte_at d 0 == 5
    then (send_packet l (1 ∷ 0x1b ∷ 0x20 ∷ 2 ∷ byte_at d 1 ∷ byte_at d 2 ∷ [])).0
    else l

abbrev pub deliver : Bond → Link → Option (ℕ × List ℕ) → Link
deliver b l none = l
deliver b l (some (cid, p)) = l2cap b l cid p

-- `process`
unfoldable pub process : Bond → Link → ℕ → List ℕ → Link
unfolding process_event l2cap
process b l now p =
    let r = process_acl l.peer p in
    if ltb (length p) 3
    then l
    else if byte_at p 0 == 4
    then process_event b l now p
    else deliver b (on_peer l r.0) r.1
