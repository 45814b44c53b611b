-- ===== src/AutoLink/Acl.antt =====
-- The ACL packets of firmware/radio/src/auto_link.c: cutting an L2CAP message into packets, and putting
-- one together.
use open_ull_receiver.Base.{
  ℕ, zero, suc, ◌+◌, ◌-◌, ◌%◌, ◌/◌, ◌^◌, bit_or, min, Bool, true, false, not, ◌||◌, none, some,
  Option, List, [], ◌∷◌, ◌++◌, length, take, drop, put_at, ltb, ◌==◌, if◌then◌else◌,
}
use open_ull_receiver.AirSession.{put16}
use open_ull_receiver.AutoLink.Peer.{Peer, Link, le16, byte_at, no_handle, send_packet}

-- The next packet: `body` is what is left of the message, `first` whether nothing has been sent of it.
unfoldable pub acl_packet : ℕ → Bool → List ℕ → List ℕ
acl_packet handle first part =
    (2 ∷ put16 (if first then handle else bit_or handle 0x1000)) ++ (put16 (length part) ++ part)

-- The loop of `send_acl`; its fuel is the length of the message.
unfoldable pub send_parts : ℕ → Link → Bool → List ℕ → Link × Bool
send_parts fuel l first [] = (l, true)
send_parts zero l first (x ∷ body) = (l, false)
send_parts (suc fuel) l first (x ∷ body) =
    let n = min (length (x ∷ body)) l.peer.acl_limit in
    let attempt = send_packet l (acl_packet l.peer.handle first (take n (x ∷ body))) in
    let rest = send_parts fuel attempt.0 false (drop n (x ∷ body)) in
    if attempt.1 then rest else (attempt.0, false)

abbrev pub l2cap_message : ℕ → List ℕ → List ℕ
l2cap_message cid payload = put16 (length payload) ++ (put16 cid ++ payload)

-- `send_acl`
unfoldable pub send_acl : Link → ℕ → List ℕ → Link × Bool
send_acl l cid payload =
    let body = l2cap_message cid payload in
    if l.peer.handle == no_handle || ltb 296 (length payload)
    then (l, false)
    else send_parts (length body) l true body

-- The end of `process`, of an ACL packet: the peer, and a whole message with its channel.
unfoldable pub acl_append : Peer → List ℕ → ℕ → Peer × Option (ℕ × List ℕ)
acl_append s p n =
    let kept = put_at s.assembled (take (n - 5) (drop 5 p)) s.fragment in
    let u = record s { fragment = kept; assembled = s.assembled + (n - 5) } in
    let expected = 4 + le16 kept in
    if ltb 4096 (s.assembled + n - 5)
    then (record s { failed = true }, none)
    else if ltb u.assembled 4
    then (u, none)
    else if ltb 4096 expected || ltb expected u.assembled
    then (record u { failed = true }, none)
    else if u.assembled == expected
    then (record u { assembled = 0 }, some (le16 (drop 2 kept), take (expected - 4) (drop 4 kept)))
    else (u, none)

unfoldable pub process_acl : Peer → List ℕ → Peer × Option (ℕ × List ℕ)
process_acl s p =
    let n = length p in
    let flags = le16 (drop 1 p) in
    let pb = flags / 2 ^ 12 % 4 in
    if not (byte_at p 0 == 2) || ltb n 5 || not (le16 (drop 3 p) == n - 5)
    then (s, none)
    else if not (flags % 2 ^ 12 == s.handle)
    then (s, none)
    else if pb == 0 || pb == 2
    then acl_append (record s { assembled = 0 }) p n
    else if not (pb == 1) || s.assembled == 0
    then (s, none)
    else acl_append s p n
