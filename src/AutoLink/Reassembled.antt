-- ===== src/AutoLink/Reassembled.antt =====
-- How `process` of firmware/radio/src/auto_link.c takes the packets of `send_acl`.
use mathlib.Core.List.{append_assoc}
use open_ull_receiver.Base.{
  ℕ, zero, suc, ◌+◌, ◌-◌, ◌%◌, ◌/◌, ◌^◌, ◌≤◌, ◌<◌, ◌≡◌, refl, sym, ap, ◌∙◌, bit_or, Bool, true,
  false, none, some, Option, List, [], ◌∷◌, ◌++◌, length, take, drop, put_at, get_or, ◌==◌,
  if◌then◌else◌, arith, all_below, all_below_sound, ==_iff, length-append, length-put_at,
  put_at-append, take_over, take_whole, dec_le,
}
use open_ull_receiver.AirSession.{put16}
use open_ull_receiver.AutoLink.Peer.{Peer, le16, byte_at}
use open_ull_receiver.AutoLink.Acl.{acl_packet, l2cap_message, acl_append, process_acl}

abbrev pub Message : Type 0
Message = ℕ × List ℕ

abbrev pub received : Option Message → List Message
received none = []
received (some m) = m ∷ []

-- What a peer makes of packets, one after the other.
unfoldable pub process_all : Peer → List (List ℕ) → Peer × List Message
process_all s [] = (s, [])
process_all s (p ∷ ps) =
    let step = process_acl s p in
    let rest = process_all step.0 ps in (rest.0, received step.1 ++ rest.1)

continued_table : all_below 4096 (λ h. bit_or h 0x1000 == h + 0x1000) ≡ true
unfolding all_below
continued_table = refl

continued : (h : ℕ) → h < 4096 → bit_or h 0x1000 ≡ h + 0x1000
continued h lt = (==_iff _ _).0 (all_below_sound 4096 _ h continued_table lt)

-- The head of a packet as the receiver reads it.
pub packet_head :
    (h : ℕ) (first : Bool) (part : List ℕ)
    → h < 4096
    → length part < 2 ^ 16
    → let p = acl_packet h first part in
      (byte_at p 0 ≡ 2)
      × (length p ≡ 5 + length part)
      × (le16 (drop 3 p) ≡ length part)
      × (drop 5 p ≡ part)
      × (le16 (drop 1 p) ≡ (if first then h else h + 0x1000))
unfolding acl_packet put16
packet_head h true part lt small = (refl, omega arith, omega arith, refl, omega arith)
packet_head h false part lt small =
    (refl, omega arith, omega arith, refl, omega (arith, continued h lt))

-- What a peer has of a message: `front` is its first part.
pub record HasFront (h : ℕ) (front : List ℕ) (s : Peer) : Type 0 where
  pub tail : List ℕ
  pub shape : s.fragment ≡ front ++ tail
  pub room : length s.fragment ≡ 4096
  pub mine : s.handle ≡ h

abbrev pub assembled_at : ℕ → Peer → Peer
assembled_at k s = record s { assembled = k }

-- A packet goes behind what has been assembled; the first one begins anew.
pub process_first :
    (s : Peer) (h : ℕ) (part : List ℕ)
    → h < 4096
    → length part < 2 ^ 16
    → s.handle ≡ h
    → process_acl s (acl_packet h true part)
      ≡ acl_append (assembled_at 0 s) (acl_packet h true part) (5 + length part)
unfolding process_acl
process_first s h part lt small mine =
    let (kind, size, field, _, flags) = packet_head h true part lt small in
    let f = le16 (drop 1 (acl_packet h true part)) in
    let own : (f % 2 ^ 12 == s.handle) ≡ true = ground (arith, flags, mine) in
    let start : (f / 2 ^ 12 % 4 == 0) ≡ true = ground (arith, flags) in
    ground (arith, kind, size, field, own, start)

pub process_next :
    (s : Peer) (h : ℕ) (part : List ℕ)
    → h < 4096
    → length part < 2 ^ 16
    → s.handle ≡ h
    → 0 < s.assembled
    → process_acl s (acl_packet h false part)
      ≡ acl_append s (acl_packet h false part) (5 + length part)
unfolding process_acl
process_next s h part lt small mine more =
    let (kind, size, field, _, flags) = packet_head h false part lt small in
    let f = le16 (drop 1 (acl_packet h false part)) in
    let own : (f % 2 ^ 12 == s.handle) ≡ true = ground (arith, flags, mine) in
    let goes_on : f / 2 ^ 12 % 4 ≡ 1 = omega (arith, flags) in
    ground (arith, kind, size, field, own, goes_on)

get_or-front : (xs ys : List ℕ) (i : ℕ) → i < length xs → get_or (xs ++ ys) i 0 ≡ get_or xs i 0
get_or-front [] ys i h = elim h [ ]
get_or-front (x ∷ xs) ys zero h = refl
get_or-front (x ∷ xs) ys (suc i) h = get_or-front xs ys i (omega arith)

le16-front : (xs ys : List ℕ) → 2 ≤ length xs → le16 (xs ++ ys) ≡ le16 xs
le16-front xs ys h =
    rw (get_or-front xs ys 0 (omega arith), get_or-front xs ys 1 (omega arith)) refl

pub length-l2cap :
    (cid : ℕ) (payload : List ℕ) → length (l2cap_message cid payload) ≡ 4 + length payload
unfolding put16
length-l2cap cid payload = omega arith

-- Four bytes tell the length of the message that they begin.
expected_length :
    (cid : ℕ) (payload xs ys : List ℕ)
    → length payload ≤ 4092
    → xs ++ ys ≡ l2cap_message cid payload
    → 4 ≤ length xs
    → 4 + le16 xs ≡ length (l2cap_message cid payload)
unfolding put16
expected_length cid payload xs ys h e k =
    omega (arith, sym (le16-front xs ys (omega arith)), ap (λ (l : List ℕ). le16 l) e)

module _ (h cid : ℕ) (payload front part : List ℕ) (s : Peer) (v : HasFront h front s)
    (here : s.assembled ≡ length front) (p : List ℕ) (body : drop 5 p ≡ part) where
  -- The buffer with the packet behind what it had.
  abbrev pub kept : List ℕ
  kept = put_at s.assembled (take (5 + length part - 5) (drop 5 p)) s.fragment

  kept_lem : length front + length part ≤ 4096 → kept ≡ (front ++ part) ++ drop (length part) v.tail
  kept_lem fits =
      let n : 5 + length part - 5 ≡ length part = omega arith in
      let room : length part ≤ length v.tail =
        omega (arith, v.room, ap (λ (l : List ℕ). length l) v.shape, length-append front v.tail) in
      rw (n, body, take_whole (length part) part refl, here, v.shape)
        (put_at-append (length front) part front v.tail refl room
          ∙ sym (append_assoc front part (drop (length part) v.tail)))

  abbrev pub grown : Peer
  grown = record s { fragment = kept; assembled = s.assembled + (5 + length part - 5) }

  pub grown-HasFront : length front + length part ≤ 4096 → HasFront h (front ++ part) grown
  grown-HasFront fits = record {
    tail = drop (length part) v.tail;
    shape = kept_lem fits;
    room = length-put_at s.assembled (take (5 + length part - 5) (drop 5 p)) s.fragment ∙ v.room;
    mine = v.mine;
  }

  pub append_more :
      (ys : List ℕ)
      → length payload ≤ 4092
      → (front ++ part) ++ ys ≡ l2cap_message cid payload
      → 0 < length ys
      → acl_append s p (5 + length part) ≡ (grown, none)
  unfolding acl_append
  append_more ys small e more =
      let size = length-append (front ++ part) ys in
      let size' = length-append front part in
      let whole = ap (λ (l : List ℕ). length l) e in
      let long : length (l2cap_message cid payload) ≡ 4 + length payload =
        length-l2cap cid payload in
      let k = kept_lem (omega (arith, size, size', whole, long)) in
      let early : 4 ≤ length front + length part → le16 kept ≡ length payload = λ four. rw k (
        le16-front (front ++ part) (drop (length part) v.tail) (omega (arith, size'))
        ∙ omega (
          arith,
          long,
          expected_length cid payload (front ++ part) ys small e (omega (arith, size')),
        )) in
      elim (dec_le 4 (length front + length part)) [
        | yes four ↦ ground (arith, early four, here, size, size', whole, long)
        | no few ↦ ground (arith, here, size, size', whole, long)
      ]

  pub append_last :
      length payload ≤ 4092
      → cid < 2 ^ 16
      → front ++ part ≡ l2cap_message cid payload
      → acl_append s p (5 + length part) ≡ (record grown { assembled = 0 }, some (cid, payload))
  unfolding acl_append put16
  append_last small short e =
      let size' = length-append front part in
      let whole = ap (λ (l : List ℕ). length l) e in
      let junk = drop (length part) v.tail in
      let k : kept ≡ l2cap_message cid payload ++ junk =
        kept_lem (omega (arith, size', whole)) ∙ ap (λ (l : List ℕ). l ++ junk) e in
      let first : le16 (l2cap_message cid payload ++ junk) ≡ length payload = omega arith in
      let channel : le16 (drop 2 (l2cap_message cid payload ++ junk)) ≡ cid = omega arith in
      let rest : take (length payload) (drop 4 (l2cap_message cid payload ++ junk)) ≡ payload =
        take_over (length payload) payload junk refl in
      let k1 : le16 kept ≡ length payload = ap (λ (l : List ℕ). le16 l) k ∙ first in
      let k2 : le16 (drop 2 kept) ≡ cid = ap (λ (l : List ℕ). le16 (drop 2 l)) k ∙ channel in
      let n : 4 + le16 kept - 4 ≡ length payload = omega (arith, k1) in
      let k3 : take (4 + le16 kept - 4) (drop 4 kept) ≡ payload =
        ap (λ (j : ℕ). take j (drop 4 kept)) n
        ∙ ap (λ (l : List ℕ). take (length payload) (drop 4 l)) k
        ∙ rest in
      ground (arith, k1, k2, k3, here, size', whole, length-l2cap cid payload)
