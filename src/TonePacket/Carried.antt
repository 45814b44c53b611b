-- ===== src/TonePacket/Carried.antt =====
-- That a receiver finds in a packet of firmware/radio/src/tone_packet.c what it was built from.
use mathlib.Core.List.{append-nil}
use open_ull_receiver.Base.{
  ◌⊎◌, ℕ, ◌+◌, ◌*◌, ◌%◌, ◌≤◌, ◌<◌, ◌≡◌, refl, sym, ap, ◌∙◌, true, false, some, List, [], ◌∷◌, ◌++◌,
  length, take, drop, All, arith, Option-cases, inl, inr, bit_and, u8, u16, ◌>>>◌, length-take,
  length-drop,
}
use open_ull_receiver.Clock.{Time, IsTime, half_us, circle}
use open_ull_receiver.AirSession.{Plan, session_time, interval_us}
use open_ull_receiver.AirSession.Times.{session_time_lem}
use open_ull_receiver.AirFrame.{Building}
use open_ull_receiver.AirFrame.Scanning.{IsArray}
use open_ull_receiver.AirFrame.Receiver.{hear, heard_all}
use open_ull_receiver.AirFrame.Downlink.{hear-downlink_build}
use open_ull_receiver.Ccm.{nonce, Mbedtls, Session, Sealing, ccm_encrypt, ccm_decrypt}
use open_ull_receiver.Ccm.Cache.{IsCoherent}
use open_ull_receiver.Ccm.Sealed.{Opens, sealed_facts, ccm_decrypt-ccm_encrypt}
use open_ull_receiver.Csa2.{csa2_subevent, in_map}
use open_ull_receiver.Csa2.Channels.{csa2_subevent_iff}
use open_ull_receiver.TonePacket.{Pair, Options, Packet, Order, aggregate, frame_records, requested}
use open_ull_receiver.TonePacket.Build.{
  Packing, trailing, out_of_order, placed, packing, build_packet, audio_order,
}

-- The steps of a packet that is built.
record Steps {Context : Type 0} (lib : Mbedtls Context) (tone : ℕ → Pair (List ℕ))
    (session : Session Context) (plan : Plan) (o : Options) (order : Order) (packet : Packet)
    (bytes more sealed : List ℕ) (mask : ℕ) (place : Time × ℕ) : Type 0 where
  pub ordered : out_of_order plan o order ≡ false
  pub records : aggregate tone o order.content ≡ Building.built bytes mask
  pub place_found : placed plan o mask ≡ some place
  pub tail : trailing o order (length bytes) ≡ some more
  pub body_sealed :
      (ccm_encrypt lib session true
        (take 16 (drop 52 plan.e2))
        (take 8 (drop 44 plan.e2))
        o.packet_counter
        o.direction
        o.aad
        (bytes ++ more)
        205).1
      ≡ Sealing.sealed sealed
  pub whole :
      packing o place (length (bytes ++ more)) (Sealing.sealed sealed) ≡ Packing.packed packet

Building-cases :
    (b : Building)
    → ((bytes : List ℕ) × (mask : ℕ) × (b ≡ Building.built bytes mask))
      ⊎ (b ≡ Building.argument)
      ⊎ (b ≡ Building.over_capacity)
Building-cases Building.argument = inr (inl refl)
Building-cases Building.over_capacity = inr (inr refl)
Building-cases (Building.built bytes mask) = inl (bytes, mask, refl)

module _ {Context : Type 0} (lib : Mbedtls Context) (tone : ℕ → Pair (List ℕ))
    (session : Session Context) (plan : Plan) (o : Options) (order : Order) (packet : Packet) where
  -- The sealed bytes of a packet that was packed.
  packed_sealed :
      (place : Time × ℕ) (size : ℕ) (r : Sealing)
      → packing o place size r ≡ Packing.packed packet
      → (sealed : List ℕ) × (r ≡ Sealing.sealed sealed)
  unfolding packing
  packed_sealed place size Sealing.refused h = absurd (ground arith)
  packed_sealed place size Sealing.failed h = absurd (ground arith)
  packed_sealed place size (Sealing.sealed bytes) h = (bytes, refl)

  build_packet-Steps :
      (build_packet lib tone session (some plan) (some o) true order).1 ≡ Packing.packed packet
      → (bytes : List ℕ) × (more : List ℕ) × (sealed : List ℕ) × (mask : ℕ) × (place : Time × ℕ)
        × Steps lib tone session plan o order packet bytes more sealed mask place
  unfolding build_packet
  build_packet-Steps h = elim (Building-cases (aggregate tone o order.content)) [
    | inr (inl e) ↦ absurd (ground arith)
    | inr (inr e) ↦ absurd (ground arith)
    | inl (bytes, mask, e) ↦ elim (Option-cases (placed plan o mask)) [
      | inl e' ↦ absurd (ground arith)
      | inr (place, e') ↦ elim (Option-cases (trailing o order (length bytes))) [
        | inl t ↦ absurd (ground arith)
        | inr (more, t) ↦
            let r =
              (ccm_encrypt lib session true (take 16 (drop 52 plan.e2)) (take 8 (drop 44 plan.e2))
                o.packet_counter o.direction o.aad (bytes ++ more) 205).1 in
            let done : packing o place (length (bytes ++ more)) r ≡ Packing.packed packet =
              ground arith in
            let (sealed, s) = packed_sealed place (length (bytes ++ more)) r done in
            (
              bytes,
              more,
              sealed,
              mask,
              place,
              record {
                ordered = ground arith;
                records = e;
                place_found = e';
                tail = t;
                body_sealed = s;
                whole =
                    ap (λ (q : Sealing). packing o place (length (bytes ++ more)) q) (sym s) ∙ done;
              },
            )
      ]
    ]
  ]

packed_fields :
    (o : Options) (place : Time × ℕ) (size : ℕ) (sealed : List ℕ) (packet : Packet)
    → packing o place size (Sealing.sealed sealed) ≡ Packing.packed packet
    → (packet.start ≡ place.0)
      × (packet.channel ≡ place.1)
      × (packet.size ≡ u8 (size + 6))
      × (packet.pdu ≡ o.header ∷ u8 (size + 4) ∷ sealed)
unfolding packing
packed_fields o place size sealed packet h = ground arith

-- The frames of a caller are there for every stream of a mask.
frame_records-IsArray :
    (mask : ℕ) (tx ack : Pair ℕ) (frames : Pair (List ℕ))
    → 95 ≤ length frames.left
    → 95 ≤ length frames.right
    → All IsArray
        (frame_records mask tx ack (record { left = some frames.left; right = some frames.right }))
unfolding frame_records
frame_records-IsArray mask tx ack frames l r = ground (arith, l, r)

-- The place of a packet: the start of its frame on the grid, and a channel of the plan's map.
pub record IsPlaced (plan : Plan) (o : Options) (mask : ℕ) (packet : Packet) : Type 0 where
  pub streams : bit_and (o.header >>> 3) 15 ≡ mask
  pub time : IsTime packet.start
  pub grid :
      half_us packet.start ≡ (half_us plan.start + 2 * (o.event_index * interval_us)) % circle
  pub used : in_map (drop 19 plan.e2) packet.channel ≡ true
  pub channel : packet.channel < 37

placed-IsPlaced :
    (plan : Plan) (o : Options) (mask : ℕ) (packet : Packet) (place : Time × ℕ)
    → placed plan o mask ≡ some place
    → packet.start ≡ place.0
    → packet.channel ≡ place.1
    → IsPlaced plan o mask packet
unfolding placed
placed-IsPlaced plan o mask packet place h a b =
    let counter = u16 (plan.event_counter + o.event_index) in
    let channel = csa2_subevent plan.access_address counter (some (drop 19 plan.e2)) 1 true in
    elim (Option-cases (session_time (some plan) o.event_index 0 true)) [
      | inl e ↦ absurd (ground arith)
      | inr (start, e) ↦ elim (Option-cases channel) [
        | inl e' ↦ absurd (ground arith)
        | inr (c, e') ↦
            let at : packet.start ≡ start = ground arith in
            let on : packet.channel ≡ c = ground arith in
            let (timed, grid) = session_time_lem plan o.event_index 0 start e in
            let (used, small) =
              (csa2_subevent_iff plan.access_address counter (drop 19 plan.e2) 1).1 c e' in
            record {
              streams = ground arith;
              time = rw at timed;
              grid = rw at (omega (arith, grid));
              used = rw on used;
              channel = rw on small;
            }
      ]
    ]

module _ {Context : Type 0} (lib : Mbedtls Context) (tone : ℕ → Pair (List ℕ))
    (session receiver : Session Context) (plan : Plan) (o : Options) (frames : Pair (List ℕ))
    (packet : Packet) where
  -- An audio packet that `ull_audio_packet_build` builds is placed at the start of its frame on the
  -- session's grid, on a channel of the map, and carries its mask, its header and its length; a
  -- receiver with the key, the IV, the counter, the direction and the additional byte opens it, and
  -- hears in it exactly the frames of the streams that were asked for.
  pub build_packet_heard :
      Opens lib
      → IsCoherent lib session
      → IsCoherent lib receiver
      → length plan.e2 ≡ 68
      → 95 ≤ length frames.left
      → 95 ≤ length frames.right
      → (build_packet lib tone session (some plan) (some o) true (audio_order frames)).1
        ≡ Packing.packed packet
      → (bytes : List ℕ) × (mask : ℕ) × IsPlaced plan o mask packet
        × (take 2 packet.pdu ≡ o.header ∷ (length bytes + 4) ∷ [])
        × (packet.size ≡ length packet.pdu)
        × (length packet.pdu ≤ 207)
        × ((ccm_decrypt lib receiver true
              (take 16 (drop 52 plan.e2))
              (take 8 (drop 44 plan.e2))
              o.packet_counter
              o.direction
              o.aad
              (drop 2 packet.pdu)
              201).1
            ≡ Sealing.sealed bytes)
        × (hear (95 ∷ []) mask bytes
            ≡ some (
                heard_all (
                  frame_records
                    (requested o)
                    o.tx_sequence
                    o.ack_sequence
                    (record { left = some frames.left; right = some frames.right }))))
  unfolding packing trailing aggregate
  build_packet_heard opens i j sized l r h =
      let (bytes, more, sealed, mask, place, s) =
        build_packet-Steps lib tone session plan o (audio_order frames) packet h in
      let none_more : more ≡ [] = ground (arith, s.tail) in
      let body : bytes ++ more ≡ bytes =
        ap (λ (x : List ℕ). bytes ++ x) none_more ∙ append-nil bytes in
      let records =
        frame_records (requested o) o.tx_sequence o.ack_sequence
          (record { left = some frames.left; right = some frames.right }) in
      let (heard_them, short, fits) =
        hear-downlink_build 201 0 mask records (95 ∷ []) bytes
          (frame_records-IsArray (requested o) o.tx_sequence o.ack_sequence frames l r)
          (omega arith) s.records in
      let key = take 16 (drop 52 plan.e2) in
      let iv = take 8 (drop 44 plan.e2) in
      let key_size : length key ≡ 16 =
        omega (arith, length-take 16 (drop 52 plan.e2), length-drop 52 plan.e2) in
      let once =
        ap
          (λ (b : List ℕ).
            (ccm_encrypt lib session true key iv o.packet_counter o.direction o.aad b 205).1)
          (sym body)
        ∙ s.body_sealed in
      let (c, found, done, may) =
        sealed_facts lib session key iv bytes sealed o.packet_counter o.direction o.aad 205 i
          key_size once in
      let size = opens.tagged c (nonce o.packet_counter o.direction iv) o.aad bytes sealed done in
      let long : length (bytes ++ more) ≡ length bytes = ap (λ (b : List ℕ). length b) body in
      let e = packed_fields o place (length (bytes ++ more)) sealed packet s.whole in
      (
        bytes,
        mask,
        placed-IsPlaced plan o mask packet place s.place_found (e.0) (e.1),
        rw (e.3) (ap (λ (n : ℕ). o.header ∷ n ∷ []) (omega (arith, long, fits))),
        rw (e.3) (e.2 ∙ omega (arith, long, size, fits)),
        rw (e.3) (omega (arith, size, fits)),
        rw (e.3) (
            ccm_decrypt-ccm_encrypt lib session receiver key iv bytes sealed o.packet_counter
              o.direction o.aad 205 201 opens i j key_size fits once),
        heard_them,
      )
