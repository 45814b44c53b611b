-- ===== src/AirFrame/Parse.antt =====
-- What the parser of firmware/radio/src/air_frame.c accepts: exactly the bytes that a printer of
-- records writes.
use mathlib.Core.List.{append_assoc}
use open_ull_receiver.Base.{
  ℕ, zero, suc, ◌+◌, ◌*◌, ◌/◌, ◌%◌, ◌≤◌, ◌<◌, ◌≡◌, ◌≢◌, refl, sym, ap, ap₂, ◌∙◌, Option, none, some,
  List, [], ◌∷◌, ◌++◌, length, take, drop, bit_and, ◌==◌, if◌then◌else◌, arith, take-append-drop,
  length-take, take_over, length-append, drop_over, Option-cases, ℕ_discrete, inl, inr, ◌<<<◌,
}
use open_ull_receiver.Base.Bits.{bit_and_ones}
use open_ull_receiver.AirFrame.{RxRecord, ControlRecord, rx_record, rx_records}

-- The bytes of a record and of a trailer.
abbrev pub rx_bytes : RxRecord → List ℕ
rx_bytes r = (r.tx_sequence * 16 + r.ack_sequence) ∷ r.flags ∷ r.payload

abbrev pub rx_all : List RxRecord → List ℕ
rx_all [] = []
rx_all (r ∷ rs) = rx_bytes r ++ rx_all rs

abbrev pub control_bytes : Option ControlRecord → List ℕ
control_bytes none = []
control_bytes (some c) = c.header ∷ length c.payload ∷ c.payload

-- A record of stream `id` whose fields agree with one another, for payloads of `size` bytes.
pub record RxFits (size id : ℕ) (r : RxRecord) : Type 0 where
  pub stream : r.stream_id ≡ id
  pub ack : r.ack_sequence < 16
  pub kind : r.kind ≡ r.flags % 4
  pub bytes : length r.payload ≡ (if bit_and r.flags 0x0c == 0 then size else 0)

-- Records for the streams of a mask, in order, `left` streams from `id` on.
pub data ForStreams (size mask : ℕ) : ℕ → ℕ → List RxRecord → Type 0 where
  done : {id : ℕ} → ForStreams size mask zero id []
  skipped :
      {left id : ℕ} {rs : List RxRecord}
      → bit_and mask (1 <<< id) ≡ 0
      → ForStreams size mask left (id + 1) rs
      → ForStreams size mask (suc left) id rs
  present :
      {left id : ℕ} {r : RxRecord} {rs : List RxRecord}
      → bit_and mask (1 <<< id) ≢ 0
      → RxFits size id r
      → ForStreams size mask left (id + 1) rs
      → ForStreams size mask (suc left) id (r ∷ rs)

take_here : (n : ℕ) (xs : List ℕ) → n ≤ length xs → length (take n xs) ≡ n
take_here n xs h = omega (arith, length-take n xs)

rx_record_parts :
    (size id a b : ℕ) (src rest : List ℕ) (r : RxRecord)
    → rx_record size id (a ∷ b ∷ src) ≡ some (r, rest)
    → let bytes = if bit_and b 0x0c == 0 then size else 0 in
      (bytes ≤ length src)
      × (r ≡ record {
        payload = take bytes src;
        stream_id = id;
        tx_sequence = a / 16;
        ack_sequence = bit_and a 15;
        kind = bit_and b 3;
        flags = b;
      })
      × (rest ≡ drop bytes src)
unfolding rx_record
rx_record_parts size id a b src rest r h = ground arith

rx_record_sound :
    (size id : ℕ) (src rest : List ℕ) (r : RxRecord)
    → rx_record size id src ≡ some (r, rest)
    → (src ≡ rx_bytes r ++ rest) × RxFits size id r
unfolding rx_record
rx_record_sound size id [] rest r h = absurd (ground arith)
rx_record_sound size id (a ∷ []) rest r h = absurd (ground arith)
rx_record_sound size id (a ∷ b ∷ src) rest r h =
    let (fit, er, es) = rx_record_parts size id a b src rest r h in
    rw er (
      rw es (
        ap₂ (λ (x : ℕ) (l : List ℕ). x ∷ b ∷ l) (omega (arith, bit_and_ones 4 a))
            (sym (take-append-drop (if bit_and b 0x0c == 0 then size else 0) src)),
        record {
          stream = refl;
          ack = omega (arith, bit_and_ones 4 a);
          kind = bit_and_ones 2 b;
          bytes = take_here (if bit_and b 0x0c == 0 then size else 0) src fit;
        },
      ))

rx_record_complete :
    (size id : ℕ) (rest : List ℕ) (r : RxRecord)
    → RxFits size id r
    → rx_record size id (rx_bytes r ++ rest) ≡ some (r, rest)
unfolding rx_record
rx_record_complete size id rest r f = ground (
  arith,
  length-append r.payload rest,
  f.stream,
  f.ack,
  f.kind,
  f.bytes,
  take_over (length r.payload) r.payload rest refl,
  drop_over (length r.payload) 0 (length r.payload) r.payload rest refl (omega arith),
  bit_and_ones 4 (r.tx_sequence * 16 + r.ack_sequence),
  bit_and_ones 2 r.flags,
)

pub rx_records_sound :
    (left id size mask : ℕ) (src rest : List ℕ) (rs : List RxRecord)
    → rx_records left id size mask src ≡ some (rs, rest)
    → (src ≡ rx_all rs ++ rest) × ForStreams size mask left id rs
unfolding rx_records
rx_records_sound zero id size mask src rest rs h =
    let e : (rs ≡ []) × (rest ≡ src) = ground arith in rw (e.0) (rw (e.1) (refl, ForStreams.done))
rx_records_sound (suc left) id size mask src rest rs h =
    elim (ℕ_discrete (bit_and mask (1 <<< id)) 0) [
      | yes z ↦
          let ih = rx_records_sound left (id + 1) size mask src rest rs (ground arith) in
          (ih.0, ForStreams.skipped z (ih.1))
      | no nz ↦ elim (Option-cases (rx_record size id src)) [
        | inl e ↦ absurd (ground arith)
        | inr (p, e) ↦ elim (Option-cases (rx_records left (id + 1) size mask (p.1))) [
          | inl e' ↦ absurd (ground arith)
          | inr (q, e') ↦
              let parts : (rs ≡ p.0 ∷ q.0) × (rest ≡ q.1) = ground arith in
              let one = rx_record_sound size id src (p.1) (p.0) e in
              let ih = rx_records_sound left (id + 1) size mask (p.1) (q.1) (q.0) e' in
              rw (parts.0) (
                rw (parts.1) (
                  one.0
                      ∙ ap (λ (l : List ℕ). rx_bytes (p.0) ++ l) (ih.0)
                      ∙ sym (append_assoc (rx_bytes (p.0)) (rx_all (q.0)) (q.1)),
                  ForStreams.present nz (one.1) (ih.1),
                ))
        ]
      ]
    ]

pub rx_records_complete :
    (left id size mask : ℕ) (rest : List ℕ) (rs : List RxRecord)
    → ForStreams size mask left id rs
    → rx_records left id size mask (rx_all rs ++ rest) ≡ some (rs, rest)
unfolding rx_records
rx_records_complete zero id size mask rest _ ForStreams.done = refl
rx_records_complete (suc left) id size mask rest rs (ForStreams.skipped e fs) =
    ground (arith, rx_records_complete left (id + 1) size mask rest rs fs)
rx_records_complete (suc left) id size mask rest _ (ForStreams.present {r = r} {rs = rs} e f fs) =
    ground (
      arith,
      rx_records_complete left (id + 1) size mask rest rs fs,
      rx_record_complete size id (rx_all rs ++ rest) r f,
      append_assoc (rx_bytes r) (rx_all rs) rest,
    )
