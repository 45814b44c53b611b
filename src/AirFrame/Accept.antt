-- ===== src/AirFrame/Accept.antt =====
-- What `uplink_parse` of firmware/radio/src/air_frame.c accepts, as a whole packet.
use open_ull_receiver.Base.{
  ℕ, ◌≤◌, ◌<◌, ◌≡◌, ◌≢◌, refl, ap, ◌∙◌, ◌↔◌, Bool, true, false, Option, none, some, List, [], ◌∷◌,
  ◌++◌, length, get_or, bit_and, arith, Option-cases, inl, inr,
}
use open_ull_receiver.AirFrame.{
  RxRecord, ControlRecord, rx_records, trailer, contents, uplink_parse, Parsing, sizes_valid,
}
use open_ull_receiver.AirFrame.Parse.{
  rx_all, control_bytes, ForStreams, rx_records_sound, rx_records_complete,
}

-- Whether a trailer stands behind the records, and what it must say.
pub data Trailing : Bool → Option ControlRecord → Type 0 where
  absent : Trailing false none
  present :
      (c : ControlRecord)
      → bit_and c.header 3 ≢ 0
      → (length c.payload ≡ 0 → bit_and c.header 3 ≡ 1)
      → Trailing true (some c)

trailer_sound :
    (has_control : Bool) (src : List ℕ) (control : Option ControlRecord)
    → trailer has_control src ≡ some control
    → (src ≡ control_bytes control) × Trailing has_control control
unfolding trailer
trailer_sound false [] control h =
    let e : control ≡ none = ground arith in rw e (refl, Trailing.absent)
trailer_sound false (x ∷ xs) control h = absurd (ground arith)
trailer_sound true [] control h = absurd (ground arith)
trailer_sound true (x ∷ []) control h = absurd (ground arith)
trailer_sound true (x ∷ n ∷ payload) control h =
    let e : control ≡ some (record { payload = payload; header = x }) = ground arith in
    let m : n ≡ length payload = ground arith in
    rw e (
      ap (λ (k : ℕ). x ∷ k ∷ payload) m,
      Trailing.present (record { payload = payload; header = x }) (λ z. ground arith)
          (λ z. ground arith),
    )

trailer_complete :
    (has_control : Bool) (control : Option ControlRecord)
    → Trailing has_control control
    → trailer has_control (control_bytes control) ≡ some control
unfolding trailer
trailer_complete _ _ Trailing.absent = refl
trailer_complete _ _ (Trailing.present c p q) = ground (arith, p, q)

contents_sound :
    (has_control : Bool) (size mask : ℕ) (src : List ℕ) (rs : List RxRecord)
    (control : Option ControlRecord)
    → contents has_control size mask src ≡ some (rs, control)
    → (src ≡ rx_all rs ++ control_bytes control)
      × ForStreams size mask 4 0 rs
      × Trailing has_control control
unfolding contents
contents_sound has_control size mask src rs control h =
    elim (Option-cases (rx_records 4 0 size mask src)) [
      | inl e ↦ absurd (ground arith)
      | inr (p, e) ↦ elim (Option-cases (trailer has_control (p.1))) [
        | inl e' ↦ absurd (ground arith)
        | inr (c, e') ↦
            let parts : (rs ≡ p.0) × (control ≡ c) = ground arith in
            let one = rx_records_sound 4 0 size mask src (p.1) (p.0) e in
            let two = trailer_sound has_control (p.1) c e' in
            rw (parts.0)
              (rw (parts.1) (one.0 ∙ ap (λ (l : List ℕ). rx_all (p.0) ++ l) (two.0), one.1, two.1))
      ]
    ]

contents_complete :
    (has_control : Bool) (size mask : ℕ) (rs : List RxRecord) (control : Option ControlRecord)
    → ForStreams size mask 4 0 rs
    → Trailing has_control control
    → contents has_control size mask (rx_all rs ++ control_bytes control) ≡ some (rs, control)
unfolding contents
contents_complete has_control size mask rs control f t = ground (
  arith,
  rx_records_complete 4 0 size mask (control_bytes control) rs f,
  trailer_complete has_control control t,
)

-- A packet of the records `rs` and the trailer `control`, and the arguments that go with it.
pub record Accepted (lead mask capacity : ℕ) (sizes : List ℕ) (has_control : Bool)
    (rs : List RxRecord) (control : Option ControlRecord) : Type 0 where
  pub streams : mask ≢ 0
  pub high : bit_and mask 0xf0 ≡ 0
  pub sized : sizes_valid (some sizes) ≡ true
  pub short : length (rx_all rs ++ control_bytes control) < 255
  pub selector : bit_and lead 3 < length sizes
  pub records : ForStreams (get_or sizes (bit_and lead 3) 0) mask 4 0 rs
  pub trailing : Trailing has_control control
  pub room : length rs ≤ capacity

module _ (mask capacity : ℕ) (sizes : List ℕ) (has_control : Bool) (rs : List RxRecord)
    (control : Option ControlRecord) where
  parsed-contents :
      (lead : ℕ) (body : List ℕ)
      → uplink_parse (some (lead ∷ body)) mask (some sizes) true capacity has_control
        ≡ Parsing.parsed rs control
      → (mask ≢ 0)
        × (bit_and mask 0xf0 ≡ 0)
        × (sizes_valid (some sizes) ≡ true)
        × (length body < 255)
        × (bit_and lead 3 < length sizes)
        × (length rs ≤ capacity)
        × (contents has_control (get_or sizes (bit_and lead 3) 0) mask body ≡ some (rs, control))
  unfolding uplink_parse
  parsed-contents lead body h =
      elim (Option-cases (contents has_control (get_or sizes (bit_and lead 3) 0) mask body)) [
        | inl e ↦ absurd (ground arith)
        | inr (p, e) ↦ ground arith
      ]

  parsed-Accepted :
      (src : List ℕ)
      → uplink_parse (some src) mask (some sizes) true capacity has_control
        ≡ Parsing.parsed rs control
      → (lead : ℕ) × (src ≡ lead ∷ (rx_all rs ++ control_bytes control))
        × Accepted lead mask capacity sizes has_control rs control
  unfolding uplink_parse
  parsed-Accepted [] h = absurd (ground arith)
  parsed-Accepted (lead ∷ body) h =
      let (a, b, c, d, e, f, g) = parsed-contents lead body h in
      let (whole, fs, t) =
        contents_sound has_control (get_or sizes (bit_and lead 3) 0) mask body rs control g in
      (
        lead,
        ap (λ (l : List ℕ). lead ∷ l) whole,
        record {
          streams = a;
          high = b;
          sized = c;
          short = omega (arith, d, ap (λ (l : List ℕ). length l) whole);
          selector = e;
          records = fs;
          trailing = t;
          room = f;
        },
      )

  Accepted-parsed :
      (lead : ℕ)
      → Accepted lead mask capacity sizes has_control rs control
      → uplink_parse
          (some (lead ∷ (rx_all rs ++ control_bytes control)))
          mask
          (some sizes)
          true
          capacity
          has_control
        ≡ Parsing.parsed rs control
  unfolding uplink_parse
  Accepted-parsed lead a = ground (
    arith,
    a.streams,
    a.high,
    a.sized,
    a.short,
    a.selector,
    a.room,
    contents_complete has_control (get_or sizes (bit_and lead 3) 0) mask rs control a.records
        a.trailing,
  )

-- The parser is the inverse of the printer: it yields the records `rs` and the trailer `control`
-- exactly when the packet is one byte and then their bytes, to its end, and the records stand for
-- the streams of the mask in order, each with the payload that the selector and its flags say.
pub uplink_parse-Accepted :
    (src : List ℕ) (mask capacity : ℕ) (sizes : List ℕ) (has_control : Bool) (rs : List RxRecord)
    (control : Option ControlRecord)
    → (uplink_parse (some src) mask (some sizes) true capacity has_control
        ≡ Parsing.parsed rs control)
      ↔ ((lead : ℕ) × (src ≡ lead ∷ (rx_all rs ++ control_bytes control))
          × Accepted lead mask capacity sizes has_control rs control)
uplink_parse-Accepted src mask capacity sizes has_control rs control = (
  parsed-Accepted mask capacity sizes has_control rs control src,
  λ (lead, e, a). rw e (Accepted-parsed mask capacity sizes has_control rs control lead a),
)
