-- ===== src/StatusProbe/Private.antt =====
-- What the counters of firmware/radio/src/status_probe.c may show.
use open_ull_receiver.Base.{
  ℕ, zero, suc, ◌+◌, ◌*◌, ◌%◌, ◌^◌, ◌<◌, ◌≡◌, inl, inr, false, some, List, [], ◌∷◌, drop, arith,
  All, IsByte, Bool-cases,
}
use open_ull_receiver.ParentAck.{byte_at}
use open_ull_receiver.StatusProbe.{
  Probe, is_setup, probe_observe, probe_air, probe_acl, probe_control_only,
}

-- The counts agree with one another, and neither of the two words that hold a command byte holds that
-- of a setup message.
pub record IsPrivate (s : Probe) : Type 0 where
  pub balance : (s.air_seen + s.acl_seen) % 2 ^ 32 ≡ (s.known_seen + s.unknown_seen) % 2 ^ 32
  pub unknown_command : is_setup (s.last_unknown % 2 ^ 8) ≡ false
  pub meta_command : is_setup (s.control_only_last_meta % 2 ^ 8) ≡ false

setup_of : (b m : ℕ) → b < 256 → is_setup b ≡ false → is_setup ((m * 2 ^ 8 + b) % 2 ^ 8) ≡ false
setup_of b m h e = let same : (m * 2 ^ 8 + b) % 2 ^ 8 ≡ b = omega arith in rw same e

probe_observe-IsPrivate :
    (s : Probe) (origin : ℕ) (p : List ℕ) (n : ℕ)
    → byte_at p 0 < 256
    → IsPrivate s
    → IsPrivate (probe_observe s origin p n)
unfolding probe_observe
probe_observe-IsPrivate s origin p n h v = elim (Bool-cases (is_setup (byte_at p 0))) [
  | inl e ↦ rw e (record {
    balance = ground arith;
    unknown_command = ground arith;
    meta_command = ground arith;
  })
  | inr e ↦
      let m = origin * 2 ^ 16 + n % 2 ^ 16 in
      let word : origin * 2 ^ 24 + n % 2 ^ 16 * 2 ^ 8 + byte_at p 0 ≡ m * 2 ^ 8 + byte_at p 0 =
        omega arith in
      let u = setup_of (byte_at p 0) m h e in
      rw (e, word)
        (record {
          balance = ground arith;
          unknown_command = ground (arith, u);
          meta_command = ground arith;
        })
]

byte_at-lt : (p : List ℕ) (i : ℕ) → All IsByte p → byte_at p i < 256
byte_at-lt [] i h = omega arith
byte_at-lt (x ∷ p) zero h = h.0
byte_at-lt (x ∷ p) (suc i) h = byte_at-lt p i h.1

All-drop : (k : ℕ) (p : List ℕ) → All IsByte p → All IsByte (drop k p)
All-drop zero p h = h
All-drop (suc k) [] h = tt
All-drop (suc k) (x ∷ p) h = All-drop k p h.1

probe_air-IsPrivate :
    (s : Probe) (header : ℕ) (p : List ℕ) (n : ℕ)
    → All IsByte p
    → IsPrivate s
    → IsPrivate (probe_air s header (some p) n)
unfolding probe_air
probe_air-IsPrivate s header p n h v =
    let seen =
      probe_observe-IsPrivate s 1 (drop 4 p) (byte_at p 0 + byte_at p 1 * 2 ^ 8)
        (byte_at-lt (drop 4 p) 0 (All-drop 4 p h)) v in
    record {
      balance = ground (arith, seen);
      unknown_command = ground (arith, seen);
      meta_command = ground (arith, seen);
    }

probe_acl-IsPrivate :
    (s : Probe) (p : List ℕ) (n : ℕ)
    → All IsByte p
    → IsPrivate s
    → IsPrivate (probe_acl s (some p) n)
unfolding probe_acl
probe_acl-IsPrivate s p n h v =
    let seen = probe_observe-IsPrivate s 2 p n (byte_at-lt p 0 h) v in
    record {
      balance = ground (arith, seen);
      unknown_command = ground (arith, seen);
      meta_command = ground (arith, seen);
    }

probe_control_only-IsPrivate :
    (s : Probe) (header : ℕ) (plain : List ℕ) (n : ℕ)
    → All IsByte plain
    → IsPrivate s
    → IsPrivate (probe_control_only s header (some plain) n)
unfolding probe_control_only
probe_control_only-IsPrivate s header plain n h v =
    let p = drop 3 plain in
    let b = byte_at p 4 in
    let small = byte_at-lt p 4 (All-drop 3 plain h) in
    elim (Bool-cases (is_setup b)) [
      | inl e ↦ rw e (record {
        balance = ground arith;
        unknown_command = ground arith;
        meta_command = ground arith;
      })
      | inr e ↦
          let u = setup_of b (byte_at p 0 + byte_at p 1 * 2 ^ 8) small e in
          rw e (record {
            balance = ground arith;
            unknown_command = ground arith;
            meta_command = ground (arith, u);
          })
    ]

abbrev pub probe_init : Probe
probe_init = record {
  air_seen = 0;
  acl_seen = 0;
  known_seen = 0;
  unknown_seen = 0;
  setup_hidden = 0;
  unframed_seen = 0;
  last_unknown = 0;
  control_only_seen = 0;
  control_only_proprietary = 0;
  control_only_setup_hidden = 0;
  control_only_last_meta = 0;
}

-- The states that calls of the three entry points lead to.
pub data Probed : Probe → Type 0 where
  started : Probed probe_init
  air :
      {s : Probe} (header : ℕ) (p : List ℕ) (n : ℕ)
      → All IsByte p
      → Probed s
      → Probed (probe_air s header (some p) n)
  acl : {s : Probe} (p : List ℕ) (n : ℕ) → All IsByte p → Probed s → Probed (probe_acl s (some p) n)
  control_only :
      {s : Probe} (header : ℕ) (p : List ℕ) (n : ℕ)
      → All IsByte p
      → Probed s
      → Probed (probe_control_only s header (some p) n)

-- After any packets whatever, the diagnostics page shows no command byte of a setup message: neither in
-- the word of the last unknown command nor in that of the last control-only one. The packets seen on
-- both paths are, modulo 2 ^ 32, those of a known shape and those of none.
pub Probed-IsPrivate : (s : Probe) → Probed s → IsPrivate s
Probed-IsPrivate _ Probed.started = ground arith
Probed-IsPrivate _ (Probed.air {s} header p n h r) =
    probe_air-IsPrivate s header p n h (Probed-IsPrivate s r)
Probed-IsPrivate _ (Probed.acl {s} p n h r) = probe_acl-IsPrivate s p n h (Probed-IsPrivate s r)
Probed-IsPrivate _ (Probed.control_only {s} header p n h r) =
    probe_control_only-IsPrivate s header p n h (Probed-IsPrivate s r)
