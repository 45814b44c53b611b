-- ===== src/StatusProbe.antt =====
-- The counters of control messages: firmware/radio/src/status_probe.c. Its atomic variables are read and
-- written one by one; a list is the bytes behind a pointer, `none` stands for NULL.
pub mod Private
mod Examples
use open_ull_receiver.Base.{
  ℕ, zero, suc, ◌+◌, ◌-◌, ◌*◌, ◌%◌, ◌/◌, ◌^◌, inc32, Bool, true, false, not, ◌&&◌, ◌||◌, none, some,
  Option, List, [], ◌∷◌, drop, ltb, leb, ◌==◌, if◌then◌else◌,
}
use open_ull_receiver.ParentAck.{byte_at, is_wheel, is_media, is_mic}

pub record Probe : Type 0 where
  pub air_seen : ℕ
  pub acl_seen : ℕ
  pub known_seen : ℕ
  pub unknown_seen : ℕ
  pub setup_hidden : ℕ
  pub unframed_seen : ℕ
  pub last_unknown : ℕ
  pub control_only_seen : ℕ
  pub control_only_proprietary : ℕ
  pub control_only_setup_hidden : ℕ
  pub control_only_last_meta : ℕ

pub known_scalar : List ℕ → ℕ → Bool
known_scalar p n =
    is_wheel (some p) n
    || is_media (some p) n
    || is_mic (some p) n
    || n == 6
      && byte_at p 0 == 4
      && (byte_at p 1 == 1 || byte_at p 1 == 2)
      && byte_at p 2 == 0
      && leb (byte_at p 3) 100
      && leb (byte_at p 4) 100
      && byte_at p 5 == 0
    || n == 3
      && (byte_at p 0 == 5 || byte_at p 0 == 6)
      && (byte_at p 1 == 1 || byte_at p 1 == 2)
      && byte_at p 2 == 0

abbrev pub is_setup : ℕ → Bool
is_setup op = op == 14 || op == 15 || leb 224 op && leb op 228

-- `observe`, of a pointer that is not NULL; the origin is 1 for Air and 2 for the ACL.
pub probe_observe : Probe → ℕ → List ℕ → ℕ → Probe
probe_observe s origin p n =
    let counted =
      if origin == 1
      then record s { air_seen = inc32 s.air_seen }
      else record s { acl_seen = inc32 s.acl_seen } in
    if n == 0
    then s
    else if is_setup (byte_at p 0)
    then record s { setup_hidden = inc32 s.setup_hidden }
    else if known_scalar p n
    then record counted { known_seen = inc32 s.known_seen }
    else record counted {
      last_unknown = origin * 2 ^ 24 + n % 2 ^ 16 * 2 ^ 8 + byte_at p 0;
      unknown_seen = inc32 s.unknown_seen;
    }

abbrev pub l2cap_size : List ℕ → ℕ
l2cap_size p = byte_at p 0 + byte_at p 1 * 2 ^ 8

-- `ull_status_probe_air`
pub probe_air : Probe → ℕ → Option (List ℕ) → ℕ → Probe
probe_air s header none n = s
probe_air s header (some p) n =
    if ltb n 4 || not (header % 4 == 2)
    then s
    else if not (l2cap_size p == n - 4) || not (byte_at p 2 == 1) || not (byte_at p 3 == 1)
    then record s { unframed_seen = inc32 s.unframed_seen }
    else probe_observe s 1 (drop 4 p) (l2cap_size p)

-- `ull_status_probe_acl`
pub probe_acl : Probe → Option (List ℕ) → ℕ → Probe
probe_acl s none n = s
probe_acl s (some p) n = if not (n == 0) && leb n 4092 then probe_observe s 2 p n else s

-- The first test of `ull_status_probe_control_only`: streams announced, no control, or a wrong length.
pub not_control_only : ℕ → List ℕ → ℕ → Bool
not_control_only header p n =
    not (header / 8 % 16 == 0)
    || header % 2 == 0
    || ltb n 3
    || not (byte_at p 2 + 3 == n)
    || byte_at p 1 % 4 == 0
    || byte_at p 2 == 0 && not (byte_at p 1 % 4 == 1)

-- `ull_status_probe_control_only`
pub probe_control_only : Probe → ℕ → Option (List ℕ) → ℕ → Probe
probe_control_only s header none n = s
probe_control_only s header (some plain) n =
    let t = record s { control_only_seen = inc32 s.control_only_seen } in
    let p = drop 3 plain in
    let size = l2cap_size p in
    if not_control_only header plain n
    then s
    else if not (byte_at plain 1 % 4 == 2) || ltb (byte_at plain 2) 5
    then t
    else if not (size == byte_at plain 2 - 4) || not (byte_at p 2 == 1) || not (byte_at p 3 == 1)
    then t
    else if is_setup (byte_at p 4)
    then record t { control_only_setup_hidden = inc32 s.control_only_setup_hidden }
    else record t {
      control_only_proprietary = inc32 s.control_only_proprietary;
      control_only_last_meta = size * 2 ^ 8 + byte_at p 4;
    }

-- `ull_status_probe_snapshot`: the fifteen words; the caller has zeroed the three that are not written.
pub probe_snapshot : Probe → List ℕ
probe_snapshot s =
    s.air_seen ∷ s.acl_seen ∷ s.known_seen ∷ s.unknown_seen ∷ s.setup_hidden ∷ s.unframed_seen
    ∷ s.last_unknown ∷ s.control_only_seen ∷ s.control_only_proprietary
    ∷ s.control_only_setup_hidden ∷ s.control_only_last_meta ∷ 0 ∷ 0 ∷ 0 ∷ 2 ∷ []
