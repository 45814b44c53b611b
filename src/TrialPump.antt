-- ===== src/TrialPump.antt =====
-- The timer that drives a trial, and its trace: firmware/radio/src/trial_pump.c. The list that is given
-- with a message is its bytes, so its length is the length argument; `now` is the time that
-- `esp_timer_get_time` returns. A build is the two macros, ULL_LIVE_USB and the trace's capacity.
pub mod Entries
pub mod Recorded
pub mod Drained
pub mod Pump
mod Examples
use open_ull_receiver.Base.{
  ℕ, zero, suc, ◌+◌, ◌-◌, ◌*◌, ◌%◌, ◌^◌, u32, inc32, Bool, true, false, not, ◌&&◌, ◌||◌, Option,
  none, some, List, [], ◌∷◌, ◌++◌, length, take, drop, put_at, replicate, get_or, same_bytes, ltb,
  leb, ◌==◌, if◌then◌else◌,
}
use open_ull_receiver.AirSession.{put32}
use open_ull_receiver.SpiFrame.{get32_at}

pub record Build : Type 0 where
  pub live : Bool
  pub trace_capacity : ℕ

abbrev pub trace_reserve : ℕ
trace_reserve = 128

-- The variables of the trace.
pub record Trace : Type 0 where
  pub buffer : List ℕ
  pub used : ℕ
  pub read : ℕ
  pub lost : ℕ
  pub base : ℕ
  pub recording : Bool
  pub frozen : Bool

abbrev pub byte_at : List ℕ → ℕ → ℕ
byte_at p i = get_or p i 0

-- "ULLP\3", "ULLA\1" with a final phase, and the 12 bytes of "ULL!\1"
pub trace_terminal : List ℕ → Bool
trace_terminal p =
    leb 8 (length p)
    && (same_bytes 5 p (85 ∷ 76 ∷ 76 ∷ 80 ∷ 3 ∷ [])
        || same_bytes 5 p (85 ∷ 76 ∷ 76 ∷ 65 ∷ 1 ∷ []) && leb 3 (byte_at p 5)
        || length p == 12 && same_bytes 5 p (85 ∷ 76 ∷ 76 ∷ 33 ∷ 1 ∷ []))

module _ (b : Build) where
  abbrev pub limit_for : List ℕ → ℕ
  limit_for p = if trace_terminal p then b.trace_capacity else b.trace_capacity - trace_reserve

  -- The test for a message that is lost.
  pub trace_refused : Trace → List ℕ → ℕ → Bool
  trace_refused t p now =
      length p == 0
      || ltb 103 (length p)
      || ltb now t.base
      || ltb (2 ^ 32 - 1) (now - t.base)
      || ltb (limit_for p) (t.used + 5 + length p)

  -- `ull_trial_trace_record`
  pub trace_record : Trace → List ℕ → ℕ → Trace × Bool
  trace_record t p now =
      if not t.recording
      then (t, false)
      else if b.live && not (trace_terminal p)
      then (t, true)
      else if trace_refused t p now
      then (record t { lost = inc32 t.lost }, true)
      else (
        record t {
          buffer =
              put_at (t.used + 5) p (
                put_at (t.used + 4) (length p ∷ [])
                  (put_at t.used (put32 (now - t.base)) t.buffer));
          used = t.used + 5 + length p;
        },
        true,
      )

-- `ull_trial_trace_next`: the time and the bytes of the next message.
pub trace_next : Trace → ℕ → Trace × Option (ℕ × List ℕ)
trace_next t room =
    let p = drop t.read t.buffer in
    let delta = get32_at 0 p in
    let n = byte_at p 4 in
    let t' = record t {
      buffer = put_at t.read (replicate (5 + n) 0) t.buffer;
      read = t.read + 5 + n;
      frozen = if t.read + 5 + n == t.used then false else t.frozen;
    } in
    if not t.frozen || t.read == t.used
    then (t, none)
    else if ltb room n || ltb t.used (t.read + 5 + n)
    then (t, none)
    else (t', some (t.base + delta, take n (drop 5 p)))

-- The end of `ull_trial_pump_finish`.
pub trace_freeze : Trace → Trace
trace_freeze t = record t { recording = false; frozen = not (t.used == 0) }

-- What `ull_trial_pump_start` does to the trace, when it may.
pub trace_begin : Trace → ℕ → Trace × Bool
trace_begin t now =
    if t.recording || t.frozen
    then (t, false)
    else (record t { used = 0; read = 0; lost = 0; base = now; recording = true }, true)
