-- ===== src/TrialPump/Pump.antt =====
-- The pump of firmware/radio/src/trial_pump.c without its trace: the flags, the timer's callback, and
-- the controller's side.
pub mod Overlap
use open_ull_receiver.Base.{
  ℕ, ◌+◌, ◌-◌, ◌%◌, ◌^◌, u32, inc32, sub32, Bool, true, false, not, ◌&&◌, ◌||◌, List, ltb, ◌==◌,
  if◌then◌else◌,
}
use open_ull_receiver.TrialPump.{Build, byte_at}

pub record Pump : Type 0 where
  pub active : Bool
  pub pending : Bool
  pub continuous : Bool
  pub tick_running : ℕ
  pub requests : ℕ
  pub steps : ℕ
  pub max_dispatch_us : ℕ
  pub pending_since : ℕ
  pub started : ℕ

-- `ull_trial_pump_finish`; it freezes the trace too when the pump is active.
unfoldable pub pump_finish : Pump → Pump
pump_finish p = if not p.active then p else record p { active = false }

abbrev pub trial_us : Build → ℕ
trial_us b = if b.live then 310000000 else 3000000

-- The callback up to its check of `pending`: whether it goes on to submit a command.
unfoldable pub tick_gate : Build → Pump → ℕ → Pump × Bool
tick_gate b p now =
    if not p.continuous && ltb (p.started + trial_us b) now
    then (pump_finish p, false)
    else if p.pending
    then ((if ltb (p.pending_since + 20000) now then pump_finish p else p), false)
    else (p, true)

unfoldable pub tick_publish : Pump → ℕ → Pump
tick_publish p now = record p { pending_since = now; pending = true; requests = inc32 p.requests }

-- After the attempt to send.
unfoldable pub tick_sent : Pump → Bool → Pump
tick_sent p sent =
    if not sent then record p { requests = sub32 p.requests 1; pending = false } else p

-- `tick_body`
unfoldable pub tick_body : Build → Pump → ℕ → Bool → Pump
unfolding tick_gate tick_publish tick_sent
tick_body b p now sent =
    let gate = tick_gate b p now in
    if not p.active then p else if gate.1 then tick_sent (tick_publish gate.0 now) sent else gate.0

unfoldable pub tick_enter : Pump → Pump
tick_enter p = record p { tick_running = inc32 p.tick_running }

unfoldable pub tick_leave : Pump → Pump
tick_leave p = record p { tick_running = sub32 p.tick_running 1 }

-- `tick`
unfoldable pub tick : Build → Pump → ℕ → Bool → Pump
unfolding tick_body
tick b p now sent = tick_leave (tick_body b (tick_enter p) now sent)

-- `ull_trial_pump_busy`, when nothing else runs meanwhile.
pub pump_busy : Pump → Bool
pump_busy p = p.active || not (p.tick_running == 0) || p.pending

pub pump_continuous : Pump → Bool → Pump × Bool
pump_continuous p value =
    if pump_busy p then (p, false) else (record p { continuous = value }, true)

-- `ull_trial_pump_claim`
pub pump_claim : Pump → ℕ → Pump × Bool
pump_claim p now =
    let elapsed = sub32 (u32 now) (u32 p.pending_since) in
    if not p.active || not p.pending then (p, false) else (
      record p {
        max_dispatch_us = if ltb p.max_dispatch_us elapsed then elapsed else p.max_dispatch_us;
        steps = inc32 p.steps;
      },
      true,
    )

abbrev pub completion : List ℕ → ℕ → Bool
completion d n =
    n == 7
    && byte_at d 0 == 4
    && byte_at d 1 == 14
    && byte_at d 2 == 4
    && byte_at d 4 == 0xfe
    && byte_at d 5 == 0xfc

-- `ull_trial_pump_receive`
unfoldable pub pump_receive : Pump → List ℕ → ℕ → Pump × Bool
pump_receive p d n =
    let q = record p { pending = false } in
    if not (completion d n)
    then (p, false)
    else ((if not (byte_at d 6 == 0) then pump_finish q else q), true)

-- `ull_trial_pump_start` behind its tests: the counters, the time, and the flag; the timer may refuse.
pub pump_start : Pump → ℕ → Bool → Pump × Bool
pump_start p now timer =
    let q = record p {
      requests = 0;
      steps = 0;
      max_dispatch_us = 0;
      started = now;
      active = true;
    } in
    if not timer then (pump_finish q, false) else (q, true)
