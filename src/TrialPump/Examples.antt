-- ===== src/TrialPump/Examples.antt =====
-- Runs of the model of firmware/radio/src/trial_pump.c.
use open_ull_receiver.Base.{
  ℕ, ◌≡◌, refl, true, false, List, [], ◌∷◌, replicate, length-replicate, arith,
}
use open_ull_receiver.TrialPump.{Build, Trace, trace_freeze, trace_begin}
use open_ull_receiver.TrialPump.Drained.{drain, record_all, kept, drain-record_all}
use open_ull_receiver.TrialPump.Pump.{
  Pump, pump_finish, tick_gate, tick_publish, tick_sent, tick_enter, tick_leave, pump_receive,
}
use open_ull_receiver.TrialPump.Pump.Overlap.{
  System, Step, Run, IsConsistent, may_publish, Run-idle_seen, resting, asked, idle_seen,
}

abbrev build : Build
build = record { live = false; trace_capacity = 256 }

abbrev fresh : Trace
fresh = record {
  buffer = replicate 256 0;
  used = 0;
  read = 0;
  lost = 0;
  base = 0;
  recording = false;
  frozen = false;
}

-- Two messages, and between them one that was recorded before the base.
abbrev calls : List (ℕ × List ℕ)
calls = (1000, 7 ∷ 8 ∷ []) ∷ (900, 1 ∷ []) ∷ (2000, 9 ∷ []) ∷ []

drain-record_all_example :
    let begun = (trace_begin fresh 950).0 in
    drain 3 (trace_freeze (record_all build begun calls)) 103 ≡ kept build begun calls
drain-record_all_example =
    drain-record_all build fresh 950 103 3 calls (length-replicate {A = ℕ} 256 0) refl refl
      (omega arith) (omega arith)

abbrev idle_pump : Pump
idle_pump = record {
  active = true;
  pending = false;
  continuous = false;
  tick_running = 0;
  requests = 0;
  steps = 0;
  max_dispatch_us = 0;
  pending_since = 0;
  started = 100;
}

abbrev start_system : System
start_system = record { pump = idle_pump; callback = resting; query = asked }

start-IsConsistent : IsConsistent start_system
start-IsConsistent = ground arith

-- The pump stops while a command is being sent; its completion comes between the loads.
abbrev completion_event : List ℕ
completion_event = 4 ∷ 14 ∷ 4 ∷ 1 ∷ 0xfe ∷ 0xfc ∷ 0 ∷ []

busy_run : (t : System) × Run build start_system t × (t.query ≡ idle_seen)
unfolding pump_finish tick_gate tick_publish tick_sent tick_enter tick_leave pump_receive
busy_run =
    let s1 = Run.next Run.here (Step.enter start_system refl) in
    let s2 = Run.next s1 (Step.check _ refl) in
    let s3 = Run.next s2 (Step.gate _ 200 refl) in
    let s4 = Run.next s3 (Step.submit _ 200 refl) in
    let s5 = Run.next s4 (Step.finish _) in
    let s6 = Run.next s5 (Step.load_active _ refl) in
    let s7 = Run.next s6 (Step.send _ true refl) in
    let s8 = Run.next s7 (Step.leave _ refl) in
    let s9 = Run.next s8 (Step.load_running _ refl) in
    let s10 = Run.next s9 (Step.receive _ completion_event 7) in
    (_, Run.next s10 (Step.load_pending _ refl), refl)

Run-idle_seen_example :
    let t = busy_run.0 in
    (t.pump.active ≡ false) × (t.pump.pending ≡ false) × (may_publish t.callback ≡ false)
Run-idle_seen_example = Run-idle_seen start-IsConsistent busy_run.1 busy_run.2
