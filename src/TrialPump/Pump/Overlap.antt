-- ===== src/TrialPump/Pump/Overlap.antt =====
-- `ull_trial_pump_busy` of firmware/radio/src/trial_pump.c while the timer's callback runs: the three
-- loads and the atomic accesses of the callback in any order.
use open_ull_receiver.Base.{ℕ, ◌≡◌, Bool, true, false, List, ◌==◌, if◌then◌else◌, arith}
use open_ull_receiver.TrialPump.{Build}
use open_ull_receiver.TrialPump.Pump.{
  Pump, pump_finish, tick_gate, tick_publish, tick_sent, tick_enter, tick_leave, pump_receive,
  pump_claim,
}

-- Where the callback is: at rest, before its first load, past it, past the load of `pending`, with a
-- command published, or about to return.
pub data Callback : Type 0 where
  resting entered checked submitting published returning : Callback

-- How many of the three loads have found nothing.
pub data Query : Type 0 where
  asked no_active no_callback idle_seen : Query

pub record System : Type 0 where
  pub pump : Pump
  pub callback : Callback
  pub query : Query

-- One atomic access.
pub data Step (b : Build) : System → System → Type 0 where
  enter :
      (s : System)
      → s.callback ≡ resting
      → Step b s (record s { pump = tick_enter s.pump; callback = entered })
  check :
      (s : System)
      → s.callback ≡ entered
      → Step b s (record s { callback = if s.pump.active then checked else returning })
  gate :
      (s : System) (now : ℕ)
      → s.callback ≡ checked
      → Step b s (record s {
        pump = (tick_gate b s.pump now).0;
        callback = if (tick_gate b s.pump now).1 then submitting else returning;
      })
  submit :
      (s : System) (now : ℕ)
      → s.callback ≡ submitting
      → Step b s (record s { pump = tick_publish s.pump now; callback = published })
  send :
      (s : System) (sent : Bool)
      → s.callback ≡ published
      → Step b s (record s { pump = tick_sent s.pump sent; callback = returning })
  leave :
      (s : System)
      → s.callback ≡ returning
      → Step b s (record s { pump = tick_leave s.pump; callback = resting })
  finish : (s : System) → Step b s (record s { pump = pump_finish s.pump })
  receive :
      (s : System) (d : List ℕ) (n : ℕ) → Step b s (record s { pump = (pump_receive s.pump d n).0 })
  claim : (s : System) (now : ℕ) → Step b s (record s { pump = (pump_claim s.pump now).0 })
  ask : (s : System) → Step b s (record s { query = asked })
  load_active :
      (s : System)
      → s.query ≡ asked
      → Step b s (record s { query = if s.pump.active then asked else no_active })
  load_running :
      (s : System)
      → s.query ≡ no_active
      → Step b s (record s { query = if s.pump.tick_running == 0 then no_callback else asked })
  load_pending :
      (s : System)
      → s.query ≡ no_callback
      → Step b s (record s { query = if s.pump.pending then asked else idle_seen })

pub data Run (b : Build) (s : System) : System → Type 0 where
  here : Run b s s
  next : {t u : System} → Run b s t → Step b t u → Run b s u

-- The callback may still publish a command.
abbrev pub may_publish : Callback → Bool
may_publish checked = true
may_publish submitting = true
may_publish published = true
may_publish c = false

abbrev pub is_resting : Callback → Bool
is_resting resting = true
is_resting c = false

abbrev pub past_active : Query → Bool
past_active asked = false
past_active q = true

abbrev pub past_callback : Query → Bool
past_callback no_callback = true
past_callback idle_seen = true
past_callback q = false

abbrev pub past_pending : Query → Bool
past_pending idle_seen = true
past_pending q = false

pub record IsConsistent (s : System) : Type 0 where
  pub counted : s.pump.tick_running ≡ (if is_resting s.callback then 0 else 1)
  pub inactive : past_active s.query ≡ true → s.pump.active ≡ false
  pub quiet : past_callback s.query ≡ true → may_publish s.callback ≡ false
  pub settled : past_pending s.query ≡ true → s.pump.pending ≡ false

pub Step-IsConsistent : {b : Build} {s t : System} → Step b s t → IsConsistent s → IsConsistent t
unfolding pump_finish tick_gate tick_publish tick_sent tick_enter tick_leave pump_receive pump_claim
Step-IsConsistent (enter s e) v = ground arith
Step-IsConsistent (check s e) v = ground arith
Step-IsConsistent (gate s now e) v = ground arith
Step-IsConsistent (submit s now e) v = ground arith
Step-IsConsistent (send s sent e) v = ground arith
Step-IsConsistent (leave s e) v = ground arith
Step-IsConsistent (finish s) v = ground arith
Step-IsConsistent (receive s d n) v = ground arith
Step-IsConsistent (claim s now) v = ground arith
Step-IsConsistent (ask s) v = ground arith
Step-IsConsistent (load_active s e) v = ground arith
Step-IsConsistent (load_running s e) v = ground arith
Step-IsConsistent (load_pending s e) v = ground arith

Run-IsConsistent : {b : Build} {s t : System} → IsConsistent s → Run b s t → IsConsistent t
Run-IsConsistent v here = v
Run-IsConsistent v (next r st) = Step-IsConsistent st (Run-IsConsistent v r)

-- A query that begins anywhere in a run and whose three loads, in the code's order, find nothing is
-- right: however the callback, completions and stops come between the loads and after them, the pump is
-- inactive, no command is pending, and the callback cannot publish one.
pub Run-idle_seen :
    {b : Build} {s t : System}
    → IsConsistent s
    → Run b s t
    → t.query ≡ idle_seen
    → (t.pump.active ≡ false) × (t.pump.pending ≡ false) × (may_publish t.callback ≡ false)
Run-idle_seen v r e = ground (arith, Run-IsConsistent v r)
