-- ===== src/UsbControls/Booted.antt =====
-- When firmware/radio/components/ull_usb/usb_controls.c leaves for the bootloader.
use open_ull_receiver.Base.{
  ℕ, ◌+◌, ◌≡◌, refl, Bool, true, false, ◌&&◌, ◌||◌, List, [], ◌∷◌, if◌then◌else◌, arith, Bool-cases,
  inl, inr,
}
use open_ull_receiver.UsbControls.Requests.{Host, Stage, Request, at_ack, is_boot, vendor_request}

pub record Call : Type 0 where
  pub host : Host
  pub stage : Stage
  pub message : Request

-- The tasks that calls create, from a state of `boot_pending` on.
unfoldable pub boots : Bool → List Call → ℕ
boots b [] = 0
boots b (c ∷ cs) =
    let r = vendor_request b c.host c.stage c.message in (if r.2 then 1 else 0) + boots r.0 cs

-- Whether one of the calls is the acknowledged stage of the boot request, when the task can be created.
unfoldable pub asked : List Call → Bool
asked [] = false
asked (c ∷ cs) = at_ack c.stage && is_boot c.message && c.host.created || asked cs

boots_pending : (cs : List Call) → boots true cs ≡ 0
unfolding boots vendor_request
boots_pending [] = refl
boots_pending (c ∷ cs) = let h = boots_pending cs in ground (arith, h)

request_boots :
    (h : Host) (stage : Stage) (r : Request)
    → let boot = at_ack stage && is_boot r && h.created in
      ((vendor_request false h stage r).2 ≡ boot) × ((vendor_request false h stage r).0 ≡ boot)
unfolding vendor_request
request_boots h Stage.setup r = ground arith
request_boots h Stage.data_stage r = ground arith
request_boots h Stage.ack r = ground arith

-- However the callback is called, it creates the boot task once if the acknowledgement of the exact request comes
-- at some time with the memory for a task, and never otherwise: no other request and no other stage counts.
pub boots-asked : (cs : List Call) → boots false cs ≡ (if asked cs then 1 else 0)
unfolding boots asked
boots-asked [] = refl
boots-asked (c ∷ cs) =
    let h = boots-asked cs in
    let p = boots_pending cs in
    let (task, next) = request_boots c.host c.stage c.message in
    rw (task, next)
      (elim (Bool-cases (at_ack c.stage && is_boot c.message && c.host.created)) [
        | inl e ↦ rw e (omega (arith, p))
        | inr e ↦ rw e (omega (arith, h))
      ])
