-- ===== src/UsbControls/Requests.antt =====
-- The feature reports and the vendor requests of firmware/radio/components/ull_usb/usb_controls.c.
use open_ull_receiver.Base.{
  ℕ, ◌+◌, ◌-◌, ◌/◌, ◌%◌, Bool, true, false, not, ◌&&◌, ◌||◌, none, some, Option, List, [], ◌∷◌, ltb,
  leb, ◌==◌, if◌then◌else◌,
}

-- `read_diagnostics`: the four bytes of the tag, if the page is there; `callback` is whether one is set.
unfoldable pub read_diagnostics : Bool → ℕ → Option (List ℕ)
read_diagnostics callback page =
    if not (page == 15) && (ltb 14 page || not callback)
    then none
    else some (0x52 ∷ 0x46 ∷ (0x30 + page / 10) ∷ (0x30 + page % 10) ∷ [])

-- `tud_hid_get_report_cb`: the tag of the 64 bytes that are copied, or none for 0.
unfoldable pub hid_get_report : Bool → ℕ → ℕ → Bool → Bool → ℕ → Option (List ℕ)
hid_get_report callback instance_id report_id feature buffer room =
    if not (instance_id == 0)
      || not feature
      || not buffer
      || ltb room 64
      || ltb report_id 0x10
      || ltb 0x1f report_id
    then none
    else read_diagnostics callback (report_id - 0x10)

-- `tusb_control_request_t`
pub record Request : Type 0 where
  pub request_type : ℕ
  pub code : ℕ
  pub value : ℕ
  pub index : ℕ
  pub size : ℕ

pub data Stage : Type 0 where
  setup data_stage ack : Stage

abbrev pub at_setup : Stage → Bool
at_setup Stage.setup = true
at_setup Stage.data_stage = false
at_setup Stage.ack = false

abbrev pub at_ack : Stage → Bool
at_ack Stage.setup = false
at_ack Stage.data_stage = false
at_ack Stage.ack = true

abbrev pub is_page : Request → Bool
is_page r =
    r.request_type == 0xc0 && r.code == 0x5c && leb r.value 15 && r.index == 0 && r.size == 64

abbrev pub is_health : Request → Bool
is_health r =
    r.request_type == 0xc0 && r.code == 0x5b && r.value == 0 && r.index == 0 && r.size == 16

abbrev pub is_boot : Request → Bool
is_boot r =
    r.request_type == 0x40
    && r.code == 0x5a
    && r.value == 0xb007
    && r.index == 0xc0de
    && r.size == 0

-- What the rest of the program answers: whether the diagnostics callback is set, whether the bootloader is
-- allowed, whether TinyUSB takes the transfer, and whether the task is created.
pub record Host : Type 0 where
  pub callback : Bool
  pub allowed : Bool
  pub transfers : Bool
  pub created : Bool

abbrev pub is_page_there : Option (List ℕ) → Bool
is_page_there none = false
is_page_there (some tag) = true

-- `tud_vendor_control_xfer_cb`: `boot_pending` after it, its result, and whether the boot task was created.
unfoldable pub vendor_request : Bool → Host → Stage → Request → Bool × Bool × Bool
vendor_request boot_pending h stage r =
    if is_page r
    then (
      boot_pending,
      not (at_setup stage) || is_page_there (read_diagnostics h.callback r.value) && h.transfers,
      false,
    )
    else if is_health r
    then (boot_pending, not (at_setup stage) || h.transfers, false)
    else if not (is_boot r)
    then (boot_pending, false, false)
    else if at_setup stage
    then (boot_pending, not (boot_pending || not h.allowed) && h.transfers, false)
    else if at_ack stage && not boot_pending
    then (h.created, true, h.created)
    else (boot_pending, true, false)
