-- ===== src/AudioSource.antt =====
-- The queue of encoded frames between the encoder and the radio controller:
-- firmware/radio/src/audio_source.h, firmware/radio/src/audio_source.c, and the pause barrier of
-- firmware/radio/src/reconnect_barrier.h. Each operation is modelled as run by its one caller while
-- the other side stands still.
pub mod Contents
pub mod Queueing
pub mod Latches
pub mod Rearm
pub mod History
mod Examples
use open_ull_receiver.Base.{
  ℕ, ◌+◌, bit_and, sub32, inc32, u32, Bool, true, false, not, ◌&&◌, Option, none, some, List,
  replicate, get_or, set, leb, ltb, ◌==◌, if◌then◌else◌,
}

-- ULL_AUDIO_QUEUE_FRAMES and ULL_AIR_AUDIO_CHANNEL_BYTES
abbrev pub queue_frames : ℕ
queue_frames = 4

abbrev pub channel_bytes : ℕ
channel_bytes = 95

-- `uint8_t [2][95]`: the encoded audio of one frame.
pub record Frame : Type 0 where
  pub left : List ℕ
  pub right : List ℕ

abbrev pub silence : Frame
silence = record { left = replicate channel_bytes 0; right = replicate channel_bytes 0 }

-- The frame that a radio event has been given, or the fact that there was none.
pub record Latch : Type 0 where
  pub event : ℕ
  pub valid : Bool
  pub present : Bool
  pub frame : Frame

abbrev pub cleared : Latch
cleared = record { event = 0; valid = false; present = false; frame = silence }

-- `struct ull_audio_source`; `latch0` and `latch1` are `latch[2]`.
pub record Source : Type 0 where
  pub written : ℕ
  pub read : ℕ
  pub requested : Bool
  pub queue : List Frame
  pub latch0 : Latch
  pub latch1 : Latch
  pub last_event : ℕ
  pub selected : ℕ
  pub underflows : ℕ
  pub discarded : ℕ
  pub selected_any : Bool

unfoldable pub init : Source
init = record {
  written = 0;
  read = 0;
  requested = false;
  queue = replicate queue_frames silence;
  latch0 = cleared;
  latch1 = cleared;
  last_event = 0;
  selected = 0;
  underflows = 0;
  discarded = 0;
  selected_any = false;
}

-- `written & (ULL_AUDIO_QUEUE_FRAMES - 1)`
abbrev pub index : ℕ → ℕ
index n = bit_and n 3

-- `none` stands for NULL.
unfoldable pub push : Source → Option Frame → Source × Bool
push s none = (s, false)
push s (some f) =
    if leb queue_frames (sub32 s.written s.read)
    then (s, false)
    else (record s { queue = set s.queue (index s.written) f; written = inc32 s.written }, true)

-- The result of `select`: -1, 0, or 1 with the frame that is copied out.
pub data Selection : Type 0 where
  refused empty : Selection
  encoded : Frame → Selection

abbrev pub holds : Latch → ℕ → Bool
holds l event = l.valid && l.event == event

abbrev pub latched : Latch → Selection
latched l = if l.present then Selection.encoded l.frame else Selection.empty

abbrev pub put_latch : Source → ℕ → Latch → Source
put_latch s slot l = if slot == 0 then record s { latch0 = l } else record s { latch1 = l }

-- What both ends of `select` do for a new event: publish the read index, and keep the latch in the
-- slot of the selection count.
abbrev pub publish : Source → ℕ → ℕ → Latch → Source
publish s event read l =
    let t = put_latch s (bit_and s.selected 1) l in
    record t { read = read; last_event = event; selected_any = true; selected = inc32 s.selected }

-- A new event, once `late` of the `queued` frames are known to be late.
unfoldable pub take_next : Source → ℕ → ℕ → ℕ → Source × Selection
take_next s event queued late =
    let read = u32 (s.read + late) in
    let s1 = if late == 0 then s else record s { discarded = u32 (s.discarded + late) } in
    if sub32 queued late == 0
    then (
      publish (record s1 { underflows = inc32 s.underflows }) event read
          (record { event = event; valid = true; present = false; frame = silence }),
      Selection.empty,
    )
    else let f = get_or s.queue (index read) silence in
      (
        publish s1 event (inc32 read)
            (record { event = event; valid = true; present = true; frame = f }),
        Selection.encoded f,
      )

-- `available`, `skipped` and `discard` of `select`
abbrev pub available : Source → ℕ
available s = sub32 s.written s.read

abbrev pub passed_over : Source → ℕ → ℕ
passed_over s event = if s.selected_any then sub32 (sub32 event s.last_event) 1 else 0

abbrev pub discard : Source → ℕ → ℕ
discard s event =
    if ltb (passed_over s event) (available s) then passed_over s event else available s

-- An event that neither latch holds.
unfoldable pub select_new : Source → ℕ → Source × Selection
select_new s event =
    if s.selected_any && leb event s.last_event
    then (s, Selection.refused)
    else if ltb queue_frames (available s)
    then (s, Selection.refused)
    else take_next s event (available s) (discard s event)

-- `given` is false for a NULL destination.
unfoldable pub select : Source → ℕ → Bool → Source × Selection
select s event given =
    if not given
    then (s, Selection.refused)
    else let s1 = record s { requested = true } in
      if holds s.latch0 event
      then (s1, latched s.latch0)
      else if holds s.latch1 event
      then (s1, latched s.latch1)
      else select_new s1 event

-- `struct ull_audio_source_stats`; `queued` is `none` where `queue_valid` is false.
pub record Stats : Type 0 where
  pub selected : ℕ
  pub underflows : ℕ
  pub discarded : ℕ
  pub queued : Option ℕ

-- With the other side at rest the first of the three attempts decides.
pub stats : Source → Stats
stats s = record {
  selected = s.selected;
  underflows = s.underflows;
  discarded = s.discarded;
  queued =
      if leb (sub32 s.written s.read) queue_frames then some (sub32 s.written s.read) else none;
}

-- `struct ull_reconnect_barrier`, a coordinator's request and a worker's answer.
pub record Barrier : Type 0 where
  pub requested : Bool
  pub acknowledged : Bool

unfoldable pub request : Barrier → Barrier
request b = record b { requested = true }

unfoldable pub acknowledge : Barrier → Barrier
acknowledge b = record b { acknowledged = true }

unfoldable pub resume : Barrier → Barrier
resume b = record b { requested = false }

unfoldable pub depart : Barrier → Barrier
depart b = record b { acknowledged = false }

unfoldable pub paused : Barrier → Bool
paused b = b.requested && b.acknowledged

-- `none` is a NULL barrier.
unfoldable pub rearm : Source → Option Barrier → Source × Bool
rearm s none = (s, false)
rearm s (some b) =
    if not (paused b)
    then (s, false)
    else if ltb queue_frames (sub32 s.written s.read)
    then (s, false)
    else (
      record s {
        discarded = u32 (s.discarded + sub32 s.written s.read);
        read = s.written;
        requested = false;
        latch0 = cleared;
        latch1 = cleared;
        last_event = 0;
        selected_any = false;
      },
      true,
    )
