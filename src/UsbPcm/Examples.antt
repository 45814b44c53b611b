-- ===== src/UsbPcm/Examples.antt =====
-- Runs of the model of firmware/radio/components/ull_usb/usb_pcm.c.
use open_ull_receiver.Base.{
  ℕ, ◌+◌, ◌-◌, ◌*◌, ◌≡◌, refl, inr, some, List, [], ◌∷◌, ◌++◌, drop, replicate, length-replicate,
  arith,
}
use open_ull_receiver.UsbPcm.{Ring, ring_frames, pcm_push}
use open_ull_receiver.UsbPcm.Queue.{IsValid, contents}
use open_ull_receiver.UsbPcm.Push.{pcm_push_appends}

-- A stereo ring at the end of its array, with one frame queued.
abbrev ring : Ring
ring = record { samples = replicate 3840 9; read = 1919; count = 1; channels = 2 }

ring-IsValid : IsValid ring
ring-IsValid = record {
  room = length-replicate {A = ℕ} 3840 9;
  sides = inr refl;
  read_place = omega arith;
  fill = omega arith;
}

abbrev two_frames : List ℕ
two_frames = 1 ∷ 2 ∷ 3 ∷ 4 ∷ []

pcm_push_appends_example :
    let dropped = ring.count + 2 - ring_frames in
    ((pcm_push ring (some two_frames) 2).1 ≡ dropped)
    × (contents ((pcm_push ring (some two_frames) 2).0)
        ≡ drop (dropped * ring.channels) (contents ring ++ two_frames))
    × IsValid ((pcm_push ring (some two_frames) 2).0)
pcm_push_appends_example = pcm_push_appends ring two_frames 2 ring-IsValid (omega arith) refl
