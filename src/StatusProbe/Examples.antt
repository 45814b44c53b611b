-- ===== src/StatusProbe/Examples.antt =====
-- Runs of the model of firmware/radio/src/status_probe.c.
use open_ull_receiver.Base.{ℕ, List, [], ◌∷◌, arith}
use open_ull_receiver.StatusProbe.{Probe}
use open_ull_receiver.StatusProbe.Private.{Probed, IsPrivate, Probed-IsPrivate}

-- A volume message in a frame for channel 0x0101, and a setup message on the ACL.
abbrev volume : List ℕ
volume = 6 ∷ 0 ∷ 1 ∷ 1 ∷ 4 ∷ 1 ∷ 0 ∷ 50 ∷ 50 ∷ 0 ∷ []

abbrev setup : List ℕ
setup = 226 ∷ 1 ∷ []

run_Probed : (s : Probe) × Probed s
run_Probed = (
  _,
  Probed.control_only 1 (2 ∷ 2 ∷ 0 ∷ []) 3 (omega arith)
      (Probed.acl setup 2 (omega arith) (Probed.air 2 volume 10 (omega arith) Probed.started)),
)

Probed-IsPrivate_example : IsPrivate run_Probed.0
Probed-IsPrivate_example = Probed-IsPrivate run_Probed.0 run_Probed.1
