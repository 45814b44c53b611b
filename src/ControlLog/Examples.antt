-- ===== src/ControlLog/Examples.antt =====
-- Runs of the model of firmware/radio/src/control_log.c.
use open_ull_receiver.Base.{ℕ, true, List, [], ◌∷◌}
use open_ull_receiver.ControlLog.{Log, Origin, log_publish, log_enable}
use open_ull_receiver.ControlLog.Hidden.{IsValid, Reachable, Reachable-IsValid, log_init}

-- A mute message on the ACL, and a setup message.
abbrev mute : List ℕ
mute = 5 ∷ 1 ∷ 0 ∷ []

abbrev setup : List ℕ
setup = 226 ∷ 7 ∷ 7 ∷ []

abbrev on_log : Log
on_log = log_enable log_init true

abbrev both : Log
both = log_publish on_log (log_publish on_log on_log Origin.acl 0 mute 3 50) Origin.acl 0 setup 3 60

both-Reachable : Reachable both
both-Reachable =
    Reachable.published on_log Origin.acl 0 setup 3 60 (
      Reachable.published on_log Origin.acl 0 mute 3 50 (Reachable.switched true Reachable.started))

Reachable-IsValid_example : IsValid both
Reachable-IsValid_example = Reachable-IsValid both both-Reachable
