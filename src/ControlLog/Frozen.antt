-- ===== src/ControlLog/Frozen.antt =====
-- The switch of firmware/radio/src/control_log.c against publishers that are already under way.
use open_ull_receiver.Base.{ℕ, ◌^◌, ◌<◌, ◌≡◌, ◌⊎◌, Bool, false, List, arith}
use open_ull_receiver.ControlLog.{Log, Origin, log_commit, log_publish, log_enable}

-- A publisher that read the generation before a switch, of the log on or off, changes nothing after it,
-- and none changes anything in a log that is off.
pub publish_after_switch :
    (before l : Log) (value : Bool) (origin : Origin) (header : ℕ) (p : List ℕ) (n now : ℕ)
    → l.generation < 2 ^ 32
    → before.generation ≡ l.generation ⊎ value ≡ false
    → log_publish before (log_enable l value) origin header p n now ≡ log_enable l value
unfolding log_publish log_commit log_enable
publish_after_switch before l value origin header p n now b h = ground arith
