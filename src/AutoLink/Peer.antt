-- ===== src/AutoLink/Peer.antt =====
-- The state of firmware/radio/src/auto_link.c. The bytes of the bond and of the device are parameters, since
-- they are generated; a buffer is the list of its bytes.
use open_ull_receiver.Base.{
  ℕ, ◌+◌, ◌*◌, ◌^◌, Bool, true, false, Option, List, [], ◌∷◌, ◌++◌, replicate, get_or,
}

abbrev pub byte_at : List ℕ → ℕ → ℕ
byte_at p i = get_or p i 0

abbrev pub le16 : List ℕ → ℕ
le16 p = byte_at p 0 + byte_at p 1 * 2 ^ 8

-- `saved_sirk`, `target` and `identity`; `unset` is what the uninitialised array of `verify_map` holds.
pub record Bond : Type 0 where
  pub sirk : List ℕ
  pub target : List ℕ
  pub identity : List ℕ
  pub unset : List ℕ

-- The values of `state` that processing and starting set.
pub data Status : Type 0 where
  starting connected_encrypting peer_configuration_mismatch proprietary_peer_verified : Status
  holding_proprietary_connection negotiating_audio streaming_usb_audio : Status
  searching_for_headset : Status

-- `peer`
pub record Peer : Type 0 where
  pub handle : ℕ
  pub acl_limit : ℕ
  pub assembled : ℕ
  pub fragment : List ℕ
  pub encrypted : Bool
  pub encryption_requested : Bool
  pub setup : Bool
  pub peer_verified : Bool
  pub idle_sent : Bool
  pub holding : Bool
  pub disconnected : Bool
  pub failed : Bool
  pub connected_at : ℕ
  pub next_action : ℕ
  pub last_feedback : ℕ
  pub previous_feedback : ℕ
  pub max_tx_octets : ℕ
  pub raw_guard : ℕ
  pub raw_status : ℕ
  pub raw_tries : ℕ
  pub startup_step : ℕ
  pub activity_valid : Bool
  pub raw_acked : Bool
  pub air_ready : Bool
  pub started : Bool
  pub stream_attempted : Bool
  pub activity : List ℕ
  pub control_slot : ℕ
  pub diagnostic_ok : Bool

-- The peer, and the world around it: the packets sent so far; whether each next attempt to send
-- succeeds within its 200 tries; the event queue, in which each event has the time at which it is taken
-- out and `none` is a wait that ends at its deadline or by a pause; the calls
-- of `ull_control_log_acl` and of `ull_raw_parent_retired` so far.
pub record Link : Type 0 where
  pub peer : Peer
  pub status : Status
  pub sent : List (List ℕ)
  pub accepts : List Bool
  pub incoming : List (Option (ℕ × List ℕ))
  pub logged : List (List ℕ)
  pub retired : Bool
  pub lost : Bool

abbrev pub no_handle : ℕ
no_handle = 0xffff

-- `memset(&peer,0,sizeof(peer));peer.handle=0xffff;peer.acl_limit=27;`
unfoldable pub peer_init : Peer
peer_init = record {
  handle = no_handle;
  acl_limit = 27;
  assembled = 0;
  fragment = replicate 4096 0;
  encrypted = false;
  encryption_requested = false;
  setup = false;
  peer_verified = false;
  idle_sent = false;
  holding = false;
  disconnected = false;
  failed = false;
  connected_at = 0;
  next_action = 0;
  last_feedback = 0;
  previous_feedback = 0;
  max_tx_octets = 0;
  raw_guard = 0;
  raw_status = 0;
  raw_tries = 0;
  startup_step = 0;
  activity_valid = false;
  raw_acked = false;
  air_ready = false;
  started = false;
  stream_attempted = false;
  activity = replicate 30 0;
  control_slot = 0;
  diagnostic_ok = false;
}

unfoldable pub sent_or_not : Link → List ℕ → List Bool → Link × Bool
sent_or_not l p [] = (l, false)
sent_or_not l p (false ∷ rest) = (record l { accepts = rest }, false)
sent_or_not l p (true ∷ rest) = (record l { accepts = rest; sent = l.sent ++ (p ∷ []) }, true)

-- `send_packet`
unfoldable pub send_packet : Link → List ℕ → Link × Bool
send_packet l p = sent_or_not l p l.accepts
