-- ===== src/AutoLink/Examples.antt =====
-- The automatic link on concrete inputs: one session from the reset of the controller to the stream.
use open_ull_receiver.Base.{
  same_bytes, ℕ, ◌+◌, ◌≡◌, ◌≢◌, ◌⊎◌, refl, Bool, true, false, none, some, Option, List, [], ◌∷◌,
  ◌++◌, arith, replicate, length,
}
use open_ull_receiver.AirSession.{put16}
use open_ull_receiver.AutoLink.Peer.{
  Bond, Peer, Link, Status, peer_init, no_handle, send_packet, sent_or_not,
}
use open_ull_receiver.AutoLink.Acl.{
  process_acl, acl_append, acl_packet, send_acl, send_parts, l2cap_message,
}
use open_ull_receiver.AutoLink.Commands.{
  answer_of, reserve_audio, command, verify_map, clean_map, reserved, unused,
}
use open_ull_receiver.AutoLink.Events.{mode, process}
use open_ull_receiver.AutoLink.Startup.{◌then_do◌, start_connection, features, audio_startup}
use open_ull_receiver.AutoLink.Keeper.{
  Turn, Secrets, keeper_turn, take_event, encrypt_step, setup_step, startup_turn, deadline_step,
  audio_live,
}
use open_ull_receiver.AutoLink.Session.{
  Look, SessionEnd, stop_audio, stop_rounds, keep_turns, run_session,
}
use open_ull_receiver.AutoLink.Stopped.{IsStopped, run_session_stops}
use open_ull_receiver.AutoLink.Reassembled.{process_all}
use open_ull_receiver.AutoLink.Delivered.{send_acl-Delivers}
use open_ull_receiver.AutoLink.Sent.{Ready, all_true}

abbrev bond : Bond
bond = record {
  sirk = replicate 16 7;
  target = 1 ∷ 2 ∷ 3 ∷ 4 ∷ 5 ∷ 6 ∷ [];
  identity = 6 ∷ 5 ∷ 4 ∷ 3 ∷ 2 ∷ 0xc1 ∷ [];
  unset = replicate 8 0;
}

abbrev secrets : Secrets
secrets = record { rand = replicate 8 1; ediv = replicate 2 2; ltk = replicate 16 3 }

-- Events of the controller.
abbrev completed : ℕ → List ℕ → List ℕ
completed opcode bytes = (4 ∷ 14 ∷ (3 + length bytes) ∷ 1 ∷ put16 opcode) ++ bytes

abbrev good : ℕ → List ℕ
good opcode = completed opcode (0 ∷ [])

abbrev event : ℕ → List ℕ → List ℕ
event code d = 4 ∷ code ∷ length d ∷ d

abbrev map_answer : List ℕ
map_answer = completed 0x2015 (0 ∷ 64 ∷ 0 ∷ clean_map)

abbrev activities : List ℕ → List ℕ
activities slots =
    event 0xff
      ((85 ∷ 76 ∷ 76 ∷ 67 ∷ 1 ∷ 0 ∷ 6 ∷ 0 ∷ 1 ∷ 2 ∷ 3 ∷ 4 ∷ 5 ∷ []) ++ (slots ++ replicate 10 0))

abbrev message : List ℕ → List ℕ
message payload = acl_packet 64 true (l2cap_message 0x101 payload)

abbrev at_100 : List ℕ → Option (ℕ × List ℕ)
at_100 p = some (100, p)

abbrev controller : List (Option (ℕ × List ℕ))
controller =
    at_100 (good 0x0c03)
    ∷ at_100 (completed 0x2002 (0 ∷ 27 ∷ 0 ∷ 4 ∷ []))
    ∷ at_100 (completed 0x2003 features)
    ∷ at_100 (good 0x0c01)
    ∷ at_100 (good 0x2001)
    ∷ at_100 (good 0x2005)
    ∷ at_100 (good 0x2014)
    ∷ at_100 (good 0x2043)
    ∷ at_100 (event 0x3e ((1 ∷ 0 ∷ 64 ∷ 0 ∷ 0 ∷ 0 ∷ []) ++ (bond.target ++ replicate 7 0)))
    ∷ at_100 (event 0x3e (7 ∷ 64 ∷ 0 ∷ 251 ∷ 0 ∷ replicate 6 0))
    ∷ none
    ∷ at_100 (event 15 (0 ∷ 1 ∷ put16 0x2019))
    ∷ at_100 (event 8 (0 ∷ 64 ∷ 0 ∷ 1 ∷ []))
    ∷ at_100 (message ((14 ∷ 2 ∷ 1 ∷ 1 ∷ bond.sirk) ++ (replicate 5 0 ++ (mode ++ replicate 8 0))))
    ∷ at_100 (message (17 ∷ 0 ∷ 0 ∷ 0 ∷ 0 ∷ 3 ∷ 0 ∷ 0 ∷ 0 ∷ []))
    ∷ at_100 (message (15 ∷ replicate 280 0))
    ∷ at_100 (map_answer)
    ∷ at_100 (event 0xff (85 ∷ 76 ∷ 76 ∷ 68 ∷ 1 ∷ 0 ∷ 0 ∷ 1 ∷ 27 ∷ 0 ∷ 1 ∷ 2 ∷ []))
    ∷ at_100 (good 0xfcf0)
    ∷ at_100 (activities (unused ++ (unused ++ unused)))
    ∷ at_100 (good 0xfcfa)
    ∷ at_100 (good 0x2036)
    ∷ at_100 (activities (reserved 0xee ++ (unused ++ unused)))
    ∷ at_100 (good 0xfcfa)
    ∷ at_100 (good 0x2036)
    ∷ at_100 (activities (reserved 0xee ++ (reserved 0xef ++ unused)))
    ∷ at_100 (good 0xfcfa)
    ∷ at_100 (good 0x2036)
    ∷ at_100 (activities (reserved 0xee ++ (reserved 0xef ++ reserved 0xed)))
    ∷ at_100 (good 0xfcfa)
    ∷ at_100 (good 0x2022)
    ∷ at_100 (event 0xff (85 ∷ 76 ∷ 76 ∷ 84 ∷ 1 ∷ 2 ∷ 0xe4 ∷ 0 ∷ 7 ∷ 1 ∷ 0 ∷ 0 ∷ []))
    ∷ at_100 (good 0xfcf3)
    ∷ at_100 (event 0xff ((85 ∷ 76 ∷ 76 ∷ 82 ∷ 1 ∷ 1 ∷ []) ++ replicate 10 0))
    ∷ at_100 (good 0xfcf4)
    ∷ at_100 (event 0x3e (9 ∷ replicate 10 0))
    ∷ at_100 (map_answer)
    ∷ at_100 (good 0xfcfb)
    ∷ []

abbrev opening : Link
opening = record {
  peer = peer_init;
  status = Status.starting;
  sent = [];
  accepts = replicate 60 true;
  incoming = controller;
  logged = [];
  retired = false;
  lost = false;
}

abbrev turn_at : ℕ → Turn
turn_at now = record {
  now = now;
  feedback = 0;
  pump_busy = true;
  source = true;
  trial = true;
  fed = now;
}

abbrev after : Link → ℕ → Link
after l now = (keeper_turn bond secrets l 0 (turn_at now)).0

abbrev linked : Link
linked = after (after (after (start_connection bond opening).0 200) 300) 1000100

abbrev verified : Link
verified = after (after (after linked 1000200) 1000300) 1000400

abbrev streaming : Link
streaming = after (after (after (after verified 1000500) 1000600) 1300000) 1400000

-- A sender with packets of five bytes, and a receiver, both of handle 64.
abbrev sender : Link
sender = record opening { peer = record peer_init { handle = 64; acl_limit = 5 }; incoming = [] }

abbrev receiver : Peer
receiver = record peer_init { handle = 64; assembled = 9 }

abbrev unmute : List ℕ
unmute = 6 ∷ 1 ∷ 0 ∷ []

abbrev unmuted : Link × Bool
unmuted = send_acl sender 0x101 unmute

sent_all : unmuted.1 ≡ true
unfolding send_acl peer_init send_parts send_packet sent_or_not put16 acl_packet
sent_all = refl

sender_handle : sender.peer.handle ≡ 64
unfolding peer_init
sender_handle = refl

receiver_room : length receiver.fragment ≡ 4096
unfolding peer_init
receiver_room = refl

handle_held : sender.peer.handle ≢ no_handle
unfolding peer_init
handle_held = omega arith

ready : Ready (4 + length unmute) sender
unfolding all_true
ready = record { takes = refl; enough = omega arith }

send_acl-Delivers_example :
    (ps : List (List ℕ)) × (unmuted.0.sent ≡ sender.sent ++ ps)
    × ((process_all receiver ps).1 ≡ (0x101, unmute) ∷ [])
    × ((process_all receiver ps).0.assembled ≡ 0)
send_acl-Delivers_example =
    send_acl-Delivers 64 0x101 unmute (omega arith) (omega arith) (omega arith) sender receiver
      sender_handle (omega arith) sender_handle receiver_room sent_all

-- The whole session, and then its end: a round with a busy pump, one with an idle pump, and the two commands.
abbrev ending : Link
ending = record opening {
  incoming =
      controller
      ++ (none ∷ at_100 (good 0xfcfd) ∷ at_100 (good 0xfcfd) ∷ at_100 (good 0xfcff) ∷ []);
}

abbrev looks : List Look
looks =
    record { busy = true; phase = 3; time_left = true }
    ∷ record { busy = false; phase = 3; time_left = true }
    ∷ []

abbrev last_look : Look
last_look = record { busy = false; phase = 3; time_left = true }

abbrev turns : List Turn
turns =
    turn_at 200
    ∷ turn_at 300
    ∷ turn_at 1000100
    ∷ turn_at 1000200
    ∷ turn_at 1000300
    ∷ turn_at 1000400
    ∷ turn_at 1000500
    ∷ turn_at 1000600
    ∷ turn_at 1300000
    ∷ turn_at 1400000
    ∷ turn_at 1400100
    ∷ []

ends_well :
    (run_session bond secrets ending 0 turns looks last_look true).1 ≡ SessionEnd.reconnecting
unfolding keeper_turn start_connection peer_init take_event encrypt_step setup_step startup_turn
    deadline_step audio_live audio_startup process command verify_map send_packet sent_or_not
    answer_of put16 same_bytes ◌then_do◌ send_acl send_parts acl_packet process_acl acl_append
    reserve_audio run_session keep_turns stop_audio stop_rounds
ends_well = refl

run_session_stops_example :
    ((keep_turns bond secrets (start_connection bond ending).0 0 turns).peer.started ≡ false)
    ⊎ IsStopped last_look true
run_session_stops_example =
    run_session_stops bond secrets ending 0 turns looks last_look true ends_well
