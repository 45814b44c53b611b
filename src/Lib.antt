-- ===== src/Lib.antt =====
-- The firmware of the ULL receiver: the radio side under firmware/radio, which keeps a headset on
-- two audio streams, and the codec side under firmware/codec.
--
-- The parts of the radio firmware and how they meet:
--   A plan of an Air session fixes the start of the session on the controller's clock, its channel
--   map, key and IV. Every 5 ms the producer hands a pair of coded frames to the audio source; the
--   radio worker selects the pair of the current event, asks the feedback for the sequence numbers,
--   builds the records of both streams, seals them and puts the packet on the channel and at the
--   time of the event. A reply is checked against its slot, opened, parsed, and moves the feedback;
--   control messages inside it are acknowledged to the parent link and counted.
--   The link coordinator connects to the saved headset, goes through its handshake, and starts the
--   audio with the raw messages of the parent connection; these propose and commit the plans of both
--   streams. The PCM stream exchanges a frame with the codec board at a time: samples from USB go out and
--   come back encoded for the audio source, microphone packets of the radio go out and come back as
--   samples. The trial pump drives the radio worker. The host sees the headset's keys on USB.
--
-- The files, and the sources that they are about:
--   Base, Clock     names shared by all modules, arrays as lists, fixed-width words, the laws of
--                   the bit operations, and the 28-bit clock
--   AirSession      firmware/radio/src/air_session.c, air_session.h and e0_request.h:
--                   ull_air_session_plan_build is plan_build, ull_air_session_time is session_time
--   PhyPacket       firmware/radio/src/phy_packet.c: ull_phy_packet_build is packet_build,
--                   ull_phy_outer_whitening is outer_whitening, ull_phy_dtm_start is dtm_start
--   AudioSource     firmware/radio/src/audio_source.c and reconnect_barrier.h: push, select, rearm,
--                   stats, init, and the flags of the barrier
--   ParentAck       firmware/radio/src/parent_ack.c: reset, header, receive
--   AirFrame        firmware/radio/src/air_frame.c: air_downlink_build is downlink_build,
--                   air_uplink_parse and air_uplink_parse_control go by their names
--   Ccm             firmware/radio/src/tone_packet.c, the CCM part: ull_ble_ccm_encrypt is
--                   ccm_encrypt, ull_ble_ccm_decrypt is ccm_decrypt, with the cached session key
--   Csa2            the same file, the channel selection: ull_ble_csa2_subevent is csa2_subevent
--   TonePacket      the same file, build_packet and its callers as orders, and
--                   firmware/radio/src/tone_source.c: ull_tone_build_mask is tone_build_mask
--   AirFeedback     firmware/radio/src/air_feedback.c: ull_air_feedback_note_tx is note_tx,
--                   ull_air_feedback_sequences is sequences, ull_air_feedback_accept_frame is
--                   accept_frame, ull_air_feedback_accept_control is accept_control
--   UsbFeedback     firmware/radio/components/ull_usb/usb_feedback.c: ull_usb_feedback_step is
--                   feedback_step, ull_usb_feedback_reset is feedback_reset
--   SpiFrame        firmware/radio/src/spi_protocol.h: dsp_begin, dsp_seal, dsp_valid, dsp_crc32
--   UsbPcm          firmware/radio/components/ull_usb/usb_pcm.c: pcm_push, pcm_pop, pcm_reset
--   ControlLog      firmware/radio/src/control_log.c: log_publish (publish), log_enable, take_record
--                   (one turn of the drain); the lock's sections are single steps
--   TrialPump       firmware/radio/src/trial_pump.c: trace_record and trace_next are ull_trial_trace_record
--                   and ull_trial_trace_next, tick_body and pump_busy go by their names; Pump/Overlap has
--                   the callback and the query in single atomic accesses
--   StatusProbe     firmware/radio/src/status_probe.c: probe_air, probe_acl, probe_control_only, probe_snapshot
--   AutoLink        firmware/radio/src/auto_link.c: process, command, start_connection, audio_startup and
--                   send_acl go by their names; Session.run_session is a pass of run, Keeper.keeper_turn a turn of its loop. The fuel
--                   of send_acl's loop is the length of the message
--   RawLlcp         firmware/radio/src/raw_llcp.c: State has its variables, Detached and Parent the two ways of
--                   ull_raw_receive_air_control, Plans the plan_for_current_anchor, Send has raw_send and
--                   ull_raw_commit_session
--   LlcpPool        firmware/radio/src/llcp_pool.c: reserve, release and free_count; the fuel of the count is one more
--                   than there are descriptors
--   UsbControls     firmware/radio/components/ull_usb/usb_controls.c: enqueue and service of the keys; Requests
--                   has hid_get_report and vendor_request, the callbacks of TinyUSB
--   CodecWire       firmware/radio/src/codec_wire.h, with the names of the file; WireHead has the arguments of
--                   cw_begin
--   CodecSlave      firmware/codec/src/main.c: process is slave_process, with a turn of encode_worker and of
--                   decode_worker as encode_job and decode_job
--   PcmStream       firmware/radio/src/pcm_stream.c: Turns has a turn of run up to its exchange, begin_turn, and
--                   the rest of it, end_turn; Requests the choice of the microphone packet,
--                   Responses exchange and accept_response; the
--                   ull_pcm_stream_ and ull_mic_stream_ calls go by the rest of their names; Runs the steps of all
--                   tasks in any order, Board those with the codec board
-- In each of these the file of that name holds the definitions, its folder the lemmas and theorems,
-- and Examples there the tests.
--
-- How the code is read:
--   State is a record that an operation takes and returns. A number is a natural number; where the
--   code casts, shifts or wraps, the remainder by the power of two is written out, and unsigned
--   subtraction is sub32. A pointer to an array together with its length is a list. NULL is `none`,
--   or `false` for the argument `given` that stands for the destinations; the pointer to the object
--   that an operation works on is taken to be valid, as the code takes it. An integer result with
--   several error codes is a data type with a constructor for each. Atomic variables are read and
--   written as plain ones: an operation of the audio source runs from start to end by its one
--   caller. Loops over arrays are recursion on the list, and loops with a count are recursion on
--   that count, the same as in the code, so that no bound is added: 37 channels, 4 streams, 8 bits
--   of a byte, the bytes of a packet.
--   What TinyUSB, FreeRTOS and the closed controller answer, and the time, are arguments: fields of
--   a record that a step takes, or a list of what comes next.
--   The operations of mbed TLS are a parameter (Ccm.Mbedtls), and what they document is the
--   hypothesis Opens of Ccm/Sealed, which the toy cipher of Ccm/Toy meets. The table of the stored
--   tone is a parameter.
--
-- Not modelled: the interleaving of producer and consumer within an operation; the calls of ESP-IDF,
-- FreeRTOS, TinyUSB and of the closed controller, with the files that consist of them; the
-- floating-point filter of the codec; the Python tools and the tests.
pub mod Base
pub mod Clock
pub mod ParentAck
pub mod RawLlcp
pub mod LlcpPool
pub mod UsbControls
pub mod AudioSource
pub mod PhyPacket
pub mod AirSession
pub mod AirFeedback
pub mod AirFrame
pub mod Ccm
pub mod Csa2
pub mod TonePacket
pub mod UsbFeedback
pub mod CodecWire
pub mod CodecSlave
pub mod PcmStream
pub mod SpiFrame
pub mod UsbPcm
pub mod ControlLog
pub mod TrialPump
pub mod StatusProbe
pub mod AutoLink
