-- ===== src/Lib.antt =====
-- OpenApex is a motorcycle terminal: an ESP32 that shows turns, calls and other riders. These
-- modules model the parts of its firmware, under firmware/main, that decide what bytes mean and
-- what state follows, and prove what they promise.
--
-- Settings: the settings of the terminal and the tag-length-value code in which the phone writes
-- them (firmware/main/settings.c). settings_tlv_decode runs on fuel, one unit for each byte of the
-- buffer; a record takes at least two bytes, and that the fuel is enough is proved.
--
-- Mesh.Crypto: AES-128, its CCM mode and the rotating pseudonyms (firmware/main/mesh_crypto.c),
-- byte by byte. Mesh.Fields, Mesh.Proto and Mesh.Records: names, look blocks, the seven frame
-- types and the two fixed records (firmware/main/mesh_proto.c). A buffer is a list of bytes and
-- its length is the list's, a pointer into it is the rest of the list, an encoder's 0 and a
-- decoder's false are none.
--
-- Mesh.Core: the state machine of the rider mesh (firmware/main/mesh_core.c and mesh_core.h), the
-- whole of mesh_core_t as a record. Friends is the friend list and the queue of events for the
-- phone; Peers the table of terminals heard; Handshake the frames sent, the retry times and the
-- steps of becoming friends; Position the smoothing of signal strength and of the offset to a
-- friend; Receive mesh_core_rx, one function for each frame type; Menu the rider's actions; Tick
-- mesh_core_tick, phase by phase; Setup boot and the settings; Range what the compass draws. A
-- pointer to a peer or a friend is its index. Frames that the code hands to its send callback are
-- a list that the operation returns, in order. The link to a friend that a peer caches counts
-- while the generation of the list is the one it was made under; that a link which counts is right
-- is the condition LinksValid of Peers.Links, which sets aside a link that has outlived 2^32
-- changes of the list. mesh_core_tick calls Peers, Handshake and Proto; mesh_core_rx calls Proto,
-- Peers, Handshake and Friends; the phone's commands call Friends.
--
-- Numbers are natural numbers with the wrap-around of the C type written out; a signed integer is
-- its bit pattern. Floating point and the C math library are the interface Floats, an argument of
-- the definitions that use it, of which no law is assumed. The fixed arrays of peers and events
-- are lists of eight and of two entries; friends, tag keys and fixes are lists as long as their
-- counters.
--
-- Call: the packets that announce a call, and the state of the call page
-- (firmware/main/call_packet.c, call_state.c). Packet: the packet with which the phone sends turns
-- and its own fix (firmware/main/packet.c); Packet.Merge: the merge of the packets of several
-- producers, each of which knows half (packet_merge.c), its static variables as a state.
--
-- Ancs: the terminal as a reader of an iPhone's notifications (firmware/main/ancs_core.c). Ancs
-- holds the requests and the parser of responses, Ancs.Core the session: the table of
-- notifications, the request in flight, the reassembly of its response and the queue behind it.
-- The calls of the session's callbacks are a list of outputs. The parser's loop runs on one unit
-- of fuel more than the buffer is long; a round takes three bytes or more. Each callback is a flag
-- that it is set. Ancs.Navigation is the packet that a navigation notification becomes and the
-- date it carries (ancs_nav.c).
--
-- Nav: what the pages show of a turn (firmware/main/normalize.c, nav_model.h). Text is what
-- normalize.c uses of string.h and ctype.h; Glyphs the turn tables, Traffic the colours and spans,
-- Distance the parser of distances with the strtol of a 32-bit long, Maneuver the turn that a text
-- names, Street the name of the street, Normalize normalize_packet itself, which takes the packet
-- of Packet. Texts are lists of bytes without their NUL. The loops over words run on the length of
-- the text, of which a round takes a byte or more.
--
-- Loops are recursion on the list or on the room that is left. The loop over the table of peers
-- counts down from eight.
--
-- Not modelled: mesh_core_candidates, which sorts the card of riders nearby; the turn pipeline,
-- the countdown and the odometer; heading fusion; and everything that only calls ESP-IDF, NimBLE,
-- LVGL or NVS, which holds no decision of its own.
pub mod Base
pub mod Settings
pub mod Mesh
pub mod Call
pub mod Packet
pub mod Ancs
pub mod Nav
