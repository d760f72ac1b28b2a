-- ===== src/Lib.antt =====
-- cc2obp relays group voice calls between CC-CC links (cccc/) and OpenBridge peers (openbridge/).
-- A call comes in on one side of a link, the translator turns each message into the other side's
-- form, and the DMR codes (dmr/) build and read the bursts. This library models the translator, the
-- codes, the voice payloads, the CC-CC links and their texts, the OpenBridge datagrams and their digests.
--
-- Which file models what:
-- - Wire: the big-endian readers and writers of translate.c.
-- - Config: the structures of config.h. Config.Fields has the typed readers of config.c, on what toml.c
--   has parsed, Config.Load what load_openbridge and load_links do with an entry, and Config.File these
--   and config_load. Config.Reload has config_reload_toggles, and the rules on pairs of links of load_links.
-- - Dmr.Bits, Const, Crc, Golay, Hamming, Rs129, Bptc, Emblc, Ambe: the files of dmr/, a function
--   for each function of the source and under its name without the prefix dmr_; Emblc is
--   dmr_encode_emblc of dmr/bptc.c. A dmr_bit is a Bool and a byte a number.
-- - Cccc.Ambe: cccc/cccc_ambe.c. Cccc.Const: cccc/cccc_const.h.
-- - Cccc.Text, Lines, Signals, Link, Connect, Mux, Pending, Traffic: cccc/cccc_link.c, a function for
--   each function of the source and under its name. Text has the C library's reading and printing
--   of numbers and words, Lines feed_bytes, Signals the texts of the handshake and of the calls, Link
--   and Connect the handlers of one link, Mux the table of links, Pending the inbound connections
--   before they have a link, and Traffic the datagrams, the start and the stop. Cccc.Steps
--   has sequences of events: the event loop calls back only for a timer that is set and a
--   descriptor that is watched. What a handler tells translate.c is an action tr_..., which is an event of
--   Translate.Steps. Cccc.Sound states what holds of a link between events and what translate.c is
--   told; the other modules of Cccc hold the theorems that they are named for.
-- - Eventloop: eventloop.c. A callback with its argument is a value, and what it does is an argument of
--   the loop. Cccc.Steps does not run on it, but says itself which callbacks may come.
-- - Crypto: SHA-1 and HMAC-SHA1 of crypto.c.
-- - Openbridge.Const: openbridge/obp_const.h. Openbridge.Mux has the sockets of
--   openbridge/obp_link.c, and Openbridge.Datagrams what that file signs and checks. The body that a
--   handler of the translator sends is what obp_send_dmrd gets, and what on_obp_readable lets pass is
--   what translator_obp_dmrd_received gets; Translate.Relay.Bon puts them together.
-- - Translate: translate.c. Its records are the structures of that file. Translate.Burst has the
--   bursts, Translate.Handlers and Translate.Incoming the handlers of one link under the names of
--   the source, and Translate.Steps the link table, the timer and sequences of events.
-- - Translate.Phases states the call protocol of a link, and Translate.Protocol that any run obeys
--   it. The other modules below Translate, Dmr and Cccc.Ambe hold the theorems that they are named
--   for. Examples holds concrete inputs.
--
-- State is passed on explicitly. A handler takes the part of the translator that belongs to its
-- link, with the sequence counters of the peers, and returns that part and the calls it makes of
-- cccc_link.c and obp_link.c, in order, as a list of actions. What a handler reads and does not
-- write (the configuration, the table of peers, the clock, the random bytes) is the record Env,
-- which may differ from one event to the next. The number of the link in an action is the index that
-- the source passes; for a DMRD frame, which the source sends to a peer, it records whose it is.
--
-- Numbers and bounds: ev_now is in nanoseconds, so the slot of a packet is a rounded division, and
-- the timeout is 5 * 10 ^ 9. The counter of frames to a peer is not wrapped, since only its low byte
-- goes out; the RTP fields are cut to 16 and 32 bits as in the source. A configured index of -1 is
-- none. Three loops run on fuel. Two are in Crypto: that of sha1_update on the number of bytes, of which a
-- round takes one at least, and the padding loop on 64, the size of a block. The third, in Eventloop,
-- fires timers, on the number that are due, which is enough as long as callbacks arm none that is due at
-- once. All others are over a
-- list or count down.
-- The loop of mint_sync_source runs over the numbers that the system draws: as long as none of them
-- is free, the handler has not ended and the state is as before. The receive buffers hold 2047 bytes, as
-- in the source, and are lists; the bytes behind rxlen, which nothing reads, are left out.
-- Not modelled: toml.c, the level of the log and the texts of errors in config.c, main.c, net.c and
-- log.c, and from crypto.c SHA-256, which nothing calls. Of what is logged, only the warning of a
-- closed gate is an action, since the state decides if it is given. Whether the system binds a port
-- is an argument of Openbridge.Mux, and what it answers to connect, accept and recv one of the handlers
-- of Cccc. A signal strength is a whole number there, since its one caller gives 0.
pub mod Common
pub mod Wire
pub mod Config
pub mod Dmr
pub mod Eventloop
pub mod Cccc
pub mod Crypto
pub mod Openbridge
pub mod Translate
pub mod Examples
