-- ===== src/Lib.antt =====
-- Verification of wireguard-rs, a userspace WireGuard tunnel: the handling of packets, sessions, timers and
-- configuration events, as functions on the state that the program keeps.
--
-- How the parts interact. The peer server (src/interface/peer_server.rs) owns the peers, a map from session
-- indices to peers, the router, the handshake queue, the timers, the cookie validator and the rate limiter. A
-- datagram becomes a message (src/message.rs). Handshakes are queued, checked by their MACs (src/cookie.rs,
-- over src/xchacha20poly1305.rs) and under load by the rate limiter (src/ratelimiter.rs), and end in a session of a
-- peer (src/peer.rs, src/noise.rs). Data packets go through the session that their index names, with its
-- anti-replay window (src/anti_replay.rs), and through the router (src/router.rs, src/ip_packet.rs) to the
-- tunnel device; packets of the device go the other way. The configuration service (src/interface/config.rs) reads
-- commands from a socket, changes the shared state (keys, peers, routes) and tells the peer server by a channel.
--
-- Files and code:
--   Consts, Timestamp, Types: src/consts.rs, src/timestamp.rs, src/types.rs, and `Endpoint` of src/udp/mod.rs.
--     Timestamp/Order is about the order of stamps.
--   AntiReplay: `AntiReplay` with `new`, `check`, `update_store`, `update`. Window, Words and Replay below it
--     relate the bitmap to the set of accepted numbers.
--   Message: `try_from` and the accessors; Accept and Layout are about reading.
--   Xchacha, Cookie, RateLimiter, Router, IpPacket, Noise, Utun, Timer: the files of these names (Utun:
--     `UtunPacket` of src/interface/mod.rs). The modules below them are the proofs.
--   Peer: `Peer`, `Sessions`, `Session`, `Timers`; Responder and Handshake: the handshakes; Transport: data packets.
--     Rotation, Completion, Guards, Sending, Ready, Identity and Delivery are the proofs.
--   PeerServer: the state, `unused_index`, `under_load`; Handshakes, Packets, Events: the handlers; Poll: `poll`.
--     Stable has the rules for properties that the handlers leave true; Indices is the proof that the index map stays
--     complete, Frame that the configuration stays and what reaches the tunnel, Admission about handshake messages.
--   Config: `UpdateEvent` and `handle_update` of src/interface/config.rs; System: `Command`s with the channel; Text,
--     Parser, Codec: `UpdateEvent::from` and `ConfigurationCodec`; Printer: the replies, and `to_config_string` of
--     src/peer.rs. Indices, Registry, Refusal, Routes, Framing, Panics, Decimals,
--     Lines, RoundTrip and History are the proofs. A peer that is taken out
--     stays in the store, where stale indices and messages may still lead to it. Files and Service: the life of the socket, with
--     src/interface/grim_reaper.rs, over a table of files; the modules below it are the proofs.
--   Interface: `Interface` of src/interface/mod.rs and `PeerServer::new`; Start has what holds from the start.
--   Main: the flow of src/main.rs, up to the status of the process.
--   Udp: `UdpSocket` of src/udp/mod.rs over the answers of the system, and Framed: `UdpFramed` of src/udp/frame.rs. Queue
--     and Liveness are the proofs.
--   Crates: the third-party functions as parameters, their laws, and a toy choice of them (Sample) for the tests.
--   Base: shared notation and lemmas; Tests and AntiReplay.Tests: instances.
--
-- How state and effects are written. A method with `&mut self` that returns a `Result` is a function from the
-- state to the state and the result (Base.Monad): what it changed before an error stays changed. Shared peers
-- are numbers into a store, so that two references to one peer see the same contents; whether a `Weak` still
-- leads to a peer is an input of the handler. Clocks, random numbers
-- and the answers of the system are arguments. Times are nanoseconds. A panic is the error `panicked`. Integers are the
-- native natural numbers with the wrap-around written out where the source's can overflow.
--
-- Bounds and fuel. There is no fuel: all loops are structural on lists or on a count that the source has. The loop
-- of `unused_index` runs over a list of draws, and ends with an error of its own where the draws run out. Numbers are
-- printed with 20 digits at most, which is enough below 2^64.
--
-- Not modelled: opening the sockets and the task that writes to them (src/udp), the runtime (tasks, streams, channels and their bounds), logging, benchmarks. The text of keys and of addresses is read and written by parameters (the crate hex, std::net).
pub mod Base
pub mod Consts
pub mod Timestamp
pub mod Types
pub mod Crates
pub mod AntiReplay
pub mod Message
pub mod Xchacha
pub mod RateLimiter
pub mod Cookie
pub mod IpPacket
pub mod Router
pub mod Noise
pub mod Utun
pub mod Peer
pub mod Timer
pub mod Udp
pub mod Config
pub mod Interface
pub mod Main
pub mod PeerServer
pub mod Tests
