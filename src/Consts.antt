-- ===== src/Consts.antt =====
-- src/consts.rs: the limits of the protocol. A `Duration` is a number of nanoseconds.
use wireguard_rs.Base.{ℕ, ◌+◌, ◌-◌, ◌*◌, ◌/◌, ◌^◌}

abbrev pub second : ℕ
second = 1000000000

abbrev pub as_secs : ℕ → ℕ
as_secs d = d / second

abbrev pub rekey_attempt_time : ℕ
rekey_attempt_time = 90 * second

abbrev pub reject_after_time : ℕ
reject_after_time = 180 * second

abbrev pub rekey_after_time : ℕ
rekey_after_time = 120 * second

abbrev pub rekey_timeout : ℕ
rekey_timeout = 5 * second

abbrev pub keepalive_timeout : ℕ
keepalive_timeout = 10 * second

abbrev pub rekey_after_time_recv : ℕ
rekey_after_time_recv = reject_after_time - keepalive_timeout - rekey_timeout

abbrev pub wipe_after_time : ℕ
wipe_after_time = reject_after_time * 3

abbrev pub stale_session_timeout : ℕ
stale_session_timeout = keepalive_timeout + rekey_timeout

abbrev pub timer_resolution : ℕ
timer_resolution = 100000000

abbrev pub cookie_refresh_time : ℕ
cookie_refresh_time = 120 * second

abbrev pub under_load_time : ℕ
under_load_time = second

abbrev pub max_handshake_attempts : ℕ
max_handshake_attempts = as_secs rekey_attempt_time / as_secs rekey_timeout - 1

abbrev pub u64_max : ℕ
u64_max = 2 ^ 64 - 1

abbrev pub rekey_after_messages : ℕ
rekey_after_messages = u64_max - 2 ^ 16 - 1

abbrev pub reject_after_messages : ℕ
reject_after_messages = u64_max - 2 ^ 4 - 1

abbrev pub transport_header_size : ℕ
transport_header_size = 16

abbrev pub aead_tag_size : ℕ
aead_tag_size = 16

abbrev pub transport_overhead : ℕ
transport_overhead = transport_header_size + aead_tag_size

abbrev pub max_segment_size : ℕ
max_segment_size = 2 ^ 16 - 1

abbrev pub max_content_size : ℕ
max_content_size = max_segment_size - transport_overhead

abbrev pub padding_multiple : ℕ
padding_multiple = 16

abbrev pub max_queued_handshakes : ℕ
max_queued_handshakes = 4096

abbrev pub under_load_queue_size : ℕ
under_load_queue_size = max_queued_handshakes / 8

abbrev pub max_queued_packets : ℕ
max_queued_packets = 1024

abbrev pub max_peers_per_device : ℕ
max_peers_per_device = 2 ^ 20
