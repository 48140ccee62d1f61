-- ===== src/Udp.antt =====
-- src/udp/mod.rs: sending and receiving on the two sockets. The calls of the system are parameters.
pub mod Framed
pub mod Queue
pub mod Liveness
use wireguard_rs.Base.{
  ℕ, Bool, true, false, ◌||◌, Option, none, some, List, [], ◌∷◌, ◌++◌, take, drop, replicate,
  Result, ok, err, Error, Bytes, if◌then◌else◌,
}
use wireguard_rs.Types.{SocketAddr, Endpoint, ep4, ep6, addr, to_cleared_pktinfo}

-- A message for `sendmsg`, on the socket for IPv6 or the other.
pub record Call : Type 0 where
  pub on6 : Bool
  pub buf : Bytes
  pub pktinfo : Option Bytes
  pub to : SocketAddr

-- The error numbers that are told apart, and all others.
pub data SendAnswer : Type 0 where
  sent : ℕ → SendAnswer
  eagain einval other_error : SendAnswer

-- The first control message that comes with a datagram.
pub data ControlMessage : Type 0 where
  ipv4_packet_info ipv6_packet_info : Bytes → ControlMessage

pub data RecvAnswer : Type 0 where
  received : Bytes → Option SocketAddr → Option ControlMessage → RecvAnswer
  nothing_yet failed : RecvAnswer

-- What the system answers at one moment.
pub record Kernel : Type 0 where
  pub writable4 : Bool
  pub writable6 : Bool
  pub readable4 : Bool
  pub readable6 : Bool
  pub sendmsg : Call → SendAnswer
  pub recvmsg : Bool → RecvAnswer

-- `get_io`: whether the endpoint takes the socket for IPv6.
abbrev pub get_io : Endpoint → Bool
get_io (ep4 sock pktinfo) = false
get_io (ep6 sock pktinfo) = true

abbrev pub pktinfo_of : Endpoint → Option Bytes
pktinfo_of (ep4 sock pktinfo) = pktinfo
pktinfo_of (ep6 sock pktinfo) = pktinfo

abbrev pub call_for : Bytes → Endpoint → Call
call_for buf target = record {
  on6 = get_io target;
  buf = buf;
  pktinfo = pktinfo_of target;
  to = addr target;
}

abbrev pub poll_read : Kernel → Bool
poll_read k = k.readable4 || k.readable6

abbrev pub poll_write : Kernel → Bool
poll_write k = k.writable4 || k.writable6

abbrev pub can_write : Kernel → Endpoint → Bool
can_write k target = if get_io target then k.writable6 else k.writable4

-- The `match` on the answer to the retry.
abbrev pub last_answer : SendAnswer → Result ℕ
last_answer (sent n) = ok n
last_answer eagain = err Error.would_block
last_answer einval = err Error.os_error
last_answer other_error = err Error.os_error

abbrev pub first_answer : SendAnswer → Result ℕ → Result ℕ
first_answer einval again = again
first_answer answer again = last_answer answer

-- `sendmsg`; the flag is `is_retry`. After EINVAL it calls itself once, without the pktinfo.
unfoldable pub sendmsg_retry : Kernel → Bytes → Endpoint → Result ℕ
sendmsg_retry k buf target =
    if can_write k target
    then last_answer (k.sendmsg (call_for buf target))
    else err Error.would_block

unfoldable pub send_to : Kernel → Bytes → Endpoint → Result ℕ
unfolding sendmsg_retry
send_to k buf target =
    if can_write k target
    then first_answer (k.sendmsg (call_for buf target))
        (sendmsg_retry k buf (to_cleared_pktinfo target))
    else err Error.would_block

-- The pktinfo of the answers to an IPv4 packet. An `in_pktinfo` of Linux is the index of the interface,
-- the address to send from and the address that the packet came to, each of 4 bytes.
abbrev pub reply_pktinfo : Bytes → Bytes
reply_pktinfo info = take 4 info ++ (take 4 (drop 8 info) ++ replicate 4 0)

abbrev pub endpoint_from : SocketAddr → Option ControlMessage → Result Endpoint
endpoint_from from none = err Error.missing_pktinfo
endpoint_from from (some (ipv4_packet_info info)) = ok (ep4 from (some (reply_pktinfo info)))
endpoint_from from (some (ipv6_packet_info info)) = ok (ep6 from (some info))

abbrev pub with_data : Bytes → Result Endpoint → Result (Bytes × Endpoint)
with_data bytes (ok endpoint) = ok (bytes, endpoint)
with_data bytes (err e) = err e

abbrev pub received_from : RecvAnswer → Result (Bytes × Endpoint)
received_from (received bytes none control) = err Error.invalid_source_address
received_from (received bytes (some from) control) = with_data bytes (endpoint_from from control)
received_from nothing_yet = err Error.would_block
received_from failed = err Error.os_error

-- The socket for IPv4 comes first.
unfoldable pub recv_from : Kernel → Result (Bytes × Endpoint)
recv_from k =
    if k.readable4
    then received_from (k.recvmsg false)
    else if k.readable6
    then received_from (k.recvmsg true)
    else err Error.would_block
