-- ===== src/Udp/Framed.antt =====
-- src/udp/frame.rs: `UdpFramed`, a stream and a sink of datagrams.
use wireguard_rs.Base.{
  ℕ, ◌/◌, ◌%◌, Bool, true, false, Option, none, some, List, [], ◌∷◌, ◌++◌, Result, ok, err, Error,
  Bytes, length, replicate, ◌==◌, ◌&&◌, if◌then◌else◌,
}
use wireguard_rs.Base.Monad.{M}
use wireguard_rs.Types.{Endpoint, ep4, v4}
use wireguard_rs.Udp.{Kernel, send_to, recv_from}

-- `handed` has each datagram for which a call of the system has succeeded, with the address that it was
-- put into the sink for, and how many bytes the system says it has taken of it.
pub record UdpFramed : Type 0 where
  pub wr : Bytes
  pub out_addr : Endpoint
  pub flushed : Bool
  pub handed : List ((Endpoint × Bytes) × ℕ)

pub data Poll (A : Type 0) : Type 0 where
  ready : A → Poll A
  not_ready : Poll A

-- `frame::new`
abbrev pub new : UdpFramed
new = record {
  wr = [];
  out_addr = ep4 (record { ip = v4 (replicate 4 0); port = 0 }) none;
  flushed = true;
  handed = [];
}

-- What `try_nb!` tests.
abbrev pub is_would_block : Error → Bool
is_would_block Error.would_block = true
is_would_block e = false

-- Behind `try_nb!(self.socket.send_to(…))`.
abbrev pub written : Result ℕ → M UdpFramed (Poll (Unit {0}))
written (ok n) f = (
  record f { wr = []; flushed = true; handed = f.handed ++ ((f.out_addr, f.wr), n) ∷ [] },
  if n == length f.wr then ok (ready tt) else err Error.partial_datagram,
)
written (err e) f = (f, if is_would_block e then ok not_ready else err e)

-- `if self.flushed`, with what the socket answers otherwise.
abbrev pub written_if : Bool → Result ℕ → M UdpFramed (Poll (Unit {0}))
written_if true answer f = (f, ok (ready tt))
written_if false answer f = written answer f

unfoldable pub poll_complete : Kernel → M UdpFramed (Poll (Unit {0}))
unfolding send_to
poll_complete k f = written_if f.flushed (send_to k f.wr f.out_addr) f

-- `VecUdpCodec::encode`, and what `start_send` does with it.
abbrev pub encode_frame : Endpoint × Bytes → UdpFramed → UdpFramed
encode_frame (to, bytes) f = record f { wr = f.wr ++ bytes; out_addr = to; flushed = false }

abbrev pub start_when_flushed :
    Endpoint × Bytes → UdpFramed × Result (Poll (Unit {0})) → UdpFramed × Result Bool
start_when_flushed item (f, ok (ready u)) = (encode_frame item f, ok true)
start_when_flushed item (f, ok not_ready) = (f, ok false)
start_when_flushed item (f, err e) = (f, err e)

-- `if !self.flushed`
abbrev pub start_if :
    Bool → Endpoint × Bytes → UdpFramed × Result (Poll (Unit {0})) → M UdpFramed Bool
start_if true item completed f = (encode_frame item f, ok true)
start_if false item completed f = start_when_flushed item completed

-- `ok true` is `AsyncSink::Ready`, and `ok false` is `AsyncSink::NotReady`.
unfoldable pub start_send : Kernel → Endpoint × Bytes → M UdpFramed Bool
unfolding poll_complete
start_send k item f = start_if f.flushed item (poll_complete k f) f

-- `close`
abbrev pub close : Kernel → M UdpFramed (Poll (Unit {0}))
close = poll_complete

abbrev pub decoded_frame : Result (Bytes × Endpoint) → Result (Poll (Endpoint × Bytes))
decoded_frame (ok (bytes, src)) = ok (ready (src, bytes))
decoded_frame (err e) = if is_would_block e then ok not_ready else err e

-- `poll` of the stream, with `VecUdpCodec::decode`.
unfoldable pub poll : Kernel → Result (Poll (Endpoint × Bytes))
unfolding recv_from
poll k = decoded_frame (recv_from k)

-- `v6_mapped_to_v4`, on the eight segments.
unfoldable pub v6_mapped_to_v4 : List ℕ → Option Bytes
v6_mapped_to_v4 (a ∷ b ∷ c ∷ d ∷ e ∷ f ∷ g ∷ h ∷ []) =
    if a == 0 && b == 0 && c == 0 && d == 0 && e == 0 && f == 0xffff
    then some (g / 256 % 256 ∷ g % 256 ∷ h / 256 % 256 ∷ h % 256 ∷ [])
    else none
v6_mapped_to_v4 segments = none
