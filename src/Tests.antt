-- ===== src/Tests.antt =====
-- Concrete peers, packets and servers, for the instances of the theorems in the child modules.
pub mod Small
pub mod Service
pub mod Start
pub mod Peers
pub mod Server
pub mod Configured
pub mod Commands
pub mod Routes
pub mod Datagrams
use wireguard_rs.Base.{
  ℕ, Bool, true, false, Option, none, some, List, [], ◌∷◌, ◌++◌, Result, ok, err, Bytes, replicate,
  ◌*◌, ◌==◌, if◌then◌else◌,
}
use wireguard_rs.Consts.{second}
use wireguard_rs.Types.{IpAddr, v4, SocketAddr, Endpoint, ep4, PeerInfo, InterfaceInfo}
use wireguard_rs.Crates.Sample.{sample, sample_key}
use wireguard_rs.Timestamp.{Tai64n, unset}
use wireguard_rs.AntiReplay
use wireguard_rs.AntiReplay.{AntiReplay}
use wireguard_rs.Cookie.{Generator, Validator}
use wireguard_rs.Timer.{new_timer}
use wireguard_rs.RateLimiter.{new_limiter}
use wireguard_rs.Peer.{Peer, Session, Sessions, default_timers}
use wireguard_rs.Peer.Responder.{IncompleteIncomingHandshake}
use wireguard_rs.PeerServer.{PeerServer, State, Inputs}

abbrev pub localhost : Endpoint
localhost = ep4 (record { ip = v4 (127 ∷ 0 ∷ 0 ∷ 1 ∷ []); port = 51820 }) none

abbrev pub info : PeerInfo
info = record {
  pub_key = sample_key;
  psk = none;
  endpoint = some localhost;
  allowed_ips = (v4 (10 ∷ 0 ∷ 0 ∷ 0 ∷ []), 24) ∷ [];
  keepalive = some 25;
}

abbrev pub session : ℕ → ℕ → Session ℕ
session ours theirs = record {
  noise = 3;
  our_index = ours;
  their_index = theirs;
  anti_replay = record { last = 0; bitmap = replicate 64 0 };
  birthday = some second;
}

abbrev pub no_sessions : Sessions ℕ
no_sessions = record { past = none; current = none; next = none }

abbrev pub three_sessions : Sessions ℕ
three_sessions = record {
  past = some (session 1 11);
  current = some (session 2 22);
  next = some (session 3 33);
}

abbrev pub cookie : Generator
cookie = record {
  mac1_key = replicate 32 1;
  mac2 = record {
    cookie = replicate 16 0;
    cookie_time = none;
    last_mac1 = some (replicate 16 9);
    key = replicate 32 2;
  };
}

abbrev pub validator : Validator
validator = record {
  mac1_key = replicate 32 1;
  mac2 = record { secret = replicate 16 0; secret_time = none; key = replicate 32 2 };
}

abbrev pub peer : Sessions ℕ → Peer ℕ
peer sessions = record {
  info = info;
  sessions = sessions;
  timers = default_timers;
  tx_bytes = 0;
  rx_bytes = 0;
  last_handshake_tai64n = none;
  outgoing_queue = [];
  cookie = cookie;
}

abbrev pub stamp : ℕ → Tai64n
stamp n = record { tai64n = n ∷ replicate 11 0 }

abbrev pub incoming : IncompleteIncomingHandshake ℕ
incoming = record { their_index = 44; timestamp = stamp 5; noise = 0 }

-- A data packet for the index 3 with the number 8.
abbrev pub data_packet : Bytes
data_packet = 4 ∷ 0 ∷ 0 ∷ 0 ∷ 3 ∷ 0 ∷ 0 ∷ 0 ∷ 8 ∷ 0 ∷ 0 ∷ 0 ∷ 0 ∷ 0 ∷ 0 ∷ 0 ∷ replicate 16 0

abbrev pub inputs : Inputs
inputs = record {
  now = 10 * second;
  tai64n = stamp 6;
  secret = replicate 16 3;
  reply_nonce = replicate 24 4;
  draws = 7 ∷ 8 ∷ [];
  bind = λ port. ok tt;
  set_mark = λ mark. ok tt;
}

abbrev pub server : PeerServer ℕ ℕ
server = record {
  state = record {
    pubkey_map = (sample_key, 0) ∷ [];
    index_map = (1, 0) ∷ (2, 0) ∷ (3, 0) ∷ [];
    router = record { ip4_map = 0; ip6_map = 0 };
    interface_info = record {
      private_key = some sample_key;
      pub_key = some sample_key;
      listen_port = some 51820;
      fwmark = none;
    };
  };
  peers = λ r. peer (if r == 0 then three_sessions else no_sessions);
  next_rc = 1;
  udp = none;
  port = none;
  handshakes = [];
  timer = new_timer;
  cookie = validator;
  rate_limiter = new_limiter;
  under_load_until = 0;
  egress = [];
  tunnel = [];
}
