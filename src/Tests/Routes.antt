-- ===== src/Tests/Routes.antt =====
-- Instances of the theorems on routes, with a table that is a list of networks. It is searched for the
-- address itself, with a mask of 32 bits.
use wireguard_rs.Base.{
  ℕ, ◌≡◌, refl, false, none, some, List, [], ◌∷◌, Bytes, arith, eq_bytes, if◌then◌else◌, bytes_eq,
  bytes_eq_iff,
}
use wireguard_rs.Base.Maps.{lookup, insert, remove, lookup-insert, lookup-remove}
use wireguard_rs.Base.Monad.{◌>>=◌, ◌>>◌, ensure}
use wireguard_rs.Types.{PeerInfo, v4}
use wireguard_rs.Crates.{Crates}
use wireguard_rs.Crates.Laws.{TableLaws}
use wireguard_rs.Crates.Sample.{sample, sample_key}
use wireguard_rs.IpPacket.{IpPacket}
use wireguard_rs.IpPacket
use wireguard_rs.Router.{route_to_peer}
use wireguard_rs.PeerServer.{PeerServer}
use wireguard_rs.Config.{Command, UpdateEvent, handle_update}
use wireguard_rs.Config.Registry.{Registered, handle_update-Registered}
use wireguard_rs.Config.Routes.{Family, family4, family6, route, covered}
use wireguard_rs.Config.Routes.Kept.{Routed}
use wireguard_rs.Config.Routes.Updates.{
  handle_update-Routed, route-remove_peer, route_to_peer-Serves, Serves,
}
use wireguard_rs.PeerServer.Poll.{ingress}
use wireguard_rs.Config.System.{Happening, command, received, reaction, history}
use wireguard_rs.Config.History.{Administered, history-Administered}
use wireguard_rs.Tests.{localhost, inputs, data_packet, server, info}

abbrev pub Table : Type 0
Table = List (Bytes × ℕ)

abbrev pub crates : Crates ℕ Table
crates = record {
  build_initiator = sample.build_initiator;
  build_responder = sample.build_responder;
  set_psk = sample.set_psk;
  write_message = sample.write_message;
  read_message = sample.read_message;
  into_transport_mode = sample.into_transport_mode;
  is_handshake_finished = sample.is_handshake_finished;
  sending_nonce = sample.sending_nonce;
  set_receiving_nonce = sample.set_receiving_nonce;
  get_remote_static = sample.get_remote_static;
  blake2s = sample.blake2s;
  aead_encrypt = sample.aead_encrypt;
  aead_decrypt = sample.aead_decrypt;
  generate_public = sample.generate_public;
  ipv4_packet = sample.ipv4_packet;
  ipv6_packet = sample.ipv6_packet;
  empty_table = [];
  table_insert = λ t ip mask r. insert (mask ∷ ip) r t;
  table_remove = λ t ip mask. remove (mask ∷ ip) t;
  longest_match = λ t ip. lookup (32 ∷ ip) t;
}

pub laws : TableLaws crates
unfolding lookup
laws = record {
  net = λ ip mask. mask ∷ ip;
  exact = λ n t. lookup n t;
  exact-empty = λ n. refl;
  exact-insert = λ n t ip mask r. lookup-insert (mask ∷ ip) n r t;
  exact-remove = λ n t ip mask. lookup-remove (mask ∷ ip) n t;
  holds = λ n ip. bytes_eq n (32 ∷ ip);
  match_exact = λ t ip r h. (32 ∷ ip, h, (bytes_eq_iff (32 ∷ ip) (32 ∷ ip)).1 refl);
}

abbrev empty : PeerServer ℕ Table
empty = record {
  state = record {
    pubkey_map = [];
    index_map = [];
    router = record { ip4_map = []; ip6_map = [] };
    interface_info = record {
      private_key = none;
      pub_key = none;
      listen_port = none;
      fwmark = none;
    };
  };
  peers = server.peers;
  next_rc = 0;
  udp = none;
  port = none;
  handshakes = [];
  timer = server.timer;
  cookie = server.cookie;
  rate_limiter = server.rate_limiter;
  under_load_until = 0;
  egress = [];
  tunnel = [];
}

-- The address that the toy parser finds in each packet.
abbrev pub joining : PeerInfo
joining = record info { allowed_ips = (v4 (10 ∷ 0 ∷ 0 ∷ 1 ∷ []), 32) ∷ [] }

abbrev joined : PeerServer ℕ Table
joined = (handle_update crates (UpdateEvent.update_peer joining false) empty).0

empty-Registered : Registered empty.state.pubkey_map empty.peers empty.next_rc none
unfolding lookup
empty-Registered = record {
  keyed = λ k r h. absurd (ground arith);
  allocated = λ k r h. absurd (ground arith);
  not_self = λ k h. refl;
  few = omega arith;
}

empty-Routed : Routed crates laws empty.state.pubkey_map empty.peers empty.state.router
unfolding lookup laws
empty-Routed f n r h = absurd (nowhere f h)
  where
    nowhere : (f : Family) → route crates laws f n empty.state.router ≡ some r → ⊥
    nowhere family4 h = ground arith
    nowhere family6 h = ground arith

joined-Registered :
    Registered joined.state.pubkey_map joined.peers joined.next_rc
      joined.state.interface_info.pub_key
joined-Registered =
    handle_update-Registered crates (UpdateEvent.update_peer joining false) empty empty-Registered

joined-Routed : Routed crates laws joined.state.pubkey_map joined.peers joined.state.router
joined-Routed =
    handle_update-Routed crates laws (UpdateEvent.update_peer joining false) empty empty-Registered
      empty-Routed

handle_update-Routed_example :
    let after = (handle_update crates (UpdateEvent.remove_peer sample_key) joined).0 in
    Routed crates laws after.state.pubkey_map after.peers after.state.router
handle_update-Routed_example =
    handle_update-Routed crates laws (UpdateEvent.remove_peer sample_key) joined joined-Registered
      joined-Routed

is_known : lookup sample_key joined.state.pubkey_map ≡ some 0
unfolding lookup handle_update ◌>>=◌ ◌>>◌ ensure insert
is_known = refl

route-remove_peer_example :
    route crates laws family4
      (32 ∷ 10 ∷ 0 ∷ 0 ∷ 1 ∷ [])
      (handle_update crates (UpdateEvent.remove_peer sample_key) joined).0.state.router
    ≡ (if covered crates laws family4 (32 ∷ 10 ∷ 0 ∷ 0 ∷ 1 ∷ []) (joined.peers 0).info.allowed_ips
        then none
        else route crates laws family4 (32 ∷ 10 ∷ 0 ∷ 0 ∷ 1 ∷ []) joined.state.router)
route-remove_peer_example =
    route-remove_peer crates laws sample_key 0 joined family4 (32 ∷ 10 ∷ 0 ∷ 0 ∷ 1 ∷ []) is_known

abbrev toy_packet : IpPacket
toy_packet =
    IpPacket.v4
      (record { source = 10 ∷ 0 ∷ 0 ∷ 2 ∷ []; destination = 10 ∷ 0 ∷ 0 ∷ 1 ∷ []; total_length = 1 })

is_parsed : IpPacket.new crates (69 ∷ []) ≡ some toy_packet
unfolding IpPacket.new
is_parsed = refl

is_routed : route_to_peer crates (69 ∷ []) joined.state.router ≡ some 0
unfolding route_to_peer handle_update lookup ◌>>=◌ ◌>>◌ ensure insert wireguard_rs.IpPacket.new
is_routed = refl

route_to_peer-Serves_example : Serves crates laws joined 0 (v4 (10 ∷ 0 ∷ 0 ∷ 1 ∷ []))
route_to_peer-Serves_example =
    route_to_peer-Serves crates laws (69 ∷ []) toy_packet joined 0 joined-Routed is_parsed is_routed

abbrev events : List Happening
events =
    command (Command.set 1 (UpdateEvent.fwmark 3 ∷ []))
    ∷ received inputs
    ∷ reaction (inputs, ingress localhost data_packet)
    ∷ command (Command.set 1 (UpdateEvent.remove_peer sample_key ∷ []))
    ∷ []

history-Administered_example :
    Administered crates laws
      (history crates events (record { server = joined; channel = [] })).server
history-Administered_example =
    history-Administered crates laws events (record { server = joined; channel = [] })
      (joined-Registered, joined-Routed)
