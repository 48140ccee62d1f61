-- ===== src/Tests/Configured.antt =====
-- Instances of the theorems on the configuration: a server whose only peer is joined by a second one,
-- and removed.
use wireguard_rs.Base.{
  ℕ, ◌<◌, ◌≡◌, refl, Bool, true, false, none, some, List, [], ◌∷◌, ◌++◌, err, replicate, arith,
  eq_nat, eq_bytes, bytes_eq, bytes_eq_iff, Bytes, Bool-cases, inl, inr,
}
use wireguard_rs.Base.Maps.{lookup, insert}
use wireguard_rs.Base.Monad.{◌>>=◌, ◌>>◌, ensure}
use wireguard_rs.Types.{PeerInfo}
use wireguard_rs.Utun.{inet4}
use wireguard_rs.Crates.Sample.{sample, sample_key}
use wireguard_rs.PeerServer.{PeerServer}
use wireguard_rs.PeerServer.Poll.{egress}
use wireguard_rs.PeerServer.Indices.{Mapped}
use wireguard_rs.Config.{UpdateEvent, Command, handle_update}
use wireguard_rs.Config.System.{
  System, Happening, reaction, received, command, update_item, update_items, history,
}
use wireguard_rs.Config.Indices.{history-Mapped, history_takes_none}
use wireguard_rs.Config.Registry.{Registered, handle_update-Registered}
use wireguard_rs.Config.Refusal.{accepts, refusal, handle_update-Settled, update_items-stops}
use wireguard_rs.Tests.{server, inputs, info}

abbrev own_key : List ℕ
own_key = replicate 32 9

abbrev configured : PeerServer ℕ ℕ
configured = record server {
  state = record (server.state) {
    interface_info = record (server.state.interface_info) { pub_key = some own_key };
  };
}

abbrev sys : System ℕ ℕ
sys = record { server = configured; channel = [] }

abbrev other : PeerInfo
other = record info { pub_key = replicate 32 8; keepalive = some 5 }

abbrev happenings : List Happening
happenings =
    command (
      Command.set 1 (
        UpdateEvent.update_peer other false
        ∷ UpdateEvent.remove_peer (replicate 32 6)
        ∷ UpdateEvent.fwmark 3
        ∷ []))
    ∷ received inputs
    ∷ reaction (inputs, egress (inet4 (69 ∷ 0 ∷ 0 ∷ 20 ∷ [])))
    ∷ []

none_taken : history_takes_none sample happenings sys ≡ true
unfolding history_takes_none update_item handle_update lookup insert ◌>>=◌ ◌>>◌ ensure
none_taken = refl

configured-Mapped : Mapped configured.peers configured.state.index_map
unfolding lookup
configured-Mapped = record { once = λ r i. ground arith; found = λ r i h. ground arith }

history-Mapped_example :
    let after = (history sample happenings sys).server in Mapped after.peers after.state.index_map
history-Mapped_example = history-Mapped sample happenings sys none_taken configured-Mapped

one_entry : (key k : Bytes) (r : ℕ) → lookup k ((key, 0) ∷ []) ≡ some r → (key ≡ k) × (0 ≡ r)
unfolding lookup
one_entry key k r h = elim (Bool-cases (bytes_eq key k)) [
  | inl same ↦ ((bytes_eq_iff key k).0 same, ground (arith, same, h))
  | inr other ↦ absurd (ground (arith, other, h))
]

other_entry :
    (key own k : Bytes)
    → bytes_eq key own ≡ false
    → some own ≡ some k
    → lookup {V = ℕ} k ((key, 0) ∷ []) ≡ none
unfolding lookup
other_entry key own k h e = ground (arith, h, e)

configured-Registered :
    Registered configured.state.pubkey_map configured.peers configured.next_rc (some own_key)
configured-Registered = record {
  keyed = λ k r h. (one_entry sample_key k r h).0;
  allocated = λ k r h. omega (arith, (one_entry sample_key k r h).1);
  not_self = λ k h. other_entry sample_key own_key k refl h;
  few = omega arith;
}

handle_update-Registered_example :
    let after = (handle_update sample (UpdateEvent.update_peer other true) configured).0 in
    Registered after.state.pubkey_map after.peers after.next_rc after.state.interface_info.pub_key
handle_update-Registered_example =
    handle_update-Registered sample (UpdateEvent.update_peer other true) configured
      configured-Registered

-- The peer is not there.
handle_update-Settled_example :
    handle_update sample (UpdateEvent.remove_peer own_key) configured
    ≡ (configured, err (refusal (UpdateEvent.remove_peer own_key)))
unfolding lookup
handle_update-Settled_example =
    handle_update-Settled sample (UpdateEvent.remove_peer own_key) configured

is_absent :
    accepts
      (UpdateEvent.remove_peer own_key)
      (update_items sample (UpdateEvent.fwmark 7 ∷ []) sys).0.server
    ≡ false
unfolding lookup update_items wireguard_rs.Base.Monad.◌>>◌
is_absent = refl

update_items-stops_example :
    update_items sample
      ((UpdateEvent.fwmark 7 ∷ []) ++ UpdateEvent.remove_peer own_key ∷ UpdateEvent.fwmark 8 ∷ [])
      sys
    ≡ (
      (update_items sample (UpdateEvent.fwmark 7 ∷ []) sys).0,
      err (refusal (UpdateEvent.remove_peer own_key)),
    )
unfolding update_items wireguard_rs.Base.Monad.◌>>◌
update_items-stops_example =
    update_items-stops sample (UpdateEvent.fwmark 7 ∷ []) (UpdateEvent.fwmark 8 ∷ [])
      (UpdateEvent.remove_peer own_key) sys refl is_absent
