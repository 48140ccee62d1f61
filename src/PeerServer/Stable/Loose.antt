-- ===== src/PeerServer/Stable/Loose.antt =====
-- src/interface/peer_server.rs: properties that no handler of handshakes touches, as they hold whatever
-- the index map is, and whatever a peer becomes under its name.
use wireguard_rs.Base.{ℕ, refl, Option, none, some, List, Result, Bytes, eq_nat}
use wireguard_rs.Base.Monad.{M}
use wireguard_rs.Base.Preserves.{
  Preserves, bind-Preserves, seq-Preserves, branch-Preserves, ensure-Preserves,
}
use wireguard_rs.Types.{Endpoint}
use wireguard_rs.Crates.{Crates}
use wireguard_rs.Peer.{Peer, Sessions, SessionTransition, no_transition, transition}
use wireguard_rs.Peer.Identity.{
  Named, initiate_new_session-Named, complete_incoming_handshake-Named,
  process_incoming_handshake_response-Named,
}
use wireguard_rs.PeerServer.{
  PeerServer, Inputs, update_peer, with_peer, put_peer, with_state, remove_dead, insert_index,
  unused_index, change_peer,
}
use wireguard_rs.PeerServer.Handshakes.{
  handle_ingress_handshake_init, handle_ingress_handshake_resp, send_handshake_init,
}
use wireguard_rs.PeerServer.Packets.{handle_transition}
use wireguard_rs.PeerServer.Events.{wipe_peer}
use wireguard_rs.PeerServer.Stable.{
  Closed, alike, change_peer-Preserves, send_to_peer-Preserves, send_after-Preserves,
  admit-Preserves, send_drained-Preserves, confirm_session-Preserves,
}
use wireguard_rs.PeerServer.Stable.Reactions.{Indexed}

module _ {N T : Type 0} where
  pub record Loose (P : PeerServer N T → Type 0) : Type 0 where
    pub closed : Closed P
    pub indexed :
        (s : PeerServer N T) (m : List (ℕ × ℕ))
        → P s
        → P (record s { state = record (s.state) { index_map = m } })
    pub renamed :
        (s : PeerServer N T) (r : ℕ) (q : Peer N)
        → Named (s.peers r).info.pub_key (s.peers r).info.allowed_ips q
        → P s
        → P (record s { peers = update_peer r q s.peers })

module _ {N T : Type 0} (P : PeerServer N T → Type 0) (loose : Loose P) where
  remove_dead-Preserves : (dead : Option ℕ) → Preserves P (with_state (remove_dead dead))
  unfolding remove_dead
  remove_dead-Preserves none s h = h
  remove_dead-Preserves (some i) s h = loose.indexed s _ h

  insert_index-Preserves : (index r : ℕ) → Preserves P (with_state (insert_index index r))
  unfolding insert_index
  insert_index-Preserves index r s h = loose.indexed s _ h

  unused_index-Preserves : (draws : List ℕ) → Preserves P (unused_index draws)
  unfolding unused_index
  unused_index-Preserves draws s h = h

  -- A method of a peer that changes its sessions as well.
  renaming-Preserves :
      {A : Type 0} (r : ℕ) (m : M (Peer N) A)
      → ((p : Peer N) → Named p.info.pub_key p.info.allowed_ips (m p).0)
      → Preserves P (with_peer r m)
  unfolding with_peer
  renaming-Preserves {A} r m kept s h = put (m (s.peers r)) (kept (s.peers r))
    where
      put :
          (x : Peer N × Result A)
          → Named (s.peers r).info.pub_key (s.peers r).info.allowed_ips x.0
          → P (put_peer r s x).0
      put (q, res) k = loose.renamed s r q k h

module _ {N T : Type 0} (crates : Crates N T) (P : PeerServer N T → Type 0) (loose : Loose P) where
  send_handshake_init-Preserves :
      (inputs : Inputs) (peer_ref : ℕ) → Preserves P (send_handshake_init crates inputs peer_ref)
  unfolding send_handshake_init
  send_handshake_init-Preserves inputs peer_ref =
      bind-Preserves P _ _ (λ s h. h)
        λ _. seq-Preserves P _ _ (ensure-Preserves P _ _) (
          bind-Preserves P _ _ (λ s h. h)
            λ private_key. bind-Preserves P _ _ (unused_index-Preserves P loose _) λ index.
              bind-Preserves P _ _
                (renaming-Preserves P loose peer_ref _
                  λ p. initiate_new_session-Named crates _ _ _ _ _ index p (refl, refl))
                λ started. seq-Preserves P _ _ (insert_index-Preserves P loose _ _) (
                  seq-Preserves P _ _ (remove_dead-Preserves P loose _) (
                    seq-Preserves P _ _ (send_to_peer-Preserves P loose.closed _) (
                      seq-Preserves P _ _
                        (change_peer-Preserves P loose.closed peer_ref _ (λ p. alike p _ refl refl))
                        (bind-Preserves P _ _ (send_after-Preserves P loose.closed _ _ _)
                          λ _ s h. h)))))

  handle_ingress_handshake_init-Preserves :
      (inputs : Inputs) (from : Endpoint) (packet : Bytes)
      → Preserves P (handle_ingress_handshake_init crates inputs from packet)
  unfolding handle_ingress_handshake_init
  handle_ingress_handshake_init-Preserves inputs from packet =
      seq-Preserves P _ _ (admit-Preserves P loose.closed crates inputs from 116 packet _) (
        bind-Preserves P _ _ (λ s h. h)
          λ _.
            bind-Preserves P _ _ (λ s h. h)
              λ private_key.
                bind-Preserves P _ _ (λ s h. h)
                  λ handshake.
                    bind-Preserves P _ _ (λ s h. h)
                      λ pubkey.
                        bind-Preserves P _ _ (λ s h. h)
                          λ peer_ref.
                            bind-Preserves P _ _ (unused_index-Preserves P loose _) λ index.
                              bind-Preserves P _ _
                                (renaming-Preserves P loose peer_ref _ λ p.
                                  complete_incoming_handshake-Named crates _ _ _ from index
                                    handshake p (refl, refl))
                                λ completed. seq-Preserves P _ _ (remove_dead-Preserves P loose _) (
                                  seq-Preserves P _ _ (insert_index-Preserves P loose _ _)
                                    (send_to_peer-Preserves P loose.closed _)))

  handle_ingress_handshake_resp-Preserves :
      (inputs : Inputs) (from : Endpoint) (packet : Bytes)
      → Preserves P (handle_ingress_handshake_resp crates inputs from packet)
  unfolding handle_ingress_handshake_resp
  handle_ingress_handshake_resp-Preserves inputs from packet =
      seq-Preserves P _ _ (admit-Preserves P loose.closed crates inputs from 60 packet _) (
        bind-Preserves P _ _ (λ s h. h)
          λ _.
            bind-Preserves P _ _ (λ s h. h)
              λ peer_ref.
                bind-Preserves P _ _
                  (renaming-Preserves P loose peer_ref _ λ p.
                    process_incoming_handshake_response-Named crates _ _ _ from packet p
                      (refl, refl))
                  λ dead. seq-Preserves P _ _ (remove_dead-Preserves P loose _) (
                    bind-Preserves P _ _ (λ s h. h)
                      λ ready.
                        bind-Preserves P _ _ (λ s h. h)
                          λ _.
                            seq-Preserves P _ _
                              (branch-Preserves P ready _ _
                                (confirm_session-Preserves P loose.closed crates inputs.now peer_ref
                                  _)
                                (λ s h. h))
                              (bind-Preserves P _ _ (send_after-Preserves P loose.closed _ _ _)
                                λ _ s h. h)))

  wipe_peer-Preserves :
      (peer_ref : ℕ) (wiped : Sessions N × List ℕ) → Preserves P (wipe_peer peer_ref wiped)
  unfolding wipe_peer change_peer
  wipe_peer-Preserves peer_ref wiped =
      seq-Preserves P _ _ (λ s h. loose.renamed s peer_ref _ (refl, refl) h)
        (λ s h. loose.indexed s _ h)

  pub Loose-Indexed : Indexed crates P
  Loose-Indexed = record {
    closed = loose.closed;
    started = send_handshake_init-Preserves;
    answered = handle_ingress_handshake_init-Preserves;
    promoted = handle_ingress_handshake_resp-Preserves;
    wiped = λ peer_ref s h. wipe_peer-Preserves peer_ref _ s h;
  }

  -- The steps of a data packet before it is delivered.
  pub handle_transition-Preserves :
      (now peer_ref : ℕ) (moved : SessionTransition)
      → Preserves P (handle_transition crates now peer_ref moved)
  unfolding handle_transition
  handle_transition-Preserves now peer_ref no_transition = λ s h. h
  handle_transition-Preserves now peer_ref (transition gone) =
      seq-Preserves P _ _ (remove_dead-Preserves P loose gone) (
        bind-Preserves P _ _ (λ s h. h)
          λ _.
            seq-Preserves P _ _
              (change_peer-Preserves P loose.closed peer_ref _ (λ p. alike p _ refl refl))
              (seq-Preserves P _ _ (send_drained-Preserves P loose.closed crates now peer_ref _)
                (bind-Preserves P _ _ (send_after-Preserves P loose.closed _ _ _) λ _ s h. h)))
