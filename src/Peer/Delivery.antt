-- ===== src/Peer/Delivery.antt =====
-- src/peer.rs: a data packet from the peer that sends it to the peer that receives it.
use wireguard_rs.Base.{
  ℕ, ◌-◌, ◌^◌, ◌<◌, ◌≡◌, refl, sym, subst, ap, ◌∙◌, true, some, [], ◌∷◌, ◌++◌, Result, ok, Error,
  Bytes, length, ltb, arith, take, replicate, length-append, length-drop, ok_or,
}
use wireguard_rs.Base.Copies.{take-append_le, take_all}
use wireguard_rs.Base.Fallible
use wireguard_rs.Base.Monad.{get_cases, ensure_cases, pass_cases, then_pass_cases, modify_cases}
use wireguard_rs.Consts.{reject_after_messages, reject_after_time}
use wireguard_rs.Timestamp.{elapsed}
use wireguard_rs.Types.{Endpoint}
use wireguard_rs.Crates.{Crates}
use wireguard_rs.Crates.Laws.{NoiseLaws, Opens}
use wireguard_rs.AntiReplay
use wireguard_rs.IpPacket.{IpPacket}
use wireguard_rs.IpPacket
use wireguard_rs.Message.{our_index, nonce, payload}
use wireguard_rs.Peer.{Peer, Session, SessionType, SessionTransition, find_session}
use wireguard_rs.Peer.Sending.{Sent, handle_outgoing_transport-Sent}
use wireguard_rs.Peer.Transport.{
  receive, truncated, padding, handle_incoming_transport, handle_outgoing_transport, put_back,
}

module _ {N T : Type 0} (crates : Crates N T) where
  abbrev pub padded : Bytes → Bytes
  padded packet = packet ++ replicate (padding (length packet)) 0

  -- The IP header of a padded packet tells the length of the packet. A keepalive has none.
  abbrev pub TellsLength : Bytes → Type 0
  TellsLength [] = Unit {0}
  TellsLength (b ∷ rest) =
      (ip : IpPacket) × (IpPacket.new crates (padded (b ∷ rest)) ≡ some ip)
      × (IpPacket.length ip ≡ length (b ∷ rest))

  take_exact : (xs ys : Bytes) → take (length xs) (xs ++ ys) ≡ xs
  take_exact xs ys = take-append_le xs ys (length xs) (omega arith) ∙ take_all xs _ (omega arith)

  -- The padding is cut off again.
  truncated-padded :
      (packet : Bytes) (room : ℕ)
      → TellsLength packet
      → truncated crates (padded packet) room ≡ ok packet
  unfolding truncated
  truncated-padded [] room _ = refl
  truncated-padded (b ∷ rest) room (ip, parsed, long) =
      ap
        (λ o.
          Fallible.◌>>=◌ (ok_or o Error.invalid_ip_packet)
            λ ip. ok (take (IpPacket.length ip) (padded packet ++ more)))
        parsed
      ∙ ap ok (
          ap (λ n. take n (padded packet ++ more)) long
          ∙ take-append_le (padded packet) more (length packet)
              (omega (arith, length-append packet zeros))
          ∙ take_exact packet zeros)
    where
      packet : Bytes
      packet = b ∷ rest

      zeros : Bytes
      zeros = replicate (padding (length packet)) 0

      more : Bytes
      more = replicate (room - length (padded packet)) 0

  -- What the receiver's session must allow.
  pub record Receptive (now number : ℕ) (t : Session N) : Type 0 where
    pub finished : crates.is_handshake_finished t.noise ≡ true
    pub young : ltb (elapsed now t.birthday) reject_after_time ≡ true
    pub fresh : (AntiReplay.update t.anti_replay number).1 ≡ ok tt

  receive-sent :
      (now number : ℕ) (packet message out : Bytes) (room : ℕ) (s t : Session N)
      → Receptive now number t
      → Opens crates s.noise t.noise
      → crates.sending_nonce s.noise ≡ ok number
      → ltb number reject_after_messages ≡ true
      → (crates.write_message s.noise (padded packet) room).1 ≡ ok message
      → nonce out ≡ number
      → payload out ≡ message
      → TellsLength packet
      → (receive crates now out t).1 ≡ ok packet
  unfolding receive
  receive-sent now number packet message out room s t may opens next few written numbered carried
        tells =
      get_cases P _ t (
        ensure_cases P _ _ _ t (λ no. let e = may.finished in absurd cc)
          λ _.
            ensure_cases P _ _ _ t
              (λ no. let e = ap (λ n. ltb n reject_after_messages) numbered in absurd cc)
              λ _.
                ensure_cases P _ _ _ t (λ no. let e = may.young in absurd cc)
                  λ _. then_pass_cases P _ _ t (ap (λ r. (updated, r)) fresh) (
                    then_pass_cases P _ _ updated (ap (λ r. (armed, r)) (opens.accepts (nonce out)))
                      (pass_cases P _ _ armed (ap (λ r. (read, r)) plain)
                        (truncated-padded packet (length out) tells))))
    where
      P : Session N × Result Bytes → Type 0
      P r = r.1 ≡ ok packet

      updated : Session N
      updated = record t { anti_replay = (AntiReplay.update t.anti_replay (nonce out)).0 }

      armed : Session N
      armed = record updated { noise = (crates.set_receiving_nonce t.noise (nonce out)).0 }

      read : Session N
      read = record armed { noise = (crates.read_message armed.noise (payload out) (length out)).0 }

      fresh : (AntiReplay.update t.anti_replay (nonce out)).1 ≡ ok tt
      fresh = ap (λ n. (AntiReplay.update t.anti_replay n).1) numbered ∙ may.fresh

      plain : (crates.read_message armed.noise (payload out) (length out)).1 ≡ ok (padded packet)
      plain =
          opens.decrypts (nonce out) (padded packet) (payload out) room (length out)
            (next ∙ ap ok (sym numbered)) (written ∙ ap ok (sym carried))
            (omega (arith, length-drop 16 out))

  -- The receiver's session decrypts what the sender's encrypts, and takes its next number.
  pub record Connected (now : ℕ) (s t : Session N) : Type 0 where
    pub opens : Opens crates s.noise t.noise
    pub receptive : (n : ℕ) → crates.sending_nonce s.noise ≡ ok n → Receptive now n t

  abbrev pub Arrives : Bytes → Peer N × Result (Bytes × SessionTransition) → Type 0
  Arrives packet r = (moved : SessionTransition) × (r.1 ≡ ok (packet, moved))

  put_back_ok :
      {A : Type 0} (kind : SessionType) (q : Peer N) (a : A) (r : Session N × Result A)
      → r.1 ≡ ok a
      → put_back kind q r ≡ ((put_back kind q r).0, ok a)
  put_back_ok kind q a (t, res) h = ap (λ x. ((put_back kind q (t, res)).0, x)) h

  handle_incoming_transport-Arrives :
      (now : ℕ) (from : Endpoint) (packet out : Bytes) (q : Peer N) (t : Session N)
      (kind : SessionType)
      → find_session (our_index out) q ≡ some (t, kind)
      → (receive crates now out t).1 ≡ ok packet
      → Arrives packet (handle_incoming_transport crates now from out q)
  unfolding handle_incoming_transport
  handle_incoming_transport-Arrives now from packet out q t kind found received = get_cases P _ q (
      pass_cases P _ _ q (ap (λ o. (q, ok_or o Error.no_session_with_index)) found) (
        pass_cases P _ _ q (put_back_ok kind q packet (receive crates now out t) received)
          (modify_cases P _ _ _ (pass_cases P _ _ _ refl (modify_cases P _ _ _ (_, refl))))))
    where
      P : Peer N × Result (Bytes × SessionTransition) → Type 0
      P = Arrives packet

module _ {N T : Type 0} (crates : Crates N T) (laws : NoiseLaws crates) where
  -- What one peer sends, the other receives: where snow writes no more than its buffer holds, the
  -- index of the sender's current session has 32 bits and names a session of the receiver that is
  -- finished and young enough, decrypts what the sender's encrypts and has not seen its number, and the
  -- IP header of the packet tells its length, the receiver gets the very packet out of the datagram.
  pub handle_incoming_transport-handle_outgoing_transport :
      (now later : ℕ) (endpoint from : Endpoint) (packet out : Bytes) (p q : Peer N)
      (s t : Session N) (kind : SessionType)
      → p.sessions.current ≡ some s
      → s.their_index < 256 ^ 4
      → find_session s.their_index q ≡ some (t, kind)
      → Connected crates later s t
      → TellsLength crates packet
      → (handle_outgoing_transport crates now packet p).1 ≡ ok (endpoint, out)
      → Arrives crates packet (handle_incoming_transport crates later from out q)
  handle_incoming_transport-handle_outgoing_transport now later endpoint from packet out p q s t
        kind current small found connected tells sent =
      arrived (
        subst
          (λ x.
            Sent crates laws now packet p ((handle_outgoing_transport crates now packet p).0, x))
          sent
          (handle_outgoing_transport-Sent crates laws now packet p
            (λ s' e. subst (λ x. x.their_index < 256 ^ 4) (same s' e) small)))
    where
      same : (s' : Session N) → p.sessions.current ≡ some s' → s ≡ s'
      same s' e = let both = sym current ∙ e in cc

      arrived :
          Sent crates laws now packet p
            ((handle_outgoing_transport crates now packet p).0, ok (endpoint, out))
          → Arrives crates packet (handle_incoming_transport crates later from out q)
      arrived (_, (s', n, message, at, next, few, _, written, (_, index, number, carried))) =
          let e = same s' at in
          handle_incoming_transport-Arrives crates later from packet out q t kind
            (ap (λ i. find_session i q) (index ∙ ap (λ x. x.their_index) (sym e)) ∙ found)
            (receive-sent crates later n packet message out _ s' t
              (connected.receptive n (ap (λ x. crates.sending_nonce x.noise) e ∙ next))
              (subst (λ x. Opens crates x.noise t.noise) e connected.opens) next few written number
              carried tells)
