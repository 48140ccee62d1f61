-- ===== src/Tests/Peers.antt =====
-- Instances of the theorems on one peer.
use wireguard_rs.Base.{
  true, ℕ, ◌*◌, ◌^◌, ◌<◌, ◌≡◌, refl, subst, Option, none, some, [], ◌∷◌, Result, ok, err, Error,
  Bytes, replicate, arith,
}
use wireguard_rs.Base.Monad.{◌>>=◌, ◌>>◌, ensure}
use wireguard_rs.Consts.{second}
use wireguard_rs.AntiReplay
use wireguard_rs.IpPacket
use wireguard_rs.Crates.Sample.{sample, sample_key, sample-NoiseLaws, sample-Opens}
use wireguard_rs.Peer.{
  find_session, SessionType, Peer, Session, ready_for_transport, session_ready, nonce_reaches,
}
use wireguard_rs.Peer.Handshake.{
  complete_incoming_handshake, initiate_new_session, process_incoming_handshake_response,
  get_response_packet, replace_next,
}
use wireguard_rs.Peer.Transport.{handle_incoming_transport, handle_outgoing_transport}
use wireguard_rs.Peer.Rotation.{
  dead_of, Promoted, initiate_new_session-Rotated, process_incoming_handshake_response-Promoted,
  Rotated,
}
use wireguard_rs.Peer.Completion.{
  Completed, complete_incoming_handshake-Completed, replayed_initiation_refused,
}
use wireguard_rs.Peer.Guards.{Delivered, handle_incoming_transport-Delivered}
use wireguard_rs.Peer.Sending.{Sent, handle_outgoing_transport-Sent}
use wireguard_rs.Peer.Ready.{Writes, handle_outgoing_transport-ready}
use wireguard_rs.Peer.Delivery.{
  Arrives, Connected, TellsLength, handle_incoming_transport-handle_outgoing_transport,
}
use wireguard_rs.Tests.{localhost, three_sessions, peer, stamp, incoming, data_packet, session}

initiate_new_session-Rotated_example : Rotated 7 three_sessions (
    dead_of
      (λ r. r.2)
      (initiate_new_session sample second (stamp 6) sample_key 7 (peer three_sessions)))
initiate_new_session-Rotated_example =
    initiate_new_session-Rotated sample second (stamp 6) sample_key 7 (peer three_sessions)

process_incoming_handshake_response-Promoted_example : Promoted sample (peer three_sessions) (
    process_incoming_handshake_response sample second localhost
      (replicate 92 2)
      (peer three_sessions))
process_incoming_handshake_response-Promoted_example =
    process_incoming_handshake_response-Promoted sample second localhost (replicate 92 2)
      (peer three_sessions)

complete_incoming_handshake-Completed_example :
    Completed sample 7
      (stamp 5)
      (peer three_sessions)
      (complete_incoming_handshake sample second localhost 7 incoming (peer three_sessions))
complete_incoming_handshake-Completed_example =
    complete_incoming_handshake-Completed sample second localhost 7 incoming (peer three_sessions)

abbrev answered : Peer ℕ
answered = (complete_incoming_handshake sample second localhost 7 incoming (peer three_sessions)).0

abbrev ok_value : {A : Type 0} → A → Result A → A
ok_value a (ok b) = b
ok_value a (err e) = a

abbrev answer : Bytes × Option ℕ
answer =
    ok_value ([], none)
      (complete_incoming_handshake sample second localhost 7 incoming (peer three_sessions)).1

is_answered :
    complete_incoming_handshake sample second localhost 7 incoming (peer three_sessions)
    ≡ (answered, ok answer)
unfolding complete_incoming_handshake ◌>>=◌ ◌>>◌ ensure get_response_packet replace_next
is_answered = refl

replayed_initiation_refused_example :
    complete_incoming_handshake sample (2 * second) localhost 8 incoming answered
    ≡ (answered, err Error.handshake_timestamp_earlier)
replayed_initiation_refused_example =
    replayed_initiation_refused sample second localhost 7 incoming (peer three_sessions) answered
      answer is_answered (2 * second) localhost 8 incoming refl

handle_incoming_transport-Delivered_example :
    Delivered sample
      (2 * second)
      localhost
      data_packet
      (peer three_sessions)
      (handle_incoming_transport sample (2 * second) localhost data_packet (peer three_sessions))
handle_incoming_transport-Delivered_example =
    handle_incoming_transport-Delivered sample (2 * second) localhost data_packet
      (peer three_sessions)

current_index : (s : Session ℕ) → some (session 2 22) ≡ some s → s.their_index < 256 ^ 4
current_index s e = ground arith

handle_outgoing_transport-Sent_example :
    Sent sample sample-NoiseLaws
      (2 * second)
      (69 ∷ 0 ∷ [])
      (peer three_sessions)
      (handle_outgoing_transport sample (2 * second) (69 ∷ 0 ∷ []) (peer three_sessions))
handle_outgoing_transport-Sent_example =
    handle_outgoing_transport-Sent sample sample-NoiseLaws (2 * second) (69 ∷ 0 ∷ [])
      (peer three_sessions) current_index

sample-Writes : (n : ℕ) → Writes sample n
sample-Writes n bytes room h small = ground (arith, h)

is_ready : ready_for_transport sample (2 * second) (peer three_sessions) ≡ ok true
unfolding ready_for_transport session_ready nonce_reaches
is_ready = refl

handle_outgoing_transport-ready_example :
    (out : Bytes) × ((handle_outgoing_transport sample
        (2 * second)
        (69 ∷ 0 ∷ [])
        (peer three_sessions)).1
      ≡ ok (localhost, out))
handle_outgoing_transport-ready_example =
    handle_outgoing_transport-ready sample (2 * second) (69 ∷ 0 ∷ []) (peer three_sessions)
      localhost is_ready refl (omega arith) (λ s _. sample-Writes s.noise)

abbrev ping : Bytes
ping = 69 ∷ replicate 15 0

-- What the peer sends for it, and the peer at the other end.
sent :
    (out : Bytes) × ((handle_outgoing_transport sample (2 * second) ping (peer three_sessions)).1
      ≡ ok (localhost, out))
sent =
    handle_outgoing_transport-ready sample (2 * second) ping (peer three_sessions) localhost
      is_ready refl (omega arith) (λ s _. sample-Writes s.noise)

abbrev receiver : Peer ℕ
receiver = peer (record { past = none; current = some (session 22 2); next = none })

sessions-Connected : Connected sample (3 * second) (session 2 22) (session 22 2)
unfolding AntiReplay.update AntiReplay.check
sessions-Connected = record {
  opens = sample-Opens 3 3;
  receptive = λ n e. record {
    finished = refl;
    young = refl;
    fresh =
        subst (λ n. (AntiReplay.update (session 22 2).anti_replay n).1 ≡ ok tt) (number n e) refl;
  };
}
  where
    number : (n : ℕ) → ok 3 ≡ ok n → 3 ≡ n
    number n e = ground arith

ping-TellsLength : TellsLength sample ping
unfolding IpPacket.new
ping-TellsLength = (_, refl, refl)

is_found : find_session 22 receiver ≡ some (session 22 2, SessionType.current)
unfolding find_session
is_found = refl

handle_incoming_transport-handle_outgoing_transport_example :
    Arrives sample ping (handle_incoming_transport sample (3 * second) localhost sent.0 receiver)
handle_incoming_transport-handle_outgoing_transport_example =
    handle_incoming_transport-handle_outgoing_transport sample sample-NoiseLaws (2 * second)
      (3 * second) localhost localhost ping sent.0 (peer three_sessions) receiver (session 2 22)
      (session 22 2) SessionType.current refl (omega arith) is_found sessions-Connected
      ping-TellsLength sent.1
