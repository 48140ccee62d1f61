-- ===== src/Tests/Datagrams.antt =====
-- Instances of the theorem on sockets that take everything, and what a busy socket and a stale pktinfo
-- do.
use wireguard_rs.Base.{
  ◌≡◌, refl, List, true, false, some, [], ◌∷◌, ok, err, Error, length, if◌then◌else◌, is_some,
}
use wireguard_rs.Types.{ep4, addr}
use wireguard_rs.Udp.{
  Kernel, sent, einval, nothing_yet, received, ipv4_packet_info, send_to, recv_from,
}
use wireguard_rs.Udp.Framed.{new, v6_mapped_to_v4}
use wireguard_rs.Udp.Queue.{Use, send, complete, run_sink, queue, accepted, run_sink-queue}
use wireguard_rs.Udp.Liveness.{TakesAll, sends, in_full, sends-taken}
use wireguard_rs.Tests.{localhost}

abbrev willing : Kernel
willing = record {
  writable4 = true;
  writable6 = true;
  readable4 = false;
  readable6 = false;
  sendmsg = λ c. sent (length c.buf);
  recvmsg = λ on6. nothing_yet;
}

willing-TakesAll : TakesAll willing
willing-TakesAll = record { can4 = refl; can6 = refl; whole = λ c. refl }

sends-taken_example :
    (run_sink
      (sends willing willing-TakesAll ((localhost, 1 ∷ 2 ∷ []) ∷ (localhost, 3 ∷ []) ∷ []))
      new).handed
    ≡ in_full ((localhost, 1 ∷ 2 ∷ []) ∷ (localhost, 3 ∷ []) ∷ [])
sends-taken_example =
    sends-taken willing willing-TakesAll ((localhost, 1 ∷ 2 ∷ []) ∷ (localhost, 3 ∷ []) ∷ [])

-- The address that the pktinfo names is gone: the second try, without it, is taken.
abbrev moved : Kernel
moved = record willing { sendmsg = λ c. if is_some c.pktinfo then einval else sent (length c.buf) }

sent_again : send_to moved (1 ∷ 2 ∷ []) (ep4 (addr localhost) (some (9 ∷ []))) ≡ ok 2
unfolding send_to
sent_again = refl

abbrev uses : List Use
uses =
    send willing (localhost, 1 ∷ 2 ∷ [])
    ∷ send moved (localhost, 3 ∷ [])
    ∷ complete (record willing { writable4 = false })
    ∷ complete (record willing { sendmsg = λ c. sent 0 })
    ∷ []

run_sink-queue_example : queue (run_sink uses new) ≡ accepted uses new
run_sink-queue_example = run_sink-queue uses

busy : send_to (record willing { writable4 = false }) (1 ∷ []) localhost ≡ err Error.would_block
unfolding send_to
busy = refl

mapped :
    v6_mapped_to_v4 (0 ∷ 0 ∷ 0 ∷ 0 ∷ 0 ∷ 0xffff ∷ 0x7f00 ∷ 1 ∷ []) ≡ some (127 ∷ 0 ∷ 0 ∷ 1 ∷ [])
unfolding v6_mapped_to_v4
mapped = refl

to_ipv4 :
    recv_from (record willing {
      readable4 = true;
      recvmsg = λ on6.
          received
            (7 ∷ [])
            (some (addr localhost))
            (some (ipv4_packet_info (2 ∷ 0 ∷ 0 ∷ 0 ∷ 10 ∷ 0 ∷ 0 ∷ 9 ∷ 10 ∷ 0 ∷ 0 ∷ 1 ∷ [])));
    })
    ≡ ok (7 ∷ [], ep4 (addr localhost) (some (2 ∷ 0 ∷ 0 ∷ 0 ∷ 10 ∷ 0 ∷ 0 ∷ 1 ∷ 0 ∷ 0 ∷ 0 ∷ 0 ∷ [])))
unfolding recv_from
to_ipv4 = refl
