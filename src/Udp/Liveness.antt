-- ===== src/Udp/Liveness.antt =====
-- src/udp/frame.rs: the sink over sockets that take whatever they are given.
use wireguard_rs.Base.{
  ◌≡◌, refl, sym, ap, ap₂, ◌∙◌, Bool, true, false, ◌&&◌, ◌==◌, ℕ, List, [], ◌∷◌, ◌++◌, Result, ok,
  err, Bytes, length, arith,
}
use mathlib.Core.List.{append-nil}
use wireguard_rs.Types.{Endpoint, ep4, ep6}
use wireguard_rs.Udp.{Kernel, Call, sent, send_to}
use wireguard_rs.Udp.Framed.{
  UdpFramed, Poll, ready, not_ready, new, written_if, start_if, poll_complete, start_send,
}
use wireguard_rs.Udp.Queue.{
  Use, send, complete, run_sink, accepted, queue, datagrams, is_accepted, run_sink-append,
}

-- Both sockets can be written to, and take whole datagrams.
pub record TakesAll (k : Kernel) : Type 0 where
  pub can4 : k.writable4 ≡ true
  pub can6 : k.writable6 ≡ true
  pub whole : (c : Call) → k.sendmsg c ≡ sent (length c.buf)

-- Each datagram with its length, as a system says that takes it whole.
abbrev pub in_full : List (Endpoint × Bytes) → List ((Endpoint × Bytes) × ℕ)
in_full [] = []
in_full ((to, bytes) ∷ items) = ((to, bytes), length bytes) ∷ in_full items

abbrev is_whole : List ((Endpoint × Bytes) × ℕ) → Bool
is_whole [] = true
is_whole (((to, bytes), n) ∷ ds) = n == length bytes && is_whole ds

in_full-datagrams :
    (ds : List ((Endpoint × Bytes) × ℕ)) → is_whole ds ≡ true → ds ≡ in_full (datagrams ds)
in_full-datagrams [] h = refl
in_full-datagrams (((to, bytes), n) ∷ ds) h =
    ap₂ (λ m rest. ((to, bytes), m) ∷ rest) (ground (arith, h))
      (in_full-datagrams ds (ground (arith, h)))

is_whole-append :
    (ds : List ((Endpoint × Bytes) × ℕ)) (to : Endpoint) (bytes : Bytes) (n : ℕ)
    → is_whole ds ≡ true
    → n ≡ length bytes
    → is_whole (ds ++ ((to, bytes), n) ∷ []) ≡ true
is_whole-append [] to bytes n h e = ground (arith, e)
is_whole-append (((to', bytes'), m) ∷ ds) to bytes n h e =
    ground (arith, h, is_whole-append ds to bytes n (ground (arith, h)) e)

module _ (k : Kernel) (takes : TakesAll k) where
  send_to-TakesAll : (buf : Bytes) (target : Endpoint) → send_to k buf target ≡ ok (length buf)
  unfolding send_to
  send_to-TakesAll buf (ep4 sock pktinfo) = rw (takes.can4, takes.whole) refl
  send_to-TakesAll buf (ep6 sock pktinfo) = rw (takes.can6, takes.whole) refl

  -- Emptying the buffer succeeds.
  complete-TakesAll :
      (f : UdpFramed)
      → ((poll_complete k f).0.flushed ≡ true) × ((poll_complete k f).1 ≡ ok (ready tt))
  unfolding poll_complete
  complete-TakesAll f =
      by_flag f.flushed refl (send_to k f.wr f.out_addr) (send_to-TakesAll f.wr f.out_addr)
    where
      by_flag :
          (b : Bool)
          → f.flushed ≡ b
          → (r : Result ℕ) → r ≡ ok (length f.wr)
          → ((written_if b r f).0.flushed ≡ true) × ((written_if b r f).1 ≡ ok (ready tt))
      by_flag true e r h = (e, refl)
      by_flag false e (ok n) h = (refl, ground (arith, h))
      by_flag false e (err x) h = absurd (ground arith)

  start_send-TakesAll :
      (item : Endpoint × Bytes) (f : UdpFramed) → is_accepted (start_send k item f).1 ≡ true
  unfolding start_send
  start_send-TakesAll item f = by_flag f.flushed (poll_complete k f) (complete-TakesAll f).1
    where
      by_flag :
          (b : Bool) (x : UdpFramed × Result (Poll (Unit {0})))
          → x.1 ≡ ok (ready tt)
          → is_accepted (start_if b item x f).1 ≡ true
      by_flag true x h = refl
      by_flag false (g, ok (ready u)) h = refl
      by_flag false (g, ok not_ready) h = absurd (ground arith)
      by_flag false (g, err e) h = absurd (ground arith)

  -- What has been handed over was taken whole.
  complete-is_whole :
      (f : UdpFramed) → is_whole f.handed ≡ true → is_whole (poll_complete k f).0.handed ≡ true
  unfolding poll_complete
  complete-is_whole f whole =
      by_flag f.flushed (send_to k f.wr f.out_addr) (send_to-TakesAll f.wr f.out_addr)
    where
      by_flag :
          (b : Bool) (r : Result ℕ)
          → r ≡ ok (length f.wr)
          → is_whole (written_if b r f).0.handed ≡ true
      by_flag true r h = whole
      by_flag false (ok n) h = is_whole-append f.handed f.out_addr f.wr n whole (ground (arith, h))
      by_flag false (err x) h = absurd (ground arith)

  start_send-is_whole :
      (item : Endpoint × Bytes) (f : UdpFramed)
      → is_whole f.handed ≡ true
      → is_whole (start_send k item f).0.handed ≡ true
  unfolding start_send
  start_send-is_whole item f whole =
      by_flag f.flushed (poll_complete k f) (complete-is_whole f whole)
    where
      by_flag :
          (b : Bool) (x : UdpFramed × Result (Poll (Unit {0})))
          → is_whole x.0.handed ≡ true
          → is_whole (start_if b item x f).0.handed ≡ true
      by_flag true x h = whole
      by_flag false (g, ok (ready u)) h = h
      by_flag false (g, ok not_ready) h = h
      by_flag false (g, err e) h = h

  abbrev pub sends : List (Endpoint × Bytes) → List Use
  sends [] = complete k ∷ []
  sends (item ∷ items) = send k item ∷ sends items

  sends-accepted :
      (items : List (Endpoint × Bytes)) (f : UdpFramed) → accepted (sends items) f ≡ items
  unfolding accepted
  sends-accepted [] f = refl
  sends-accepted (item ∷ items) f =
      rw (start_send-TakesAll item f) (ap (λ rest. item ∷ rest) (sends-accepted items _))

  sends-flushed :
      (items : List (Endpoint × Bytes)) (f : UdpFramed) → (run_sink (sends items) f).flushed ≡ true
  unfolding run_sink
  sends-flushed [] f = (complete-TakesAll f).0
  sends-flushed (item ∷ items) f = sends-flushed items (start_send k item f).0

  sends-is_whole :
      (items : List (Endpoint × Bytes)) (f : UdpFramed)
      → is_whole f.handed ≡ true
      → is_whole (run_sink (sends items) f).handed ≡ true
  unfolding run_sink
  sends-is_whole [] f whole = complete-is_whole f whole
  sends-is_whole (item ∷ items) f whole =
      sends-is_whole items (start_send k item f).0 (start_send-is_whole item f whole)

  -- Where both sockets take whole datagrams: all that is put into the sink has been taken once it is
  -- asked to complete, whole and in order.
  pub sends-taken :
      (items : List (Endpoint × Bytes)) → (run_sink (sends items) new).handed ≡ in_full items
  sends-taken items =
      let f = run_sink (sends items) new in
      let nothing : queue f ≡ datagrams f.handed =
        rw (sends-flushed items new) (append-nil (datagrams f.handed)) in
      in_full-datagrams f.handed (sends-is_whole items new refl)
      ∙ ap in_full
          (sym nothing ∙ run_sink-append (sends items) new (λ h. refl) ∙ sends-accepted items new)
