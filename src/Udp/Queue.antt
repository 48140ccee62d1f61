-- ===== src/Udp/Queue.antt =====
-- src/udp/frame.rs: the sink as a queue of datagrams with one place.
use mathlib.Core.List.{append_assoc, append-nil}
use wireguard_rs.Base.{
  ℕ, ◌≡◌, refl, sym, ap, ◌∙◌, Bool, true, false, List, [], ◌∷◌, ◌++◌, Result, ok, err, Error, Bytes,
  length, ◌==◌, if◌then◌else◌, arith,
}
use wireguard_rs.Types.{Endpoint}
use wireguard_rs.Udp.{Kernel, send_to}
use wireguard_rs.Udp.Framed.{
  UdpFramed, ready, not_ready, new, written, written_if, start_if, is_would_block, poll_complete,
  encode_frame, start_when_flushed, start_send,
}

-- What waits in the buffer, and all that was handed to the system or waits, in order.
abbrev pub pending : UdpFramed → List (Endpoint × Bytes)
pending f = if f.flushed then [] else (f.out_addr, f.wr) ∷ []

-- The datagrams without what the system said of them.
abbrev pub datagrams : List ((Endpoint × Bytes) × ℕ) → List (Endpoint × Bytes)
datagrams [] = []
datagrams ((d, n) ∷ ds) = d ∷ datagrams ds

datagrams-append :
    (xs ys : List ((Endpoint × Bytes) × ℕ)) → datagrams (xs ++ ys) ≡ datagrams xs ++ datagrams ys
datagrams-append [] ys = refl
datagrams-append ((d, n) ∷ xs) ys = ap (λ ds. d ∷ ds) (datagrams-append xs ys)

abbrev pub queue : UdpFramed → List (Endpoint × Bytes)
queue f = datagrams f.handed ++ pending f

-- The buffer is empty where nothing waits.
abbrev pub Idle : UdpFramed → Type 0
Idle f = f.flushed ≡ true → f.wr ≡ []

abbrev pub is_accepted : Result Bool → Bool
is_accepted (ok accepted) = accepted
is_accepted (err e) = false

waiting : (f : UdpFramed) → f.flushed ≡ false → (f.out_addr, f.wr) ∷ [] ≡ pending f
waiting f waits = rw waits refl

written-queue :
    (r : Result ℕ) (f : UdpFramed)
    → f.flushed ≡ false
    → Idle (written r f).0 × (queue (written r f).0 ≡ queue f)
written-queue (ok n) f waits = (
  (λ h. refl),
  append-nil (datagrams (f.handed ++ ((f.out_addr, f.wr), n) ∷ []))
      ∙ datagrams-append f.handed (((f.out_addr, f.wr), n) ∷ [])
      ∙ ap (λ ds. datagrams f.handed ++ ds) (waiting f waits),
)
written-queue (err e) f waits = ((λ h. absurd (ground (arith, waits, h))), refl)

poll_complete-queue :
    (k : Kernel) (f : UdpFramed)
    → Idle f
    → Idle (poll_complete k f).0 × (queue (poll_complete k f).0 ≡ queue f)
unfolding poll_complete
poll_complete-queue k f idle = by_flag f.flushed refl
  where
    by_flag :
        (b : Bool)
        → f.flushed ≡ b
        → Idle (written_if b (send_to k f.wr f.out_addr) f).0
          × (queue (written_if b (send_to k f.wr f.out_addr) f).0 ≡ queue f)
    by_flag true e = (idle, refl)
    by_flag false e = written-queue (send_to k f.wr f.out_addr) f e

encode_frame-queue :
    (item : Endpoint × Bytes) (f : UdpFramed)
    → f.flushed ≡ true
    → Idle f
    → Idle (encode_frame item f) × (queue (encode_frame item f) ≡ queue f ++ item ∷ [])
encode_frame-queue (to, bytes) f empty idle = (
  (λ h. absurd (ground arith)),
  ground (arith, empty, idle empty, append-nil (datagrams f.handed)),
)

-- What is left of the item where the buffer could not be emptied.
abbrev pub Enqueues : Endpoint × Bytes → UdpFramed → UdpFramed × Result Bool → Type 0
Enqueues item f (g, r) =
    Idle g × (queue g ≡ (if is_accepted r then queue f ++ item ∷ [] else queue f))

written-Enqueues :
    (item : Endpoint × Bytes) (r : Result ℕ) (f : UdpFramed)
    → f.flushed ≡ false
    → Enqueues item f (start_when_flushed item (written r f))
written-Enqueues item (ok n) f waits = whole (n == length f.wr) (written-queue (ok n) f waits)
  where
    after : UdpFramed
    after = record f { wr = []; flushed = true; handed = f.handed ++ ((f.out_addr, f.wr), n) ∷ [] }

    whole :
        (b : Bool)
        → Idle after × (queue after ≡ queue f)
        → Enqueues item f (
            start_when_flushed item
              (after, if b then ok (ready tt) else err Error.partial_datagram))
    whole true (idle, same) =
        let (idle', more) = encode_frame-queue item after refl idle in
        (idle', more ∙ ap (λ q. q ++ item ∷ []) same)
    whole false kept = kept
written-Enqueues item (err e) f waits = refused (is_would_block e) (written-queue (err e) f waits)
  where
    refused :
        (b : Bool)
        → Idle f × (queue f ≡ queue f)
        → Enqueues item f (start_when_flushed item (f, if b then ok not_ready else err e))
    refused true kept = kept
    refused false kept = kept

-- An accepted datagram is put at the end of the queue; nothing else changes what was handed over or waits.
start_send-Enqueues :
    (k : Kernel) (item : Endpoint × Bytes) (f : UdpFramed)
    → Idle f
    → Enqueues item f (start_send k item f)
unfolding start_send poll_complete
start_send-Enqueues k item f idle = by_flag f.flushed refl
  where
    by_flag :
        (b : Bool)
        → f.flushed ≡ b
        → Enqueues item f (start_if b item (written_if b (send_to k f.wr f.out_addr) f) f)
    by_flag true e = encode_frame-queue item f e idle
    by_flag false e = written-Enqueues item (send_to k f.wr f.out_addr) f e

-- A use of the sink, at a moment at which the system answers so.
pub data Use : Type 0 where
  send : Kernel → Endpoint × Bytes → Use
  complete : Kernel → Use

abbrev pub use_sink : Use → UdpFramed → UdpFramed
use_sink (send k item) f = (start_send k item f).0
use_sink (complete k) f = (poll_complete k f).0

abbrev pub accepted_by : Use → UdpFramed → List (Endpoint × Bytes)
accepted_by (send k item) f = if is_accepted (start_send k item f).1 then item ∷ [] else []
accepted_by (complete k) f = []

unfoldable pub run_sink : List Use → UdpFramed → UdpFramed
unfolding start_send poll_complete
run_sink [] f = f
run_sink (u ∷ us) f = run_sink us (use_sink u f)

-- The datagrams that were accepted, in order.
unfoldable pub accepted : List Use → UdpFramed → List (Endpoint × Bytes)
unfolding start_send poll_complete
accepted [] f = []
accepted (u ∷ us) f = accepted_by u f ++ accepted us (use_sink u f)

use_sink-queue :
    (u : Use) (f : UdpFramed)
    → Idle f
    → Idle (use_sink u f) × (queue (use_sink u f) ≡ queue f ++ accepted_by u f)
use_sink-queue (send k item) f idle =
    let (idle', more) = start_send-Enqueues k item f idle in
    (idle', more ∙ appended (is_accepted (start_send k item f).1))
  where
    appended :
        (b : Bool)
        → (if b then queue f ++ item ∷ [] else queue f) ≡ queue f ++ (if b then item ∷ [] else [])
    appended true = refl
    appended false = sym (append-nil (queue f))
use_sink-queue (complete k) f idle =
    let (idle', same) = poll_complete-queue k f idle in (idle', same ∙ sym (append-nil (queue f)))

pub run_sink-append :
    (us : List Use) (f : UdpFramed) → Idle f → queue (run_sink us f) ≡ queue f ++ accepted us f
unfolding run_sink accepted
run_sink-append [] f idle = sym (append-nil (queue f))
run_sink-append (u ∷ us) f idle =
    let (idle', more) = use_sink-queue u f idle in
    run_sink-append us (use_sink u f) idle'
    ∙ ap (λ q. q ++ accepted us (use_sink u f)) more
    ∙ append_assoc (queue f) (accepted_by u f) (accepted us (use_sink u f))

-- However the sink is used and whatever the system answers: the datagrams for which calls have
-- succeeded, also those of which the system has taken only a part, and what waits, are the accepted
-- ones, each once and in order.
pub run_sink-queue : (us : List Use) → queue (run_sink us new) ≡ accepted us new
run_sink-queue us = run_sink-append us new (λ h. refl)
