-- ===== src/Timer.antt =====
-- src/timer.rs: messages that are sent after a delay, unless they are cancelled first. A timer is
-- known by its number; peers by the numbers of their `Rc`. In which order the runtime wakes what is due
-- is left open.
pub mod Firing
use wireguard_rs.Base.{
  ℕ, ◌+◌, ◌*◌, Bool, true, false, ◌&&◌, List, [], ◌∷◌, ◌++◌, ◌==◌, leb, if◌then◌else◌,
}
use wireguard_rs.Consts.{timer_resolution}

pub data TimerMessage : Type 0 where
  persistent_keep_alive : ℕ → TimerMessage
  passive_keep_alive : ℕ → TimerMessage
  rekey : ℕ → ℕ → TimerMessage
  wipe : ℕ → TimerMessage

pub record Delayed : Type 0 where
  pub id : ℕ
  pub due : ℕ
  pub message : TimerMessage
  pub canceled : Bool

-- `pending` are the tasks that wait, and `channel` what was sent to `rx`, oldest first.
pub record Timer : Type 0 where
  pub next_id : ℕ
  pub pending : List Delayed
  pub channel : List TimerMessage

abbrev pub new_timer : Timer
new_timer = record { next_id = 0; pending = []; channel = [] }

-- The timer afterwards and the handle, for a delay that starts at `now`.
unfoldable pub send_after : ℕ → ℕ → TimerMessage → Timer → Timer × ℕ
send_after now delay message t = (
  record t {
    next_id = t.next_id + 1;
    pending =
        t.pending
        ++ record {
          id = t.next_id;
          due = now + delay + timer_resolution * 2;
          message = message;
          canceled = false;
        }
          ∷ [];
  },
  t.next_id,
)

unfoldable pub cancel_in : ℕ → List Delayed → List Delayed
cancel_in id [] = []
cancel_in id (d ∷ ds) = (if d.id == id then record d { canceled = true } else d) ∷ cancel_in id ds

-- `TimerHandle::cancel`
unfoldable pub cancel : ℕ → Timer → Timer
unfolding cancel_in
cancel id t = record t { pending = cancel_in id t.pending }

abbrev pub emitted : Delayed → List TimerMessage
emitted d = if d.canceled then [] else d.message ∷ []

abbrev pub is_at : ℕ → ℕ → Delayed → Bool
is_at now id d = d.id == id && leb d.due now

-- The task of a timer goes on once it is due; it tests then whether it was cancelled.
unfoldable pub wake_in : ℕ → ℕ → List Delayed → List Delayed × List TimerMessage
wake_in now id [] = ([], [])
wake_in now id (d ∷ ds) =
    let rest = wake_in now id ds in if is_at now id d then (ds, emitted d) else (d ∷ rest.0, rest.1)

unfoldable pub wake : ℕ × ℕ → Timer → Timer
unfolding wake_in
wake (now, id) t =
    let woken = wake_in now id t.pending in
    record t { pending = woken.0; channel = t.channel ++ woken.1 }

-- Tasks that are woken, each at a time, in order.
unfoldable pub wake_all : List (ℕ × ℕ) → Timer → Timer
unfolding wake
wake_all [] t = t
wake_all (w ∷ ws) t = wake_all ws (wake w t)

-- What `rx` has been sent then.
unfoldable pub fired : List (ℕ × ℕ) → Timer → List TimerMessage
unfolding wake_all
fired ws t = (wake_all ws t).channel
