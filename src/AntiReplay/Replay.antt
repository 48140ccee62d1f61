-- ===== src/AntiReplay/Replay.antt =====
-- The window over a whole stream of received numbers, in any order and with repetitions.
use wireguard_rs.Base.{
  ℕ, ◌≡◌, refl, ap, ◌∙◌, Bool, true, false, List, [], ◌∷◌, ◌==◌, if◌then◌else◌, max, inl, inr,
  Bool-cases, is_ok, arith,
}
use wireguard_rs.AntiReplay.{AntiReplay, new, check, update_store, update}
use wireguard_rs.AntiReplay.Window.{Tracks, new-Tracks, update-Tracks, check-admits, admits}

-- The window, with the numbers that it has accepted, the newest first.
pub record Log : Type 0 where
  pub window : AntiReplay
  pub accepted : List ℕ

abbrev pub start : Log
start = record { window = new; accepted = [] }

pub receive : Log → ℕ → Log
receive log seq = record {
  window = (update log.window seq).0;
  accepted = if is_ok (update log.window seq).1 then seq ∷ log.accepted else log.accepted;
}

unfoldable pub receive_all : Log → List ℕ → Log
unfolding receive update
receive_all log [] = log
receive_all log (seq ∷ seqs) = receive_all (receive log seq) seqs

abbrev pub contains : List ℕ → ℕ → Bool
contains [] x = false
contains (y ∷ ys) x = if x == y then true else contains ys x

abbrev pub maximum : List ℕ → ℕ
maximum [] = 0
maximum (x ∷ xs) = max x (maximum xs)

abbrev pub Distinct : List ℕ → Type 0
Distinct [] = Unit {0}
Distinct (x ∷ xs) = (contains xs x ≡ false) × Distinct xs

record Faithful (log : Log) : Type 0 where
  tracks : Tracks (contains log.accepted) log.window.bitmap log.window.last
  newest : log.window.last ≡ maximum log.accepted
  distinct : Distinct log.accepted

start-Faithful : Faithful start
unfolding new
start-Faithful = record { tracks = new-Tracks; newest = refl; distinct = tt }

last-update_store : (ar : AntiReplay) (s : ℕ) → (update_store ar s).last ≡ max s ar.last
unfolding update_store
last-update_store ar s = ground arith

fresh_of_check :
    (log : Log) (s : ℕ) → Faithful log → check log.window s ≡ true → contains log.accepted s ≡ false
fresh_of_check log s f c = ground (arith, check-admits _ log.window s f.tracks, f.tracks.below s)

receive-Faithful : (log : Log) (s : ℕ) → Faithful log → Faithful (receive log s)
unfolding receive update
receive-Faithful log s f = elim (Bool-cases (check log.window s)) [
  | inl good ↦ rw good (record {
    tracks = update-Tracks (contains log.accepted) log.window s f.tracks good;
    newest = last-update_store log.window s ∙ ap (max s) f.newest;
    distinct = (fresh_of_check log s f good, f.distinct);
  })
  | inr bad ↦ rw bad f
]

receive_all-Faithful : (log : Log) (seqs : List ℕ) → Faithful log → Faithful (receive_all log seqs)
unfolding receive_all
receive_all-Faithful log [] f = f
receive_all-Faithful log (s ∷ seqs) f =
    receive_all-Faithful (receive log s) seqs (receive-Faithful log s f)

-- Whatever arrives at a new window, in whatever order and how often, no number is accepted twice.
pub receive_all-Distinct : (seqs : List ℕ) → Distinct (receive_all start seqs).accepted
receive_all-Distinct seqs = (receive_all-Faithful start seqs start-Faithful).distinct

-- After any stream the window accepts a number exactly if it is above all accepted so far, or is
-- at most `WINDOW_SIZE` below the largest of them and not among them.
pub check-receive_all :
    (seqs : List ℕ) (s : ℕ)
    → let log = receive_all start seqs in
      check log.window s ≡ admits (contains log.accepted) (maximum log.accepted) s
check-receive_all seqs s =
    check-admits (contains log.accepted) log.window s f.tracks
    ∙ ap (λ (top : ℕ). admits (contains log.accepted) top s) f.newest
  where
    log : Log
    log = receive_all start seqs

    f : Faithful log
    f = receive_all-Faithful start seqs start-Faithful
