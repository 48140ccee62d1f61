-- ===== src/Timer/Firing.antt =====
-- src/timer.rs: which messages are sent.
use wireguard_rs.Base.{
  ℕ, ◌<◌, ◌≡◌, refl, sym, subst, ap, ap₂, ◌∙◌, true, List, [], ◌∷◌, ◌++◌, Bool-cases, ◌⊎◌, inl, inr,
  arith,
}
use wireguard_rs.Timer.{
  TimerMessage, Delayed, Timer, send_after, cancel, cancel_in, wake, wake_in, wake_all, is_at,
  fired,
}

-- The timers have numbers below the next one.
abbrev pub Numbered : ℕ → List Delayed → Type 0
Numbered next [] = Unit {0}
Numbered next (d ∷ ds) = (d.id < next) × Numbered next ds

-- Behind timers with smaller numbers, only the last one is cancelled.
cancel_in-last :
    (d : Delayed) (ds : List Delayed)
    → Numbered d.id ds
    → cancel_in d.id (ds ++ d ∷ []) ≡ ds ++ record d { canceled = true } ∷ []
unfolding cancel_in
cancel_in-last d [] n = ground arith
cancel_in-last d (c ∷ cs) n = ground (arith, cancel_in-last d cs n.1)

-- A cancelled timer at the end emits nothing, whether it is woken or waits.
abbrev Behind :
    Delayed → List Delayed × List TimerMessage → List Delayed × List TimerMessage → Type 0
Behind d (ds, out) (ds', out') = (out' ≡ out) × ((ds' ≡ ds ++ d ∷ []) ⊎ (ds' ≡ ds))

cons-Behind :
    (d e : Delayed) (x y : List Delayed × List TimerMessage)
    → Behind d x y
    → Behind d (e ∷ x.0, x.1) (e ∷ y.0, y.1)
cons-Behind d e (ds, out) (ds', out') (same, inl more) = (same, inl (ap (λ l. e ∷ l) more))
cons-Behind d e (ds, out) (ds', out') (same, inr gone) = (same, inr (ap (λ l. e ∷ l) gone))

wake_in-Behind :
    (now id : ℕ) (d : Delayed) (ds : List Delayed)
    → d.canceled ≡ true
    → Behind d (wake_in now id ds) (wake_in now id (ds ++ d ∷ []))
unfolding wake_in
wake_in-Behind now id d [] c = elim (Bool-cases (is_at now id d)) [
  | inl at ↦ rw (at, c) (refl, inr refl)
  | inr other ↦ rw other (refl, inl refl)
]
wake_in-Behind now id d (e ∷ ds) c = elim (Bool-cases (is_at now id e)) [
  | inl at ↦ rw at (refl, inl refl)
  | inr other ↦ rw other (cons-Behind d e (wake_in now id ds) _ (wake_in-Behind now id d ds c))
]

-- Two timers of which one has a cancelled task more.
abbrev Twin : Delayed → Timer → Timer → Type 0
Twin d t t' =
    (t'.channel ≡ t.channel) × ((t'.pending ≡ t.pending ++ d ∷ []) ⊎ (t'.pending ≡ t.pending))

wake-Twin :
    (d : Delayed)
    → d.canceled ≡ true
    → (w : ℕ × ℕ) (t t' : Timer) → Twin d t t'
    → Twin d (wake w t) (wake w t')
unfolding wake
wake-Twin d c (now, id) t t' (same, inl more) =
    let (out, left) = wake_in-Behind now id d t.pending c in
    (
      ap₂ (λ ms ds. ms ++ (wake_in now id ds).1) same more ∙ ap (λ out. t.channel ++ out) out,
      subst
          (λ ds.
            ((wake_in now id ds).0 ≡ (wake_in now id t.pending).0 ++ d ∷ [])
            ⊎ ((wake_in now id ds).0 ≡ (wake_in now id t.pending).0))
          (sym more) left,
    )
wake-Twin d c (now, id) t t' (same, inr gone) = (
  ap₂ (λ ms ds. ms ++ (wake_in now id ds).1) same gone,
  inr (ap (λ ds. (wake_in now id ds).0) gone),
)

fired-Twin :
    (d : Delayed)
    → d.canceled ≡ true
    → (ws : List (ℕ × ℕ)) (t t' : Timer) → Twin d t t'
    → fired ws t' ≡ fired ws t
unfolding fired wake_all
fired-Twin d c [] t t' twin = twin.0
fired-Twin d c (w ∷ ws) t t' twin =
    fired-Twin d c ws (wake w t) (wake w t') (wake-Twin d c w t t' twin)

-- Cancelling a timer that was just set takes its message away and no other: whichever tasks are woken
-- from then on, when and in which order, what has been sent is what would have been without it, where
-- the timers have numbers below the next one.
pub fired-cancel :
    (at delay : ℕ) (m : TimerMessage) (t : Timer) (ws : List (ℕ × ℕ))
    → Numbered t.next_id t.pending
    → fired ws (cancel (send_after at delay m t).1 (send_after at delay m t).0) ≡ fired ws t
unfolding cancel send_after
fired-cancel at delay m t ws numbered =
    fired-Twin _ refl ws t _ (refl, inl (cancel_in-last _ t.pending numbered))
