-- ===== src/Config/Service/Watch.antt =====
-- src/interface/grim_reaper.rs, with `poll` of src/interface/config.rs: what ends the service.
use wireguard_rs.Base.{Bool, true, false, ◌&&◌, List, [], ◌∷◌, ◌≡◌, refl, ap, ◌∙◌}
use wireguard_rs.Config.Service.{Poll, RawEvent, watch, poll_reaper, poll_service}

abbrev pub is_pending : Poll → Bool
is_pending Poll.not_ready = true
is_pending Poll.ready = false
is_pending Poll.failed = false

-- Events that are neither a removal nor an error.
abbrev pub all_other : List RawEvent → Bool
all_other [] = true
all_other (RawEvent.removed ∷ events) = false
all_other (RawEvent.other ∷ events) = all_other events
all_other (RawEvent.broken ∷ events) = false

watch-pending : (events : List RawEvent) → is_pending (watch events) ≡ all_other events
unfolding watch
watch-pending [] = refl
watch-pending (RawEvent.removed ∷ events) = refl
watch-pending (RawEvent.other ∷ events) = watch-pending events
watch-pending (RawEvent.broken ∷ events) = refl

-- The service goes on exactly as long as its server does, no signal has come, and no event on the
-- socket was a removal or an error.
pub poll_service-pending :
    (server signal : Poll) (events : List RawEvent)
    → is_pending (poll_service server (poll_reaper (watch events) signal))
      ≡ (is_pending server && (all_other events && is_pending signal))
unfolding poll_service poll_reaper
poll_service-pending server signal events =
    polled server (watch events) signal
    ∙ ap (λ b. is_pending server && (b && is_pending signal)) (watch-pending events)
  where
    polled :
        (server thread signal : Poll)
        → is_pending (poll_service server (poll_reaper thread signal))
          ≡ (is_pending server && (is_pending thread && is_pending signal))
    polled Poll.not_ready Poll.not_ready Poll.not_ready = refl
    polled Poll.not_ready Poll.not_ready Poll.ready = refl
    polled Poll.not_ready Poll.not_ready Poll.failed = refl
    polled Poll.not_ready Poll.ready signal = refl
    polled Poll.not_ready Poll.failed signal = refl
    polled Poll.ready thread signal = refl
    polled Poll.failed thread signal = refl
