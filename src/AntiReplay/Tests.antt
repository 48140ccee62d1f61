-- ===== src/AntiReplay/Tests.antt =====
-- The window at concrete inputs: the program's own tests in small, and instances of the theorems.
use wireguard_rs.Base.{ℕ, ◌≡◌, refl, List, [], ◌∷◌}
use wireguard_rs.AntiReplay.{new, check, update_store, update}
use wireguard_rs.AntiReplay.Replay.{
  receive_all, start, Distinct, contains, maximum, check-receive_all, receive_all-Distinct,
}
use wireguard_rs.AntiReplay.Window.{admits}

abbrev stream : List ℕ
stream = 0 ∷ 1 ∷ 1 ∷ 65536 ∷ 63520 ∷ 63519 ∷ 65536 ∷ 65500 ∷ 0 ∷ []

accepted_stream : (receive_all start stream).accepted ≡ 65500 ∷ 63520 ∷ 65536 ∷ 1 ∷ 0 ∷ []
unfolding receive_all update check update_store new
accepted_stream = refl

receive_all-Distinct_example : Distinct (receive_all start stream).accepted
receive_all-Distinct_example = receive_all-Distinct stream

check-receive_all_example :
    check (receive_all start stream).window 63521
    ≡ admits
        (contains (receive_all start stream).accepted)
        (maximum (receive_all start stream).accepted)
        63521
check-receive_all_example = check-receive_all stream 63521
