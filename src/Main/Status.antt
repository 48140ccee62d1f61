-- ===== src/Main/Status.antt =====
-- src/main.rs: when the program gives up before it starts the interface.
use wireguard_rs.Base.{
  ℕ, Bool, true, false, not, ◌&&◌, ◌||◌, Result, ok, err, Error, is_ok, ◌≡◌, refl, ◌==◌,
  if◌then◌else◌,
}
use wireguard_rs.Crates.{Crates}
use wireguard_rs.Config.Files.{Files, Os}
use wireguard_rs.Interface.{Running}
use wireguard_rs.Main.{
  Machine, Opt, should_quit, daemonize, failure_status, started, start_unless, main,
}

failure_status-not_one : (e : Error) → (failure_status e == 1) ≡ false
failure_status-not_one Error.panicked = refl
failure_status-not_one _ = refl

module _ {N T : Type 0} (crates : Crates N T) (os : Os) where
  started-not_one : (r : Files × Result (Running N T)) → ((started crates os r).1 == 1) ≡ false
  started-not_one (files, ok running) = refl
  started-not_one (files, err e) = failure_status-not_one e

  -- The status is 1 exactly if the user has not asked for the program in the environment, or it is to
  -- run as a daemon and cannot.
  pub main-gives_up :
      (machine : Machine) (opt : Opt) (files : Files)
      → ((main crates os machine opt files).1 == 1) ≡ (
          should_quit machine.prefer_buggy
          || (not opt.foreground && not (is_ok (daemonize machine))))
  unfolding main
  main-gives_up machine opt files =
      cases (should_quit machine.prefer_buggy) (opt.foreground) (daemonize machine) _
    where
      cases :
          (quit foreground : Bool) (d : Result (Unit {0})) (r : Files × Result (Running N T))
          → ((if◌then◌else◌ {A = Files × ℕ} quit
                (files, 1)
                (start_unless crates os (if foreground then ok tt else d) r files)).1
              == 1)
            ≡ (quit || (not foreground && not (is_ok d)))
      cases true foreground d r = refl
      cases false true d r = started-not_one r
      cases false false (ok u) r = started-not_one r
      cases false false (err e) r = refl
