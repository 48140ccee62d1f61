-- ===== src/Main.antt =====
-- src/main.rs: from the command line to the status that the process exits with.
pub mod Status
use wireguard_rs.Base.{
  ℕ, Bool, true, not, Option, none, some, Result, ok, err, Error, Bytes, bytes_eq, if◌then◌else◌,
}
use wireguard_rs.Base.Fallible.{ensure, ◌>>=◌, ◌>>◌}
use wireguard_rs.Crates.{Crates}
use wireguard_rs.Config.Text.{ascii}
use wireguard_rs.Config.Files.{Files, Os}
use wireguard_rs.Interface.{Runtime, Running, new, start, finish}

-- The options that the program uses.
pub record Opt : Type 0 where
  pub foreground : Bool
  pub interface : Bytes

-- `prefer_buggy` is the value of `WG_I_PREFER_BUGGY_USERSPACE_TO_POLISHED_KMOD`, if it is set to a text.
pub record Machine : Type 0 where
  pub prefer_buggy : Option Bytes
  pub wg_tun_name_file : Option Bytes
  pub is_root : Bool
  pub daemon : Result (Unit {0})
  pub runtime : Runtime
  pub now : ℕ

abbrev pub should_quit : Option Bytes → Bool
should_quit none = true
should_quit (some val) = not (bytes_eq val (ascii "1"))

unfoldable pub daemonize : Machine → Result (Unit {0})
daemonize machine = do ensure machine.is_root Error.not_root; machine.daemon

-- The status of a process that panics.
abbrev pub panic_status : ℕ
panic_status = 101

abbrev pub failure_status : Error → ℕ
failure_status Error.panicked = panic_status
failure_status _ = 0

module _ {N T : Type 0} (crates : Crates N T) (os : Os) where
  -- An error of `start` is logged.
  abbrev pub started : Files × Result (Running N T) → Files × ℕ
  started (files, ok running) = (finish os running files, 0)
  started (files, err e) = (files, failure_status e)

  abbrev pub start_unless : Result (Unit {0}) → Files × Result (Running N T) → Files → Files × ℕ
  start_unless (err e) outcome files = (files, 1)
  start_unless (ok u) outcome files = started outcome

  unfoldable pub main : Machine → Opt → Files → Files × ℕ
  unfolding start daemonize new
  main machine opt files =
      let daemonized = if opt.foreground then ok tt else daemonize machine in
      let interface = new crates opt.interface in
      let outcome =
        start crates os machine.runtime machine.now machine.wg_tun_name_file interface files in
      if should_quit machine.prefer_buggy then (files, 1) else start_unless daemonized outcome files
