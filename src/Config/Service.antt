-- ===== src/Config/Service.antt =====
-- src/interface/config.rs: `ConfigurationService`, from the making of its socket to its removal, and
-- src/interface/grim_reaper.rs: the watch over that socket. An interface name is one component of a
-- path, other than `.` and `..`.
pub mod Steps
pub mod Lifecycle
pub mod Removal
pub mod Watch
use wireguard_rs.Base.{
  ℕ, Bool, true, false, Option, none, some, List, [], ◌∷◌, ◌++◌, Result, ok, err, Error, Bytes,
  ◌==◌, if◌then◌else◌,
}
use wireguard_rs.Base.Monad.{M, get, pure, ◌>>=◌, ◌>>◌}
use wireguard_rs.Config.Text.{ascii}
use wireguard_rs.Config.Files.{
  Files, Call, Os, exists, perform, join, create_dir, remove_file, bind, create_file, chmod,
  write_all,
}

abbrev pub before_dot_at : ℕ → Option Bytes → Option Bytes
before_dot_at c (some before) = some (c ∷ before)
before_dot_at c none = if c == 0x2e then some [] else none

-- What stands before the last dot.
unfoldable pub before_dot : Bytes → Option Bytes
before_dot [] = none
before_dot (c ∷ cs) = before_dot_at c (before_dot cs)

abbrev pub stem_or : Bytes → Option Bytes → Bytes
stem_or name none = name
stem_or name (some []) = name
stem_or name (some (c ∷ cs)) = c ∷ cs

-- `set_extension` on the last component of a path.
unfoldable pub set_extension : Bytes → Bytes → Bytes
unfolding before_dot
set_extension name extension = stem_or name (before_dot name) ++ 0x2e ∷ extension

-- `get_run_path`, from whether `/run` exists.
abbrev pub run_path : Bool → Bytes
run_path true = ascii "/run"
run_path false = join (ascii "/var") (ascii "run")

unfoldable pub get_run_path : Files → Bytes
get_run_path files = run_path (exists (ascii "/run") files)

unfoldable pub wireguard_dir : Files → Bytes
unfolding get_run_path
wireguard_dir files = join (get_run_path files) (ascii "wireguard")

unfoldable pub socket_path : Bytes → Files → Bytes
unfolding wireguard_dir set_extension
socket_path interface_name files =
    join (wireguard_dir files) (set_extension interface_name (ascii "sock"))

-- `unwrap` on what a method returns.
abbrev pub unwrapped {ℓ} : {S : Type ℓ} {A : Type 0} → S × Result A → S × Result A
unwrapped (s, ok a) = (s, ok a)
unwrapped (s, err e) = (s, err Error.panicked)

abbrev pub unwrap : {S A : Type 0} → M S A → M S A
unwrap m s = unwrapped (m s)

pub record ConfigurationService : Type 0 where
  pub interface_name : Bytes

module _ (os : Os) where
  abbrev pub create_missing : Bytes → M Files (Unit {0})
  create_missing path files = if exists path files then (files, ok tt) else create_dir os path files

  abbrev pub remove_existing : Bytes → M Files (Unit {0})
  remove_existing path files =
      if exists path files then remove_file os path files else (files, ok tt)

  unfoldable pub get_path : Bytes → M Files Bytes
  unfolding chmod wireguard_dir socket_path
  get_path interface_name = do
    files ← get
    create_missing (wireguard_dir files)
    chmod os (wireguard_dir files) 0o700
    remove_existing (socket_path interface_name files)
    pure (socket_path interface_name files)

  -- `WG_TUN_NAME_FILE`; the source's 0400 is a decimal number.
  unfoldable pub write_name_file : Option Bytes → Bytes → M Files (Unit {0})
  unfolding chmod
  write_name_file none interface_name = pure tt
  write_name_file (some name) interface_name = do
    create_file os name
    chmod os name 400
    write_all os name interface_name
    write_all os name (0x0a ∷ [])

  -- `GrimReaper::spawn`, which fails where the thread cannot be started.
  unfoldable pub spawn : M Files (Unit {0})
  spawn = perform (λ files. os.grants Call.start_thread) (λ files. files)

  unfoldable pub listen : Bytes → Bytes → M Files ConfigurationService
  unfolding spawn
  listen interface_name config_path = do
    unwrap (bind os config_path)
    unwrap spawn
    pure (record { interface_name = interface_name })

  unfoldable pub serve : Bytes → M Files ConfigurationService
  unfolding get_path listen
  serve interface_name = unwrap (get_path interface_name) >>= listen interface_name

  unfoldable pub new : Option Bytes → Bytes → M Files ConfigurationService
  unfolding write_name_file serve
  new name_file interface_name = do write_name_file name_file interface_name; serve interface_name

  -- `Drop`
  unfoldable pub drop : ConfigurationService → Files → Files
  unfolding socket_path
  drop service files = (remove_existing (socket_path (service.interface_name) files) files).0

pub data Poll : Type 0 where
  not_ready ready failed : Poll

-- A raw event of the crate notify: its operation is `REMOVE`, another one, or an error.
pub data RawEvent : Type 0 where
  removed other broken : RawEvent

-- What the thread of the reaper has made of the channel that `GrimReaper::poll` reads: it sends
-- before it panics, and a thread that panics drops its end. From when it watches.
unfoldable pub watch : List RawEvent → Poll
watch [] = Poll.not_ready
watch (RawEvent.removed ∷ events) = Poll.ready
watch (RawEvent.other ∷ events) = watch events
watch (RawEvent.broken ∷ events) = Poll.failed

-- `GrimReaper::poll`, from what `rx` and the stream of signals answer.
unfoldable pub poll_reaper : Poll → Poll → Poll
poll_reaper Poll.not_ready Poll.not_ready = Poll.not_ready
poll_reaper Poll.not_ready Poll.ready = Poll.failed
poll_reaper Poll.not_ready Poll.failed = Poll.failed
poll_reaper Poll.ready signal = Poll.failed
poll_reaper Poll.failed signal = Poll.failed

-- `ConfigurationService::poll`, from what the server's future and the reaper answer.
unfoldable pub poll_service : Poll → Poll → Poll
poll_service Poll.not_ready Poll.not_ready = Poll.not_ready
poll_service Poll.not_ready Poll.ready = Poll.failed
poll_service Poll.not_ready Poll.failed = Poll.failed
poll_service Poll.ready reaper = Poll.failed
poll_service Poll.failed reaper = Poll.failed
