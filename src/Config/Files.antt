-- ===== src/Config/Files.antt =====
-- The files that src/interface/config.rs makes and removes, and the calls on them. A call that the system
-- refuses changes nothing.
use wireguard_rs.Base.{
  ℕ, Bool, true, false, not, ◌&&◌, Option, none, some, is_some, List, [], ◌∷◌, ◌++◌, ok, err, Error,
  Bytes, if◌then◌else◌,
}
use wireguard_rs.Base.Maps.{eq_bytes, lookup, insert, remove}
use wireguard_rs.Base.Monad.{M}

pub data Kind : Type 0 where
  directory regular socket : Kind

pub record Entry : Type 0 where
  pub kind : Kind
  pub mode : ℕ
  pub contents : Bytes

-- What there is at each path.
abbrev pub Files : Type 0
Files = List (Bytes × Entry)

-- The calls that the operating system may refuse.
pub data Call : Type 0 where
  mkdir create unlink listen_at : Bytes → Call
  set_mode : Bytes → ℕ → Call
  write : Bytes → Bytes → Call
  start_thread : Call

-- A refusal for a reason that `Files` does not show, and the mode of what is new.
pub record Os : Type 0 where
  pub grants : Call → Bool
  pub default_mode : Kind → ℕ

-- `Path::exists`
abbrev pub exists : Bytes → Files → Bool
exists path files = is_some (lookup path files)

-- Can `File::create` open what is there?
abbrev pub opens_as_file : Kind → Bool
opens_as_file Kind.directory = false
opens_as_file Kind.regular = true
opens_as_file Kind.socket = false

abbrev pub can_create : Option Entry → Bool
can_create none = true
can_create (some entry) = opens_as_file entry.kind

abbrev pub unlinkable : Kind → Bool
unlinkable Kind.directory = false
unlinkable Kind.regular = true
unlinkable Kind.socket = true

abbrev pub can_remove : Option Entry → Bool
can_remove none = false
can_remove (some entry) = unlinkable entry.kind

-- A call that changes the files if it is done, and nothing if it fails.
abbrev pub perform : (Files → Bool) → (Files → Files) → M Files (Unit {0})
perform allowed change files =
    if allowed files then (change files, ok tt) else (files, err Error.os_error)

abbrev pub with_mode : Bytes → ℕ → Option Entry → Files → Files
with_mode path mode none files = files
with_mode path mode (some entry) files = insert path (record entry { mode = mode }) files

abbrev pub with_contents : Bytes → Bytes → Option Entry → Files → Files
with_contents path text none files = files
with_contents path text (some entry) files =
    insert path (record entry { contents = entry.contents ++ text }) files

-- `File::create` keeps the mode of a file that is there.
abbrev pub emptied : ℕ → Option Entry → Entry
emptied mode none = record { kind = Kind.regular; mode = mode; contents = [] }
emptied mode (some entry) = record entry { contents = [] }

-- `PathBuf::join` and `push` of a relative path, to one that does not end in a slash.
abbrev pub join : Bytes → Bytes → Bytes
join path name = path ++ 0x2f ∷ name

module _ (os : Os) where
  abbrev pub create_dir : Bytes → M Files (Unit {0})
  create_dir path =
      perform (λ files. os.grants (Call.mkdir path) && not (exists path files))
        (insert path
          (record { kind = Kind.directory; mode = os.default_mode Kind.directory; contents = [] }))

  abbrev pub remove_file : Bytes → M Files (Unit {0})
  remove_file path =
      perform (λ files. os.grants (Call.unlink path) && can_remove (lookup path files))
        (remove path)

  -- `UnixListener::bind`
  abbrev pub bind : Bytes → M Files (Unit {0})
  bind path =
      perform (λ files. os.grants (Call.listen_at path) && not (exists path files))
        (insert path
          (record { kind = Kind.socket; mode = os.default_mode Kind.socket; contents = [] }))

  abbrev pub create_file : Bytes → M Files (Unit {0})
  create_file path =
      perform (λ files. os.grants (Call.create path) && can_create (lookup path files))
        (λ files. insert path (emptied (os.default_mode Kind.regular) (lookup path files)) files)

  unfoldable pub chmod : Bytes → ℕ → M Files (Unit {0})
  chmod path perms =
      perform (λ files. os.grants (Call.set_mode path perms) && exists path files)
        (λ files. with_mode path perms (lookup path files) files)

  abbrev pub write_all : Bytes → Bytes → M Files (Unit {0})
  write_all path text =
      perform (λ files. os.grants (Call.write path text))
        (λ files. with_contents path text (lookup path files) files)
