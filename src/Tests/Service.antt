-- ===== src/Tests/Service.antt =====
-- Instances of the theorems on the socket of the configuration service.
use wireguard_rs.Base.{◌≡◌, ◌≢◌, refl, ap, true, none, some, [], ◌∷◌, ok, Option, Bytes}
use wireguard_rs.Base.Maps.{eq_bytes, lookup, insert, remove}
use wireguard_rs.Base.Monad.{◌>>◌}
use wireguard_rs.Config.Text.{ascii}
use wireguard_rs.Config.Files.{Os, Files, Entry, Kind}
use wireguard_rs.Config.Service.{ConfigurationService, new, drop, wireguard_dir, socket_path}
use wireguard_rs.Config.Service.Steps.{mode_of, kind_of, differs}
use wireguard_rs.Config.Service.Removal.{drop-new}

abbrev pub os : Os
os = record { grants = λ call. true; default_mode = λ kind. 0o755 }

abbrev pub entry : Kind → Entry
entry kind = record { kind = kind; mode = 0o644; contents = ascii "old" }

-- A socket is left over from a run before.
abbrev pub before : Files
before =
    (ascii "/run", entry Kind.directory)
    ∷ (ascii "/run/wireguard", entry Kind.directory)
    ∷ (ascii "/run/wireguard/utun7.sock", entry Kind.socket)
    ∷ (ascii "/tmp/name", entry Kind.regular)
    ∷ (ascii "/etc/hosts", entry Kind.regular)
    ∷ []

abbrev after : Files
unfolding new
after = (new os (some (ascii "/tmp/name")) (ascii "utun7") before).0

abbrev service : ConfigurationService
service = record { interface_name = ascii "utun7" }

new-after : new os (some (ascii "/tmp/name")) (ascii "utun7") before ≡ (after, ok service)
unfolding new lookup insert remove after ◌>>◌
new-after = refl

abbrev hosts : Bytes
hosts = ascii "/etc/hosts"

abbrev text_of : Option Bytes → Bytes
text_of none = []
text_of (some text) = text

named_apart : some (ascii "/tmp/name") ≢ some hosts
named_apart e = differs (ascii "/tmp/name") hosts refl (ap text_of e)

drop-new_example :
    (mode_of (lookup (wireguard_dir after) after) ≡ some 0o700)
    × (kind_of (lookup (socket_path (ascii "utun7") after) after) ≡ some Kind.socket)
    × (lookup (socket_path (ascii "utun7") after) (drop os service after) ≡ none)
    × (lookup (wireguard_dir after) (drop os service after) ≡ lookup (wireguard_dir after) after)
    × (lookup hosts (drop os service after) ≡ lookup hosts before)
unfolding socket_path wireguard_dir after new lookup insert remove ◌>>◌
drop-new_example =
    drop-new os (some (ascii "/tmp/name")) (ascii "utun7") before after service new-after refl hosts
      named_apart (differs _ _ refl) (differs _ _ refl)
