-- ===== src/Config/Panics.antt =====
-- src/interface/config.rs: that `UpdateEvent::from`, and all that it parses with, never panics.
pub mod Decoder
use wireguard_rs.Base.{
  ℕ, ◌^◌, ◌≡◌, refl, Bool, true, false, Option, none, some, List, [], ◌∷◌, Result, ok, err, Error,
  ok_or, Bytes, bytes_eq, arith, if◌then◌else◌, ◌==◌,
}
use wireguard_rs.Base.Fallible.{◌>>=◌}
use wireguard_rs.Types.{IpAddr, SocketAddr}
use wireguard_rs.Config.Text.{
  Formats, ascii, read_uint, read_digits, below, digits_onto, split_once,
}
use wireguard_rs.Config.Parser.{
  Pending, start, read_key, read_allowed_ip, read_item, read_items, from, read_command,
}

abbrev pub is_panic : Error → Bool
is_panic Error.panicked = true
is_panic e = false

abbrev pub panics {ℓ} : {A : Type ℓ} → Result A → Bool
panics (ok a) = false
panics (err e) = is_panic e

bind-panics {u w} :
    {V : Type u} {W : Type w} (r : Result V) (f : V → Result W)
    → panics r ≡ false
    → ((v : V) → panics (f v) ≡ false)
    → panics (r >>= f) ≡ false
bind-panics (ok v) f h k = k v
bind-panics (err e) f h k = h

branch-panics {w} :
    {W : Type w} (b : Bool) (r q : Result W)
    → panics r ≡ false
    → panics q ≡ false
    → panics (if b then r else q) ≡ false
branch-panics true r q h k = h
branch-panics false r q h k = k

read_uint-panics : (bound : ℕ) (text : Bytes) → panics (read_uint bound text) ≡ false
unfolding read_uint
read_uint-panics bound [] = refl
read_uint-panics bound (c ∷ cs) = branch-panics (c == b'+') _ _ (digits cs) (digits (c ∷ cs))
  where
    checked : (n : Option ℕ) → panics (below bound n) ≡ false
    checked none = refl
    checked (some n) = ground arith

    digits : (text : Bytes) → panics (read_digits bound text) ≡ false
    digits [] = refl
    digits (d ∷ ds) = checked (digits_onto 0 (d ∷ ds))

parsed-panics {ℓ} : {A : Type ℓ} (o : Option A) → panics (ok_or o Error.parse_error) ≡ false
parsed-panics none = refl
parsed-panics (some a) = refl

module _ (formats : Formats) where
  read_key-panics : (value : Bytes) → panics (read_key formats value) ≡ false
  read_key-panics value = kept (formats.from_hex value)
    where
      kept : (o : Option Bytes) → panics (ok_or o Error.third_party) ≡ false
      kept none = refl
      kept (some k) = refl

  read_allowed_ip-panics :
      (pieces : Option (Bytes × Bytes)) → panics (read_allowed_ip formats pieces) ≡ false
  read_allowed_ip-panics none = refl
  read_allowed_ip-panics (some (ip, cidr)) =
      bind-panics (ok_or (formats.read_ip ip) Error.parse_error) _
        (parsed-panics (formats.read_ip ip))
        λ addr. bind-panics (read_uint (2 ^ 32) cidr) _ (read_uint-panics _ cidr) λ mask. refl

  read_item-panics :
      (item : Bytes × Bytes) (p : Pending) → panics (read_item formats item p) ≡ false
  unfolding read_item
  read_item-panics (key, value) p =
      branch-panics (bytes_eq key (ascii "private_key")) _ _ (keyed _) (
        branch-panics (bytes_eq key (ascii "listen_port")) _ _ (number _ _) (
          branch-panics (bytes_eq key (ascii "fwmark")) _ _ (number _ _) (
            branch-panics (bytes_eq key (ascii "replace_peers")) _ _ refl (
              branch-panics (bytes_eq key (ascii "preshared_key")) _ _ (keyed _) (
                branch-panics (bytes_eq key (ascii "persistent_keepalive_interval")) _ _
                  (number _ _)
                  (branch-panics (bytes_eq key (ascii "endpoint")) _ _ (socket _) (
                    branch-panics (bytes_eq key (ascii "replace_allowed_ips")) _ _ refl (
                      branch-panics (bytes_eq key (ascii "remove")) _ _ refl (
                        branch-panics (bytes_eq key (ascii "public_key")) _ _ (keyed _) (
                          branch-panics (bytes_eq key (ascii "allowed_ip")) _ _ (allowed _)
                            refl))))))))))
    where
      keyed : (f : Bytes → Pending) → panics (read_key formats value >>= λ k. ok (f k)) ≡ false
      keyed f = bind-panics (read_key formats value) _ (read_key-panics value) λ k. refl

      number :
          (bound : ℕ) (f : ℕ → Pending) → panics (read_uint bound value >>= λ n. ok (f n)) ≡ false
      number bound f =
          bind-panics (read_uint bound value) _ (read_uint-panics bound value) λ n. refl

      socket :
          (f : SocketAddr → Pending)
          → panics (ok_or (formats.read_socket_addr value) Error.parse_error >>= λ a. ok (f a))
            ≡ false
      socket f =
          bind-panics (ok_or (formats.read_socket_addr value) Error.parse_error) _
            (parsed-panics (formats.read_socket_addr value)) λ a. refl

      allowed :
          (f : IpAddr × ℕ → Pending)
          → panics (read_allowed_ip formats (split_once b'/' value) >>= λ a. ok (f a)) ≡ false
      allowed f =
          bind-panics (read_allowed_ip formats (split_once b'/' value)) _
            (read_allowed_ip-panics (split_once b'/' value)) λ a. refl

  read_items-panics :
      (items : List (Bytes × Bytes)) (p : Pending) → panics (read_items formats items p) ≡ false
  unfolding read_items
  read_items-panics [] p = refl
  read_items-panics (item ∷ items) p =
      bind-panics (read_item formats item p) _ (read_item-panics item p)
        λ q. read_items-panics items q

  pub read_command-panics :
      (item : Bytes × Bytes) (items : List (Bytes × Bytes))
      → panics (read_command formats (item ∷ items)) ≡ false
  unfolding read_command from
  read_command-panics (cmd, version) items =
      branch-panics (bytes_eq cmd (ascii "get")) _ _
        (bind-panics (read_uint (2 ^ 64) version) _ (read_uint-panics _ version) λ v. refl)
        (branch-panics (bytes_eq cmd (ascii "set")) _ _
          (bind-panics (read_uint (2 ^ 64) version) _ (read_uint-panics _ version) λ v.
            bind-panics (from formats items) _
              (bind-panics (read_items formats items start) _ (read_items-panics items start)
                λ p. refl)
              λ events. refl)
          refl)
