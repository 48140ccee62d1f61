-- ===== src/Config/RoundTrip/Fitting.antt =====
-- The items of a peer fit into lines: no key and no value has an end of line or an equals sign.
use wireguard_rs.Base.{
  ℕ, zero, suc, ◌+◌, ◌-◌, ◌/◌, ◌%◌, ◌≡◌, refl, Bool, true, false, Option, none, some, List, [], ◌∷◌,
  ◌++◌, Bytes, ltb, leb, arith, Bool-cases, inl, inr,
}
use wireguard_rs.Consts.{second}
use wireguard_rs.Timestamp.{elapsed, is_set}
use wireguard_rs.Types.{IpAddr}
use wireguard_rs.Peer.{Peer}
use wireguard_rs.Config.Text.{Formats, ascii, show_uint, show_digits}
use wireguard_rs.Config.Printer.{map_some, show_endpoint}
use wireguard_rs.Config.Lines.{Item, AllFit, all_inner}
use wireguard_rs.Config.RoundTrip.{
  Readable, IpsBack, item_if, allowed_items, handshake_items, later_items,
}

AllFit-append : (xs ys : List Item) → AllFit xs → AllFit ys → AllFit (xs ++ ys)
AllFit-append [] ys xfit yfit = yfit
AllFit-append (x ∷ xs) ys (x_fits, xfit) yfit = (x_fits, AllFit-append xs ys xfit yfit)

all_inner-append :
    (xs ys : Bytes) → all_inner xs ≡ true → all_inner ys ≡ true → all_inner (xs ++ ys) ≡ true
all_inner-append [] ys h k = k
all_inner-append (c ∷ cs) ys h k = ground (arith, h, all_inner-append cs ys (ground (arith, h)) k)

all_inner-show_digits : (fuel n : ℕ) → all_inner (show_digits fuel n) ≡ true
unfolding show_digits
all_inner-show_digits zero n = refl
all_inner-show_digits (suc fuel) n = elim (Bool-cases (ltb n 10)) [
  | inl small ↦ rw small (ground (arith, small))
  | inr large ↦ rw large (
      all_inner-append (show_digits fuel (n / 10)) _ (all_inner-show_digits fuel (n / 10))
        (digit (n % 10) (ground arith)))
]
  where
    digit : (d : ℕ) → ltb d 10 ≡ true → all_inner ((b'0' + d) ∷ []) ≡ true
    digit d h = ground (arith, h)

item_if-AllFit :
    {A : Type 0} (key : Bytes) (show : A → Bytes) (value : Option A)
    → all_inner key ≡ true
    → ((a : A) → value ≡ some a → all_inner (show a) ≡ true)
    → AllFit (item_if key (map_some show value))
item_if-AllFit key show none k v = tt
item_if-AllFit key show (some a) k v = ((k, v a refl), tt)

module _ (formats : Formats) where
  allowed_items-AllFit :
      (ips : List (IpAddr × ℕ)) → IpsBack formats ips → AllFit (allowed_items formats ips)
  allowed_items-AllFit [] back = tt
  allowed_items-AllFit ((ip, mask) ∷ ips) ((read, small, no_slash, inner), back) = (
    (
      refl,
      all_inner-append (formats.show_ip ip) (b'/' ∷ show_uint mask) inner
          (all_inner-show_digits 20 mask),
    ),
    allowed_items-AllFit ips back,
  )

  handshake_items-AllFit :
      (set : Bool) (system_now ago : ℕ) → AllFit (handshake_items formats set system_now ago)
  handshake_items-AllFit false system_now ago = tt
  handshake_items-AllFit true system_now ago = elim (Bool-cases (leb ago system_now)) [
    | inl after ↦ rw after (
      (refl, all_inner-show_digits 20 ((system_now - ago) / second)),
      ((refl, all_inner-show_digits 20 ((system_now - ago) % second)), tt),
    )
    | inr before ↦ rw before tt
  ]

  pub later_items-AllFit :
      {N : Type 0} (now system_now : ℕ) (p : Peer N)
      → Readable formats p.info
      → AllFit (later_items formats now system_now p)
  later_items-AllFit now system_now p back =
      AllFit-append _ _
        (item_if-AllFit (ascii "preshared_key") formats.to_hex p.info.psk refl
          (λ k h. (back.psk_back k h).1))
        (AllFit-append _ _
          (item_if-AllFit (ascii "endpoint") (show_endpoint formats) p.info.endpoint refl
            (λ e h. (back.endpoint_back e h).1))
          (AllFit-append _ _
            (item_if-AllFit (ascii "persistent_keepalive_interval") show_uint p.info.keepalive refl
              (λ n h. all_inner-show_digits 20 n))
            (AllFit-append _ _ (allowed_items-AllFit p.info.allowed_ips back.ips_back) (
              (refl, all_inner-show_digits 20 p.tx_bytes),
              (
                (refl, all_inner-show_digits 20 p.rx_bytes),
                handshake_items-AllFit (is_set p.timers.handshake_completed) system_now
                    (elapsed now p.timers.handshake_completed),
              ),
            ))))
