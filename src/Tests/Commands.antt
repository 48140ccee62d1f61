-- ===== src/Tests/Commands.antt =====
-- Instances of the theorems on the text of commands, with toy functions for keys and addresses.
use wireguard_rs.Base.{
  ◌^◌, ◌≡◌, refl, subst, arith, true, false, none, some, [], ◌∷◌, ◌++◌, ok, err, Error,
}
use wireguard_rs.Types.{v4, addr}
use wireguard_rs.Crates.Sample.{sample_key}
use wireguard_rs.Config.{UpdateEvent, Command}
use wireguard_rs.Config.Printer.{to_config_string, show_endpoint}
use wireguard_rs.Config.Lines.{all_inner}
use wireguard_rs.Config.RoundTrip.{Readable, as_printed}
use wireguard_rs.Config.RoundTrip.Decode.{decode-to_config_string}
use wireguard_rs.Tests.{info, peer, no_sessions, localhost}
use wireguard_rs.Config.Text.{
  Formats, ascii, read_uint, show_uint, show_digits, is_utf8, before_blank_line,
}
use wireguard_rs.Config.Codec.{decode}
use wireguard_rs.Config.Framing.{decode_next_panics}
use wireguard_rs.Config.Panics.{panics}
use wireguard_rs.Config.Panics.Decoder.{decode-panics}

abbrev formats : Formats
formats = record {
  to_hex = λ key. ascii "ab";
  from_hex = λ text. some (1 ∷ 2 ∷ []);
  show_ip = λ ip. ascii "10.0.0.1";
  read_ip = λ text. some (v4 (10 ∷ 0 ∷ 0 ∷ 1 ∷ []));
  read_socket_addr = λ text. none;
}

two_updates :
    decode formats
      (ascii "set=1\nfwmark=+70\npublic_key=ab\nallowed_ip=10.0.0.1/32\nremove=true\n\n")
    ≡ (
      ascii "\n",
      ok (some (Command.set 1 (UpdateEvent.fwmark 70 ∷ UpdateEvent.remove_peer (1 ∷ 2 ∷ []) ∷ []))),
    )
unfolding decode wireguard_rs.Base.Monad.◌>>=◌ wireguard_rs.Base.Monad.◌>>◌
two_updates = refl

port_too_large :
    decode formats (ascii "set=1\nlisten_port=65536\n\n") ≡ (ascii "\n", err Error.parse_error)
unfolding decode wireguard_rs.Base.Monad.◌>>=◌ wireguard_rs.Base.Monad.◌>>◌
port_too_large = refl

unfinished : decode formats (ascii "get=1\n") ≡ (ascii "get=1\n", ok none)
unfolding decode
unfinished = refl

get_once : decode formats (ascii "get=1\n\n") ≡ (ascii "\n", ok (some (Command.get 1)))
unfolding decode wireguard_rs.Base.Monad.◌>>=◌ wireguard_rs.Base.Monad.◌>>◌
get_once = refl

decode_next_panics_example :
    (decode formats (ascii "\n" ++ ascii "get=1\n\n")).1 ≡ err Error.panicked
unfolding before_blank_line
decode_next_panics_example =
    decode_next_panics formats (ascii "get=1\n\n") (ascii "\n") (ascii "get=1\n\n") (Command.get 1)
      get_once refl

-- A line without an equals sign.
decode-panics_example : panics (decode formats (ascii "set=1\nremove\n\n")).1 ≡ true
unfolding is_utf8 before_blank_line wireguard_rs.Config.Text.split
decode-panics_example = decode-panics formats (ascii "set=1\nremove\n\n")

-- Toy functions that write a fixed text for each kind of value and read the values of the sample peer.
abbrev known : Formats
known = record {
  to_hex = λ key. ascii "ab";
  from_hex = λ digits. some sample_key;
  show_ip = λ ip. ascii "10.0.0.0";
  read_ip = λ digits. some (v4 (10 ∷ 0 ∷ 0 ∷ 0 ∷ []));
  read_socket_addr = λ digits. some (addr localhost);
}

info-Readable : Readable known info
unfolding show_digits
info-Readable = record {
  key_back = refl;
  key_inner = refl;
  psk_back = λ k h. absurd (ground arith);
  endpoint_back = λ e h.
      let same : localhost ≡ e = cc in
      subst
        (λ e.
          (known.read_socket_addr (show_endpoint known e) ≡ some (addr e))
          × (all_inner (show_endpoint known e) ≡ true))
        same (refl, refl);
  keepalive_fits = λ n h. ground (arith, h);
  ips_back = ((refl, omega arith, refl, refl), tt);
}

decode-to_config_string_example :
    decode known (ascii "set=1\n" ++ to_config_string known 0 0 (peer no_sessions) ++ ascii "\n")
    ≡ (ascii "\n", ok (some (Command.set 1 (UpdateEvent.update_peer (as_printed info) false ∷ []))))
decode-to_config_string_example = decode-to_config_string known 0 0 (peer no_sessions) info-Readable
