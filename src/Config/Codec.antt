-- ===== src/Config/Codec.antt =====
-- src/interface/config.rs: `ConfigurationCodec`, on the bytes that have come in on a connection.
use wireguard_rs.Base.{
  ◌+◌, Bool, true, false, Option, none, some, List, [], ◌∷◌, ◌++◌, Result, ok, err, Error, Bytes,
  length, drop,
}
use wireguard_rs.Base.Monad.{M, modify, try, fail, pure, ◌>>=◌, ◌>>◌}
use wireguard_rs.Config.{Command}
use wireguard_rs.Config.Text.{Formats, ascii, is_utf8, split, before_blank_line}
use wireguard_rs.Config.Parser.{read_command}

-- The key and the value of a line: `entry.next().unwrap()` twice.
abbrev pub entry : List Bytes → Result (Bytes × Bytes)
entry [] = err Error.panicked
entry (key ∷ []) = err Error.panicked
entry (key ∷ value ∷ rest) = ok (key, value)

abbrev pub onto_entries :
    Result (Bytes × Bytes) → Result (List (Bytes × Bytes)) → Result (List (Bytes × Bytes))
onto_entries (err e) rest = err e
onto_entries (ok item) (err e) = err e
onto_entries (ok item) (ok items) = ok (item ∷ items)

-- `for line in blob.split('\n')`
unfoldable pub entries : List Bytes → Result (List (Bytes × Bytes))
unfolding split
entries [] = ok []
entries (line ∷ lines) = onto_entries (entry (split b'=' line)) (entries lines)

module _ (formats : Formats) where
  -- With the entries of a complete command.
  abbrev pub decoded : Bytes → Result (List (Bytes × Bytes)) → M Bytes (Option Command)
  decoded blob lines = do
    items ← try lines
    modify (drop (length blob + 1))
    command ← try (read_command formats items)
    pure (some command)

  abbrev pub decode_blob : Option Bytes → M Bytes (Option Command)
  decode_blob none = pure none
  decode_blob (some blob) = decoded blob (entries (split b'\n' blob))

  -- A buffer that is not UTF-8 panics.
  abbrev pub decode_text : Bool → M Bytes (Option Command)
  decode_text false = fail Error.panicked
  decode_text true = λ buf. decode_blob (before_blank_line buf) buf

  -- The state is the buffer.
  unfoldable pub decode : M Bytes (Option Command)
  unfolding entries split before_blank_line is_utf8 read_command
  decode buf = decode_text (is_utf8 buf) buf

-- `encode`: what it appends to the buffer.
abbrev pub encode_reply : Bytes → Bytes → Bytes
encode_reply msg buf = buf ++ msg ++ ascii "\n\n"
