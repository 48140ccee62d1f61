-- ===== src/Config/Panics/Decoder.antt =====
-- src/interface/config.rs: which bytes make `decode` panic.
use wireguard_rs.Base.{
  ℕ, zero, suc, ◌+◌, ◌^◌, ◌≡◌, refl, sym, subst, ap, ◌∙◌, Bool, true, false, not, ◌&&◌, ◌||◌,
  Option, none, some, List, [], ◌∷◌, Result, ok, err, Error, ok_or, Bytes, length, drop, bytes_eq,
  arith, if◌then◌else◌, Bool-cases, ◌⊎◌, inl, inr, ◌==◌,
}
use wireguard_rs.Base.Monad.{next_step}
use wireguard_rs.Config.{Command}
use wireguard_rs.Config.Text.{Formats, split, before_blank_line, is_utf8, onto_first}
use wireguard_rs.Config.Parser.{read_command}
use wireguard_rs.Config.Codec.{
  entry, entries, onto_entries, decode, decode_blob, decode_text, decoded,
}
use wireguard_rs.Config.Panics.{panics, read_command-panics}

abbrev pub has_equals : Bytes → Bool
has_equals [] = false
has_equals (c ∷ cs) = c == b'=' || has_equals cs

abbrev pub all_have_equals : List Bytes → Bool
all_have_equals [] = true
all_have_equals (line ∷ lines) = has_equals line && all_have_equals lines

-- Of the text of a complete command.
abbrev pub lacks_equals : Option Bytes → Bool
lacks_equals none = false
lacks_equals (some blob) = not (all_have_equals (split b'\n' blob))

split-cons :
    (at : ℕ) (text : Bytes)
    → (piece : Bytes) × (pieces : List Bytes) × (split at text ≡ piece ∷ pieces)
unfolding split
split-cons at [] = ([], [], refl)
split-cons at (c ∷ cs) =
    let (piece, pieces, e) = split-cons at cs in
    elim (Bool-cases (c == at)) [
      | inl here ↦ ([], split at cs, ground (arith, here))
      | inr away ↦ (c ∷ piece, pieces, ground (arith, away, e))
    ]

longer_key :
    (c : ℕ) (pieces : List Bytes) (item : Bytes × Bytes)
    → entry pieces ≡ ok item
    → (later : Bytes × Bytes) × (entry (onto_first c pieces) ≡ ok later)
longer_key c [] item h = absurd (ground arith)
longer_key c (key ∷ []) item h = absurd (ground arith)
longer_key c (key ∷ value ∷ rest) item h = ((c ∷ key, value), refl)

no_value :
    (c : ℕ) (pieces : List Bytes)
    → entry pieces ≡ err Error.panicked
    → entry (onto_first c pieces) ≡ err Error.panicked
no_value c [] h = refl
no_value c (key ∷ []) h = refl
no_value c (key ∷ value ∷ rest) h = absurd (ground arith)

-- A line gives an entry, or panics.
entry_cases :
    (line : Bytes)
    → ((has_equals line ≡ true) × (item : Bytes × Bytes) × (entry (split b'=' line) ≡ ok item))
      ⊎ ((has_equals line ≡ false) × (entry (split b'=' line) ≡ err Error.panicked))
unfolding split
entry_cases [] = inr (refl, refl)
entry_cases (c ∷ cs) = elim (Bool-cases (c == b'=')) [
  | inl here ↦
      let (piece, pieces, e) = split-cons b'=' cs in
      inl (ground (arith, here), ([], piece), rw (here, e) refl)
  | inr away ↦ elim (entry_cases cs) [
    | inl (has, item, e) ↦
        let (later, e') = longer_key c (split b'=' cs) item e in
        inl (ground (arith, away, has), later, rw away e')
    | inr (lacks, e) ↦ inr (ground (arith, away, lacks), rw away (no_value c (split b'=' cs) e))
  ]
]

-- `entries` of lines that all have the sign is a list as long, and of others a panic.
Entered : Bool → List Bytes → Result (List (Bytes × Bytes)) → Type 0
Entered true lines (ok items) = length items ≡ length lines
Entered true lines (err e) = ⊥
Entered false lines r = r ≡ err Error.panicked

entries-Entered : (lines : List Bytes) → Entered (all_have_equals lines) lines (entries lines)
unfolding entries Entered
entries-Entered [] = refl
entries-Entered (line ∷ lines) = elim (entry_cases line) [
  | inl (has, item, e) ↦
      rw (has, e) (later (all_have_equals lines) item (entries lines) (entries-Entered lines))
  | inr (lacks, e) ↦ rw (lacks, e) refl
]
  where
    later :
        (b : Bool) (item : Bytes × Bytes) (r : Result (List (Bytes × Bytes)))
        → Entered b lines r
        → Entered b (line ∷ lines) (onto_entries (ok item) r)
    later true item (ok items) e = ap suc e
    later true item (err e) h = h
    later false item (ok items) h = absurd (ground arith)
    later false item (err e) h = ground arith

module _ (formats : Formats) where
  command-panics :
      (blob buf : Bytes) (item : Bytes × Bytes) (items : List (Bytes × Bytes))
      → panics (decoded formats blob (ok (item ∷ items)) buf).1 ≡ false
  unfolding wireguard_rs.Base.Monad.◌>>=◌ wireguard_rs.Base.Monad.◌>>◌
  command-panics blob buf item items =
      read (read_command formats (item ∷ items)) (read_command-panics formats item items)
    where
      read :
          (r : Result Command)
          → panics r ≡ false
          → panics
              (next_step
                (drop (length blob + 1) buf, r)
                (λ c. wireguard_rs.Base.Monad.pure (some c))).1
            ≡ false
      read (ok c) h = refl
      read (err e) h = h

  lines-panics :
      (blob buf : Bytes)
      → panics (decode_blob formats (some blob) buf).1 ≡ not (all_have_equals (split b'\n' blob))
  unfolding Entered wireguard_rs.Base.Monad.◌>>=◌
  lines-panics blob buf =
      let (piece, pieces, e) = split-cons b'\n' blob in
      by_entries piece pieces (all_have_equals (split b'\n' blob)) (entries (split b'\n' blob)) (
        subst (λ lines. Entered (all_have_equals lines) (piece ∷ pieces) (entries lines)) (sym e)
          (entries-Entered (piece ∷ pieces)))
    where
      by_entries :
          (piece : Bytes) (pieces : List Bytes) (b : Bool) (r : Result (List (Bytes × Bytes)))
          → Entered b (piece ∷ pieces) r
          → panics (decoded formats blob r buf).1 ≡ not b
      by_entries piece pieces true (ok []) h = absurd (omega (arith, h))
      by_entries piece pieces true (ok (item ∷ items)) h = command-panics blob buf item items
      by_entries piece pieces true (err e) h = absurd h
      by_entries piece pieces false (ok items) h = absurd (ground arith)
      by_entries piece pieces false (err e) h = ground arith

  -- The decoder panics exactly if the bytes are not UTF-8, or are a complete command of which a line
  -- has no equals sign.
  pub decode-panics :
      (buf : Bytes)
      → panics (decode formats buf).1 ≡ (not (is_utf8 buf) || lacks_equals (before_blank_line buf))
  unfolding decode
  decode-panics buf = by_text (is_utf8 buf) (before_blank_line buf) refl
    where
      by_text :
          (b : Bool) (found : Option Bytes)
          → before_blank_line buf ≡ found
          → panics (decode_text formats b buf).1 ≡ (not b || lacks_equals found)
      by_text false found at = refl
      by_text true none at = rw at refl
      by_text true (some blob) at =
          ap (λ f. panics (decode_blob formats f buf).1) at ∙ lines-panics blob buf
