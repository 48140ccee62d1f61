-- ===== src/Config/Lines.antt =====
-- src/interface/config.rs: lines of keys and values, as they are split.
use wireguard_rs.Base.{
  ℕ, ◌≡◌, refl, sym, ap, ◌∙◌, Bool, true, false, not, ◌&&◌, some, List, [], ◌∷◌, ◌++◌, ok, Bytes,
  ltb, ◌==◌, arith,
}
use mathlib.Core.List.{append_assoc}
use wireguard_rs.Config.Text.{split, before_blank_line, starts_with, is_utf8}
use wireguard_rs.Config.Codec.{entry, entries, onto_entries}
use wireguard_rs.Config.Printer.{line}

-- ASCII characters that end neither a key nor a value.
abbrev pub is_inner : ℕ → Bool
is_inner c = ltb c 128 && not (c == b'\n') && not (c == b'=')

abbrev pub all_inner : Bytes → Bool
all_inner [] = true
all_inner (c ∷ cs) = is_inner c && all_inner cs

abbrev pub avoids : ℕ → Bytes → Bool
avoids at [] = true
avoids at (c ∷ cs) = not (c == at) && avoids at cs

abbrev pub Item : Type 0
Item = Bytes × Bytes

-- A line without its end.
abbrev pub body : Item → Bytes
body (key, value) = key ++ b'=' ∷ value

abbrev pub Fits : Item → Type 0
Fits (key, value) = (all_inner key ≡ true) × (all_inner value ≡ true)

abbrev pub AllFit : List Item → Type 0
AllFit [] = Unit {0}
AllFit (item ∷ items) = Fits item × AllFit items

avoids_newline : (text : Bytes) → all_inner text ≡ true → avoids b'\n' text ≡ true
avoids_newline [] h = refl
avoids_newline (c ∷ cs) h = ground (arith, h, avoids_newline cs)

avoids-body : (item : Item) → Fits item → avoids b'\n' (body item) ≡ true
avoids-body ([], value) (k, v) = avoids_newline value v
avoids-body (c ∷ cs, value) (k, v) =
    ground (arith, k, avoids-body (cs, value) (ground (arith, k), v))

split_value : (value : Bytes) → all_inner value ≡ true → split b'=' value ≡ value ∷ []
unfolding split
split_value [] h = refl
split_value (c ∷ cs) h = ground (arith, h, split_value cs)

split-body :
    (key value : Bytes)
    → all_inner key ≡ true
    → all_inner value ≡ true
    → split b'=' (body (key, value)) ≡ key ∷ value ∷ []
unfolding split
split-body [] value h v = ap (λ pieces. [] ∷ pieces) (split_value value v)
split-body (c ∷ cs) value h v = ground (arith, h, split-body cs value)

split_last : (text : Bytes) → avoids b'\n' text ≡ true → split b'\n' text ≡ text ∷ []
unfolding split
split_last [] h = refl
split_last (c ∷ cs) h = ground (arith, h, split_last cs)

split_line :
    (text rest : Bytes)
    → avoids b'\n' text ≡ true
    → split b'\n' (text ++ b'\n' ∷ rest) ≡ text ∷ split b'\n' rest
unfolding split
split_line [] rest h = refl
split_line (c ∷ cs) rest h = ground (arith, h, split_line cs rest)

-- The lines of some items, and the same without the end of the last.
abbrev pub text : List Item → Bytes
text [] = []
text ((key, value) ∷ items) = line key value ++ text items

abbrev pub blob : Item → List Item → Bytes
blob item [] = body item
blob item (next ∷ items) = body item ++ b'\n' ∷ blob next items

pub entries-blob :
    (item : Item) (items : List Item)
    → Fits item
    → AllFit items
    → entries (split b'\n' (blob item items)) ≡ ok (item ∷ items)
unfolding entries
entries-blob (key, value) [] (k, v) all =
    ap entries (split_last (body (key, value)) (avoids-body (key, value) (k, v)))
    ∙ ap (λ pieces. onto_entries (entry pieces) (ok [])) (split-body key value k v)
entries-blob (key, value) (next ∷ items) (k, v) (n, all) =
    ap entries (split_line (body (key, value)) (blob next items) (avoids-body (key, value) (k, v)))
    ∙ ap (λ pieces. onto_entries (entry pieces) (entries (split b'\n' (blob next items))))
        (split-body key value k v)
    ∙ ap (onto_entries (ok (key, value))) (entries-blob next items n all)

-- A line before a text that is not blank.
before_blank_line-append :
    (line rest : Bytes)
    → avoids b'\n' line ≡ true
    → starts_with b'\n' rest ≡ false
    → (found : Bytes) → before_blank_line rest ≡ some found
    → before_blank_line (line ++ b'\n' ∷ rest) ≡ some (line ++ b'\n' ∷ found)
unfolding before_blank_line
before_blank_line-append [] rest h s found e = ground (arith, s, e)
before_blank_line-append (c ∷ cs) rest h s found e =
    ground (arith, h, before_blank_line-append cs rest (ground (arith, h)) s found e)

before_blank_line_end :
    (line : Bytes)
    → avoids b'\n' line ≡ true
    → (more : Bytes) → before_blank_line (line ++ b'\n' ∷ b'\n' ∷ more) ≡ some line
unfolding before_blank_line
before_blank_line_end [] h more = refl
before_blank_line_end (c ∷ cs) h more =
    ground (arith, h, before_blank_line_end cs (ground (arith, h)) more)

line-append : (key value rest : Bytes) → line key value ++ rest ≡ body (key, value) ++ b'\n' ∷ rest
line-append [] value rest = ap (λ cs. b'=' ∷ cs) (append_assoc value (b'\n' ∷ []) rest)
line-append (c ∷ cs) value rest = ap (λ text. c ∷ text) (line-append cs value rest)

pub text-append :
    (item : Item) (items : List Item) (rest : Bytes)
    → text (item ∷ items) ++ rest ≡ blob item items ++ b'\n' ∷ rest
text-append (key, value) [] rest =
    append_assoc (line key value) [] rest ∙ line-append key value rest
text-append (key, value) (next ∷ items) rest =
    append_assoc (line key value) (text (next ∷ items)) rest
    ∙ ap (λ more. line key value ++ more) (text-append next items rest)
    ∙ line-append key value (blob next items ++ b'\n' ∷ rest)
    ∙ sym (append_assoc (body (key, value)) (b'\n' ∷ blob next items) (b'\n' ∷ rest))

blob_start :
    (item : Item) (items : List Item) (rest : Bytes)
    → Fits item
    → starts_with b'\n' (blob item items ++ rest) ≡ false
blob_start ([], value) [] rest fits = refl
blob_start ([], value) (next ∷ items) rest fits = refl
blob_start (c ∷ cs, value) [] rest (k, v) = ground (arith, k)
blob_start (c ∷ cs, value) (next ∷ items) rest (k, v) = ground (arith, k)

pub before_blank_line-blob :
    (item : Item) (items : List Item) (more : Bytes)
    → Fits item
    → AllFit items
    → before_blank_line (blob item items ++ b'\n' ∷ b'\n' ∷ more) ≡ some (blob item items)
before_blank_line-blob item [] more fits all =
    before_blank_line_end (body item) (avoids-body item fits) more
before_blank_line-blob item (next ∷ items) more fits (n, all) =
    ap before_blank_line (append_assoc (body item) (b'\n' ∷ blob next items) (b'\n' ∷ b'\n' ∷ more))
    ∙ before_blank_line-append (body item) (blob next items ++ b'\n' ∷ b'\n' ∷ more)
        (avoids-body item fits) (blob_start next items (b'\n' ∷ b'\n' ∷ more) n) (blob next items)
        (before_blank_line-blob next items more n all)

abbrev all_ascii : Bytes → Bool
all_ascii [] = true
all_ascii (c ∷ cs) = ltb c 128 && all_ascii cs

is_utf8-all_ascii : (xs : Bytes) → all_ascii xs ≡ true → is_utf8 xs ≡ true
unfolding is_utf8
is_utf8-all_ascii [] h = refl
is_utf8-all_ascii (c ∷ cs) h = ground (arith, h, is_utf8-all_ascii cs)

all_ascii-append :
    (xs ys : Bytes) → all_ascii xs ≡ true → all_ascii ys ≡ true → all_ascii (xs ++ ys) ≡ true
all_ascii-append [] ys h k = k
all_ascii-append (c ∷ cs) ys h k = ground (arith, h, all_ascii-append cs ys (ground (arith, h)) k)

all_inner-all_ascii : (xs : Bytes) → all_inner xs ≡ true → all_ascii xs ≡ true
all_inner-all_ascii [] h = refl
all_inner-all_ascii (c ∷ cs) h = ground (arith, h, all_inner-all_ascii cs)

body-all_ascii : (item : Item) → Fits item → all_ascii (body item) ≡ true
body-all_ascii (key, value) (k, v) =
    all_ascii-append key (b'=' ∷ value) (all_inner-all_ascii key k) (all_inner-all_ascii value v)

pub blob-is_utf8 :
    (item : Item) (items : List Item)
    → Fits item
    → AllFit items
    → is_utf8 (blob item items ++ b'\n' ∷ b'\n' ∷ []) ≡ true
blob-is_utf8 item items fits all =
    is_utf8-all_ascii _
      (all_ascii-append (blob item items) (b'\n' ∷ b'\n' ∷ []) (plain item items fits all) refl)
  where
    plain :
        (item : Item) (items : List Item)
        → Fits item
        → AllFit items
        → all_ascii (blob item items) ≡ true
    plain item [] fits all = body-all_ascii item fits
    plain item (next ∷ items) fits (n, all) =
        all_ascii-append (body item) (b'\n' ∷ blob next items) (body-all_ascii item fits)
          (plain next items n all)
