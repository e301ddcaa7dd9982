-- ===== src/Sse/Fields.antt =====
-- One line of the format is read as the field that it states.
use navar.Base.{
  ℕ, ◌≡◌, ◌≢◌, refl, ap, ◌∙◌, List, [], ◌∷◌, ◌++◌, false, Option, none, some, Bytes, arith,
  is_empty, if◌then◌else◌, ◌==◌,
}
use navar.Lines.Split.{cut-terminate, IsLine, terminate}
use navar.Sse.Format.{
  FieldName, data_field, id_field, event_field, name_of, field_text, field_line, optional_line,
  data_lines, join_lines, HasNoNewline, IsValue, AllValues, IsOptionalValue,
}
use navar.Sse.View.{Events, read_field, read_text, read_line, feed}
use navar.Sse.{data_name}
use navar.Std.Text.{trim_start, trim_end, splitn2, text_eq}
use navar.Std.Utf8.RoundTrip.{from_utf8_lossy-encode}
use navar.Std.Utf8.{Text, IsText, encode, encode_char}

encode_char-IsLine :
    (c : ℕ) (rest : Bytes) → (c == b'\n') ≡ false → IsLine rest → IsLine (encode_char c ++ rest)
unfolding encode_char
encode_char-IsLine c rest h k = ground arith

encode-IsLine : (t : Text) → HasNoNewline t → IsLine (encode t)
unfolding encode
encode-IsLine [] h = tt
encode-IsLine (c ∷ cs) h = encode_char-IsLine c (encode cs) h.0 (encode-IsLine cs h.1)

-- A terminated line is read at once.
pub feed-terminate :
    (l bs : Bytes) (e : Events)
    → IsLine l
    → feed (record { left = []; events = e }) (terminate l ++ bs)
      ≡ feed (record { left = []; events = read_line e l }) bs
unfolding feed
feed-terminate l bs e h = rw (cut-terminate l [] bs h)

pub is_empty_of_ne : (xs : Text) → xs ≢ [] → is_empty xs ≡ false
is_empty_of_ne [] h = absurd (h refl)
is_empty_of_ne (x ∷ xs) h = refl

is_empty-snoc : (xs ys : Text) (c : ℕ) → is_empty ((xs ++ c ∷ []) ++ ys) ≡ false
is_empty-snoc [] ys c = refl
is_empty-snoc (x ∷ xs) ys c = refl

is_empty-append : (xs ys : Text) → is_empty ys ≡ false → is_empty (xs ++ ys) ≡ false
is_empty-append [] ys h = h
is_empty-append (x ∷ xs) ys h = refl

trim_end-append :
    (xs ys : Text) → trim_end ys ≡ ys → is_empty ys ≡ false → trim_end (xs ++ ys) ≡ xs ++ ys
unfolding trim_end
trim_end-append [] ys h k = h
trim_end-append (x ∷ xs) ys h k = rw (trim_end-append xs ys h k, is_empty-append xs ys k)

-- The line of a field, without the spaces behind it.
trim_end-field_text :
    (n : FieldName) (value : Text)
    → trim_end value ≡ value
    → trim_end (field_text n value)
      ≡ name_of n ++ b':' ∷ (if is_empty value then [] else b' ' ∷ value)
unfolding trim_end
trim_end-field_text data_field [] h = refl
trim_end-field_text id_field [] h = refl
trim_end-field_text event_field [] h = refl
trim_end-field_text n (c ∷ cs) h =
    trim_end-append (name_of n) (b':' ∷ b' ' ∷ c ∷ cs)
      (trim_end-append (b':' ∷ b' ' ∷ []) (c ∷ cs) h refl) refl

-- Its name and value.
split_field :
    (n : FieldName) (rest : Text)
    → splitn2 b':' (name_of n ++ b':' ∷ rest) ≡ record { first = name_of n; second = some rest }
unfolding splitn2
split_field data_field rest = refl
split_field id_field rest = refl
split_field event_field rest = refl

trim_value :
    (value : Text)
    → trim_start value ≡ value
    → trim_start (if is_empty value then [] else b' ' ∷ value) ≡ value
unfolding trim_start
trim_value [] h = refl
trim_value (c ∷ cs) h = h

read_text-field :
    (e : Events) (n : FieldName) (value : Text)
    → trim_start value ≡ value
    → read_text e (name_of n ++ b':' ∷ (if is_empty value then [] else b' ' ∷ value))
      ≡ read_field e (name_of n) value
unfolding read_text
read_text-field e n value h = rw (
  is_empty-append (name_of n) (b':' ∷ (if is_empty value then [] else b' ' ∷ value)) refl,
  split_field n (if is_empty value then [] else b' ' ∷ value),
  trim_value value h,
)

field_text-chars :
    (n : FieldName) (value : Text)
    → IsValue value
    → IsText (field_text n value) × HasNoNewline (field_text n value)
field_text-chars data_field value v = ground (arith, v.chars, v.one_line)
field_text-chars id_field value v = ground (arith, v.chars, v.one_line)
field_text-chars event_field value v = ground (arith, v.chars, v.one_line)

-- A field's line is read as the field.
pub feed-field_line :
    (n : FieldName) (value : Text) (e : Events) (bs : Bytes)
    → IsValue value
    → feed (record { left = []; events = e }) (field_line n value ++ bs)
      ≡ feed (record { left = []; events = read_field e (name_of n) value }) bs
feed-field_line n value e bs v =
    let good = field_text-chars n value v in
    feed-terminate (encode (field_text n value)) bs e (encode-IsLine (field_text n value) good.1)
    ∙ ap (λ t. feed (record { left = []; events = read_text e (trim_end t) }) bs)
        (from_utf8_lossy-encode (field_text n value) good.0)
    ∙ ap (λ t. feed (record { left = []; events = read_text e t }) bs)
        (trim_end-field_text n value v.no_space_after)
    ∙ ap (λ t. feed (record { left = []; events = t }) bs)
        (read_text-field e n value v.no_space_before)

abbrev pub with_payload : Events → Text → Events
with_payload e t = record e { building = record (e.building) { payload = t } }

-- A line of data after the first one.
read_next_line :
    (e : Events) (l : Text)
    → is_empty e.building.payload ≡ false
    → read_field e data_name l ≡ with_payload e ((e.building.payload ++ b'\n' ∷ []) ++ l)
unfolding read_field text_eq
read_next_line e l h = rw h

pub feed-data_lines :
    (ls : List Text) (e : Events) (rest : Bytes)
    → AllValues ls
    → is_empty e.building.payload ≡ false
    → feed (record { left = []; events = e }) (data_lines ls rest)
      ≡ feed (record { left = []; events = with_payload e (join_lines e.building.payload ls) }) rest
feed-data_lines [] e rest v h = refl
feed-data_lines (l ∷ ls) e rest v h =
    feed-field_line data_field l e (data_lines ls rest) v.0
    ∙ ap (λ t. feed (record { left = []; events = t }) (data_lines ls rest)) (read_next_line e l h)
    ∙ feed-data_lines ls (with_payload e ((e.building.payload ++ b'\n' ∷ []) ++ l)) rest v.1
        (is_empty-snoc e.building.payload l b'\n')

abbrev pub read_optional : Events → FieldName → Option Text → Events
read_optional e n none = e
read_optional e n (some value) = read_field e (name_of n) value

pub feed-optional_line :
    (n : FieldName) (o : Option Text) (e : Events) (rest : Bytes)
    → IsOptionalValue o
    → feed (record { left = []; events = e }) (optional_line n o rest)
      ≡ feed (record { left = []; events = read_optional e n o }) rest
feed-optional_line n none e rest v = refl
feed-optional_line n (some value) e rest v = feed-field_line n value e rest v
