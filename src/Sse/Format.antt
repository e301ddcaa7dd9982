-- ===== src/Sse/Format.antt =====
-- The event stream format, as a server writes it: the text that an `SseStream` is to read. A message has
-- its data in lines; a field is `name: value`, and an empty line ends the message.
use navar.Base.{◌≢◌, ◌≡◌, List, [], ◌∷◌, ◌++◌, Option, none, some, Bytes, false, ◌==◌}
use navar.Lines.Split.{terminate}
use navar.Sse.{SseEvent, data_name, id_name, event_name}
use navar.Std.Text.{trim_start, trim_end}
use navar.Std.Utf8.{Text, IsText, encode}

pub record Message : Type 0 where
  pub id : Option Text
  pub event : Option Text
  pub first_line : Text
  pub more_lines : List Text

pub data FieldName : Type 0 where
  data_field id_field event_field : FieldName

abbrev pub name_of : FieldName → Text
name_of data_field = data_name
name_of id_field = id_name
name_of event_field = event_name

abbrev pub field_text : FieldName → Text → Text
field_text n value = name_of n ++ (b':' ∷ b' ' ∷ value)

abbrev pub field_line : FieldName → Text → Bytes
field_line n value = terminate (encode (field_text n value))

abbrev pub optional_line : FieldName → Option Text → Bytes → Bytes
optional_line n none rest = rest
optional_line n (some value) rest = field_line n value ++ rest

abbrev pub data_lines : List Text → Bytes → Bytes
data_lines [] rest = rest
data_lines (l ∷ ls) rest = field_line data_field l ++ data_lines ls rest

abbrev pub print_message : Message → Bytes → Bytes
print_message m rest = optional_line id_field m.id (
    optional_line event_field m.event
      (data_lines (m.first_line ∷ m.more_lines) (terminate [] ++ rest)))

abbrev pub print_all : List Message → Bytes
print_all [] = []
print_all (m ∷ ms) = print_message m (print_all ms)

-- The event that a message stands for.
abbrev pub join_lines : Text → List Text → Text
join_lines t [] = t
join_lines t (l ∷ ls) = join_lines ((t ++ b'\n' ∷ []) ++ l) ls

abbrev pub event_of : Message → SseEvent
event_of m = record { id = m.id; event = m.event; payload = join_lines m.first_line m.more_lines }

abbrev pub HasNoNewline : Text → Type 0
HasNoNewline [] = Unit {0}
HasNoNewline (c ∷ cs) = ((c == b'\n') ≡ false) × HasNoNewline cs

-- A value that can be written: characters on one line, with no space around them.
pub record IsValue (value : Text) : Type 0 where
  pub chars : IsText value
  pub one_line : HasNoNewline value
  pub no_space_before : trim_start value ≡ value
  pub no_space_after : trim_end value ≡ value

abbrev pub AllValues : List Text → Type 0
AllValues [] = Unit {0}
AllValues (l ∷ ls) = IsValue l × AllValues ls

abbrev pub IsOptionalValue : Option Text → Type 0
IsOptionalValue none = Unit {0}
IsOptionalValue (some value) = IsValue value

-- The first line of the data is not empty.
pub record IsMessage (m : Message) : Type 0 where
  pub id_value : IsOptionalValue m.id
  pub event_value : IsOptionalValue m.event
  pub first_value : IsValue m.first_line
  pub first_ne_nil : m.first_line ≢ []
  pub more_values : AllValues m.more_lines

abbrev pub AllMessages : List Message → Type 0
AllMessages [] = Unit {0}
AllMessages (m ∷ ms) = IsMessage m × AllMessages ms
