-- ===== src/Sse/View.antt =====
-- What a client can observe of an `SseStream`: the bytes of the line begun, and the events. The ring
-- buffers' layout and the scratch buffer are forgotten.
use mathlib.Core.Option
use navar.Base.{
  ◌≡◌, not, inl, inr, List, [], ◌∷◌, ◌++◌, Option, some, arith, Bytes, if◌then◌else◌, is_empty,
  foldl, foldl-append, Bool-cases,
}
use navar.Lines.Split.{cut, cut-append}
use navar.Sse.{
  SseEvent, default_event, SseStream, data_name, id_name, event_name, process_field, process_line,
}
use navar.Std.Deque.Laws.{contents-push_back}
use navar.Std.Deque.{contents}
use navar.Std.Text.{trim_start, trim_end, splitn2, text_eq}
use navar.Std.Utf8.{Text, from_utf8_lossy}

-- The events of a reader: the one that is being built, those that are complete, and the last id.
pub record Events : Type 0 where
  pub building : SseEvent
  pub complete : List SseEvent
  pub last_id : Option Text

-- One field line.
unfoldable pub read_field : Events → Text → Text → Events
read_field v name value =
    if text_eq name data_name
    then record v {
      building = record (v.building) {
        payload =
            (if not (is_empty v.building.payload)
              then v.building.payload ++ b'\n' ∷ []
              else v.building.payload)
            ++ value;
      };
    }
    else if text_eq name id_name
    then record v { building = record (v.building) { id = some value }; last_id = some value }
    else if text_eq name event_name
    then record v { building = record (v.building) { event = some value } }
    else v

-- One line: an empty one completes the event.
unfoldable pub read_text : Events → Text → Events
unfolding read_field
read_text v line =
    if is_empty line
    then record v { complete = v.complete ++ v.building ∷ []; building = default_event }
    else read_field v (splitn2 b':' line).first
        (Option.get_or (Option.map trim_start (splitn2 b':' line).second) [])

abbrev pub read_line : Events → Bytes → Events
read_line v bytes = read_text v (trim_end (from_utf8_lossy bytes))

pub record View : Type 0 where
  pub left : Bytes
  pub events : Events

-- The reference: cut what has come at the newlines, and read the lines.
unfoldable pub feed : View → Bytes → View
feed v bs = record {
  left = (cut v.left bs).left;
  events = foldl read_line v.events (cut v.left bs).lines;
}

-- Feeding can stop anywhere and go on.
pub feed-append : (v : View) (xs ys : Bytes) → feed v (xs ++ ys) ≡ feed (feed v xs) ys
unfolding feed
feed-append v xs ys =
    rw (cut-append xs ys v.left, foldl-append read_line v.events (cut v.left xs).lines)

module _ {E : Type 0} where
  abbrev pub events_of : SseStream E → Events
  events_of s = record {
    building = s.pending_event;
    complete = contents s.ready_events;
    last_id = s.last_event_id;
  }

  abbrev pub view : SseStream E → View
  view s = record { left = contents s.buffer; events = events_of s }

  events_of-process_field :
      (s : SseStream E) (name value : Text)
      → events_of (process_field s name value) ≡ read_field (events_of s) name value
  unfolding process_field read_field
  events_of-process_field s name value = ground arith

  pub events_of-process_line :
      (s : SseStream E) (line : Text)
      → events_of (process_line s line) ≡ read_text (events_of s) line
  unfolding process_line read_text
  events_of-process_line s line = elim (Bool-cases (is_empty line)) [
    | inl e ↦ rw (e, contents-push_back s.ready_events)
    | inr e ↦ rw e (events_of-process_field s _ _)
  ]

  -- The fields that the handling of a line leaves alone.
  pub kept_by_field :
      (s : SseStream E) (name value : Text)
      → ((process_field s name value).buffer ≡ s.buffer)
        × ((process_field s name value).body ≡ s.body)
  unfolding process_field
  kept_by_field s name value = (ground arith, ground arith)
