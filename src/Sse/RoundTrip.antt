-- ===== src/Sse/RoundTrip.antt =====
-- What is written in the format is read back.
use navar.Base.{
  ℕ, ◌+◌, ◌<◌, ◌≡◌, refl, sym, ap, ◌∙◌, List, [], ◌∷◌, ◌++◌, append_assoc, append-nil, map, Option,
  none, some, Result, ok, Bytes, arith, length, length-map,
}
use navar.Lines.Split.{cut, terminate}
use navar.Sse.Format.{
  Message, data_field, id_field, event_field, optional_line, data_lines, print_message, print_all,
  join_lines, event_of, IsMessage, AllMessages,
}
use navar.Sse.View.{Events, read_field, read_text, feed}
use navar.Sse.{SseEvent, default_event, data_name}
use navar.Std.Text.{trim_end, text_eq}
use navar.Sse.Fields.{
  feed-terminate, feed-data_lines, feed-field_line, feed-optional_line, read_optional,
  is_empty_of_ne,
}
use navar.Sse.Stream.{events_in, drive-new}
use navar.Body.{Body}
use navar.Buf.{Buf}
use navar.Reader.Drive.{drive}
use navar.Reader.Pieces.{bytes_of, NeverFails}
use navar.Sse.{new, poll_next}
use navar.Std.Utf8.{Text, from_utf8_lossy}

abbrev start_of : List SseEvent → Option Text → Option Text → Option Text → Text → Events
start_of complete last id event payload = record {
  building = record { id = id; event = event; payload = payload };
  complete = complete;
  last_id = last;
}

abbrev newer : Option Text → Option Text → Option Text
newer none old = old
newer (some i) old = some i

module _ (complete : List SseEvent) where
  read_id :
      (last o : Option Text)
      → read_optional (start_of complete last none none []) id_field o
        ≡ start_of complete (newer o last) o none []
  unfolding read_field text_eq
  read_id last none = refl
  read_id last (some i) = refl

  read_event :
      (last i o : Option Text)
      → read_optional (start_of complete last i none []) event_field o
        ≡ start_of complete last i o []
  unfolding read_field text_eq
  read_event last i none = refl
  read_event last i (some o) = refl

  read_first_line :
      (last i o : Option Text) (l : Text)
      → read_field (start_of complete last i o []) data_name l ≡ start_of complete last i o l
  unfolding read_field text_eq
  read_first_line last i o l = refl

  -- The empty line.
  feed_end :
      (last i o : Option Text) (t : Text) (rest : Bytes)
      → feed (record { left = []; events = start_of complete last i o t }) (terminate [] ++ rest)
        ≡ feed
            (record {
              left = [];
              events = record {
                building = default_event;
                complete = complete ++ record { id = i; event = o; payload = t } ∷ [];
                last_id = last;
              };
            })
            rest
  unfolding read_text from_utf8_lossy trim_end
  feed_end last i o t rest = feed-terminate [] rest (start_of complete last i o t) tt

  -- A written message is read as its event, and nothing of it stays behind.
  feed-print_message :
      (last : Option Text) (m : Message) (rest : Bytes)
      → IsMessage m
      → feed
          (record { left = []; events = start_of complete last none none [] })
          (print_message m rest)
        ≡ feed
            (record {
              left = [];
              events = start_of (complete ++ event_of m ∷ []) (newer m.id last) none none [];
            })
            rest
  feed-print_message last m rest v =
      let after_event = data_lines (m.first_line ∷ m.more_lines) (terminate [] ++ rest) in
      let after_first = data_lines m.more_lines (terminate [] ++ rest) in
      let at = λ (e : Events) (bs : Bytes). feed (record { left = []; events = e }) bs in
      feed-optional_line id_field m.id (start_of complete last none none [])
        (optional_line event_field m.event after_event) v.id_value
      ∙ ap (λ e. at e (optional_line event_field m.event after_event)) (read_id last m.id)
      ∙ feed-optional_line event_field m.event (start_of complete (newer m.id last) m.id none [])
          after_event v.event_value
      ∙ ap (λ e. at e after_event) (read_event (newer m.id last) m.id m.event)
      ∙ feed-field_line data_field m.first_line
          (start_of complete (newer m.id last) m.id m.event []) after_first v.first_value
      ∙ ap (λ e. at e after_first) (read_first_line (newer m.id last) m.id m.event m.first_line)
      ∙ feed-data_lines m.more_lines (start_of complete (newer m.id last) m.id m.event m.first_line)
          (terminate [] ++ rest) v.more_values (is_empty_of_ne m.first_line v.first_ne_nil)
      ∙ feed_end (newer m.id last) m.id m.event (join_lines m.first_line m.more_lines) rest

feed-print_all :
    (ms : List Message) (complete : List SseEvent) (last : Option Text)
    → AllMessages ms
    → (feed
        (record { left = []; events = start_of complete last none none [] })
        (print_all ms)).events.complete
      ≡ complete ++ map event_of ms
unfolding feed cut
feed-print_all [] complete last v = sym (append-nil complete)
feed-print_all (m ∷ ms) complete last v =
    ap (λ w. w.events.complete) (feed-print_message complete last m (print_all ms) v.0)
    ∙ feed-print_all ms (complete ++ event_of m ∷ []) (newer m.id last) v.1
    ∙ append_assoc complete (event_of m ∷ []) (map event_of ms)

-- The events of a text that lists messages.
events_in-print_all :
    {E : Type 0} (ms : List Message)
    → AllMessages ms
    → events_in {E = E} (print_all ms) ≡ map ok (map event_of ms)
events_in-print_all ms v = ap (map ok) (feed-print_all ms [] none v)

-- A stream over a body whose bytes list messages, cut into frames and pieces anywhere, also inside a
-- character, gives exactly the events of those messages, in order, and ends, where no poll of the body
-- fails and the stream is polled often enough. Of each message the identifier, the name and the lines of
-- data are to be characters on one line, with no white space at either end, and the first line of the data
-- is not to be empty.
pub drive-print_all :
    {E N : Type 0} (b : Buf N) (body : Body N E) (ms : List Message) (fuel : ℕ)
    → NeverFails body
    → AllMessages ms
    → bytes_of b body ≡ print_all ms
    → length ms + length body < fuel
    → drive poll_next fuel (new b body) ≡ some (map ok (map event_of ms))
drive-print_all {E} b body ms fuel h v e enough =
    let all : events_in {E = E} (bytes_of b body) ≡ map ok (map event_of ms) =
      ap events_in e ∙ events_in-print_all ms v in
    drive-new b body fuel h (
      omega (
        arith,
        ap length all,
        length-map {B = Result E SseEvent} ok (map event_of ms),
        length-map event_of ms,
        enough,
      ))
    ∙ ap some all
