-- ===== src/Sse/Event.antt =====
-- src/response_helpers/sse.rs: what an event tells, and the last identifier of a stream.
use navar.Base.{Option}
use navar.Sse.{SseEvent, SseStream}
use navar.Std.Utf8.{Text}

abbrev pub id : SseEvent → Option Text
id ev = ev.id

abbrev pub event : SseEvent → Option Text
event ev = ev.event

abbrev pub data_of : SseEvent → Text
data_of ev = ev.payload

abbrev pub last_event_id : {E : Type 0} → SseStream E → Option Text
last_event_id s = s.last_event_id
