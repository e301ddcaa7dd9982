-- ===== src/Body.antt =====
-- HTTP bodies (the crates `http_body` and `http_body_util`) as the program meets them. A body is the
-- sequence of answers that `poll_frame` gives to one poll after another; a sequence that has come to
-- its end answers `None` for ever. `map_frame`, `map_err` and `boxed` change the items of the answers.
use navar.Base.{
  Bool, List, [], ◌∷◌, map, Bytes, Option, none, some, Result, ok, err, Poll, ready, pending,
}

pub data Frame (D : Type 0) : Type 0 where
  data_frame : D → Frame D
  trailers_frame : List (Bytes × Bytes) → Frame D

pub data Answer (D E : Type 0) : Type 0 where
  not_ready : Answer D E
  item : Result E (Frame D) → Answer D E

abbrev pub Body : Type 0 → Type 0 → Type 0
Body D E = List (Answer D E)

-- The data of a frame, if it has any: `frame.into_data().ok()`.
abbrev pub into_data : {D : Type 0} → Frame D → Option D
into_data (data_frame d) = some d
into_data (trailers_frame h) = none

abbrev pub poll_frame : {D E : Type 0} → Body D E → Poll (Option (Result E (Frame D))) × Body D E
poll_frame [] = (ready none, [])
poll_frame (not_ready ∷ b) = (pending, b)
poll_frame (item r ∷ b) = (ready (some r), b)

-- `Frame::map_data`
abbrev pub map_data : {D D' : Type 0} → (D → D') → Frame D → Frame D'
map_data f (data_frame d) = data_frame (f d)
map_data f (trailers_frame h) = trailers_frame h

module _ {D D' E : Type 0} (f : D → D') where
  abbrev pub map_answer : Answer D E → Answer D' E
  map_answer not_ready = not_ready
  map_answer (item (ok fr)) = item (ok (map_data f fr))
  map_answer (item (err e)) = item (err e)

  -- `body.map_frame(|frame| frame.map_data(f))`
  abbrev pub map_frame : Body D E → Body D' E
  map_frame = map map_answer

-- `body.map_err(f)`
abbrev pub map_err : {D E E' : Type 0} → (E → E') → Body D E → Body D E'
map_err f [] = []
map_err f (not_ready ∷ b) = not_ready ∷ map_err f b
map_err f (item (ok fr) ∷ b) = item (ok fr) ∷ map_err f b
map_err f (item (err e) ∷ b) = item (err (f e)) ∷ map_err f b

-- What one call of a stream's `poll_next` leaves: its answer, whether it has called
-- `wake_by_ref`, and the stream.
pub record Polled (A S : Type 0) : Type 0 where
  pub answer : Poll (Option A)
  pub woken : Bool
  pub stream : S
