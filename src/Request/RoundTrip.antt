-- ===== src/Request/RoundTrip.antt =====
-- The body that `ndjson` builds, read by an `NdjsonStream`.
use navar.Base.{
  ℕ, suc, ◌+◌, ◌<◌, List, [], ◌∷◌, ◌++◌, some, Result, ok, Bytes, map, length, arith, ◌≡◌, refl,
  sym, ap, ◌∙◌, append-nil,
}
use navar.Buf.{bytes_buf}
use navar.Lines.Split.{Cut, cut, join, IsLine, AllLines, cut-join, terminate}
use navar.Ndjson.Stream.{items_in, drive-new_items}
use navar.Ndjson.{new, poll_next}
use navar.Reader.Drive.{drive}
use navar.Reader.Pieces.{bytes_of, NeverFails}
use navar.Request.{Next, wait, arrived, ndjson_body}

-- What serde_json promises of a type: a value is written on one line, and read back from it.
pub record Codec {T E : Type 0} (to_vec : T → Result E Bytes) (from_slice : Bytes → Result E T)
    : Type 0 where
  pub line : T → Bytes
  pub writes : (t : T) → to_vec t ≡ ok (line t)
  pub one_line : (t : T) → IsLine (line t)
  pub reads : (t : T) → from_slice (line t) ≡ ok t

abbrev pub values_of : {T : Type 0} → List (Next T) → List T
values_of [] = []
values_of (wait ∷ ts) = values_of ts
values_of (arrived t ∷ ts) = t ∷ values_of ts

module _ {T E : Type 0} {to_vec : T → Result E Bytes} {from_slice : Bytes → Result E T}
    (c : Codec to_vec from_slice) where
  body-NeverFails : (ts : List (Next T)) → NeverFails (ndjson_body to_vec ts)
  unfolding ndjson_body
  body-NeverFails [] = tt
  body-NeverFails (wait ∷ ts) = body-NeverFails ts
  body-NeverFails (arrived t ∷ ts) = rw (c.writes t) (body-NeverFails ts)

  bytes_of-body :
      (ts : List (Next T))
      → bytes_of bytes_buf (ndjson_body to_vec ts) ≡ join (map c.line (values_of ts))
  unfolding ndjson_body
  bytes_of-body [] = refl
  bytes_of-body (wait ∷ ts) = bytes_of-body ts
  bytes_of-body (arrived t ∷ ts) =
      rw (c.writes t) (ap (λ bs. terminate (c.line t) ++ bs) (bytes_of-body ts))

  length-body : (ts : List (Next T)) → length (ndjson_body to_vec ts) ≡ length ts
  unfolding ndjson_body
  length-body [] = refl
  length-body (wait ∷ ts) = ap suc (length-body ts)
  length-body (arrived t ∷ ts) = ap suc (length-body ts)

  lines-AllLines : (ts : List T) → AllLines (map c.line ts)
  lines-AllLines [] = tt
  lines-AllLines (t ∷ ts) = (c.one_line t, lines-AllLines ts)

  parse-lines : (ts : List T) → map from_slice (map c.line ts) ≡ map ok ts
  parse-lines [] = refl
  parse-lines (t ∷ ts) = rw (c.reads t, parse-lines ts)

  pub length-map_ok : (ts : List T) → length (map {B = Result E T} ok ts) ≡ length ts
  length-map_ok [] = refl
  length-map_ok (t ∷ ts) = ap suc (length-map_ok ts)

  pub items_in-body :
      (ts : List (Next T))
      → items_in from_slice (bytes_of bytes_buf (ndjson_body to_vec ts)) ≡ map ok (values_of ts)
  unfolding cut
  items_in-body ts =
      ap (items_in from_slice)
        (bytes_of-body ts ∙ sym (append-nil (join (map c.line (values_of ts)))))
      ∙ ap (λ (k : Cut). map from_slice k.lines)
          (cut-join (map c.line (values_of ts)) [] (lines-AllLines (values_of ts)))
      ∙ ap (map from_slice) (append-nil (map c.line (values_of ts)))
      ∙ parse-lines (values_of ts)

  -- Where values are written on one line each and read back from it, a stream over the body that
  -- `ndjson` makes of them, polled often enough, gives those values, in order, and ends.
  pub drive-ndjson_body :
      (ts : List (Next T)) (fuel : ℕ)
      → length (values_of ts) + length ts < fuel
      → drive (poll_next from_slice) fuel (new bytes_buf (ndjson_body to_vec ts))
        ≡ some (map ok (values_of ts))
  drive-ndjson_body ts fuel h =
      drive-new_items from_slice bytes_buf (ndjson_body to_vec ts) fuel (body-NeverFails ts)
        (omega (arith, ap length (items_in-body ts), length-map_ok (values_of ts), length-body ts))
      ∙ ap some (items_in-body ts)
