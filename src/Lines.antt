-- ===== src/Lines.antt =====
-- What `SseStream` and `NdjsonStream` share (src/response_helpers/sse.rs and ndjson.rs): the copy of a
-- frame into the buffer, the copy of a line out of the ring's two slices, and the scan for `\n`.
-- The two files have the same code, each with its own handling of a complete line.
pub mod Split
pub mod Slices
pub mod Copy
pub mod Scan
use navar.Base.{
  ℕ, zero, suc, ◌+◌, ◌-◌, Bytes, ◌++◌, Option, none, some, leb, ◌==◌, if◌then◌else◌, length, slice?,
  ◌>>=◌,
}
use navar.Buf.{Buf}
use navar.Std.Deque.{Deque, get}

-- The bytes `start..end` of the ring, from its slices `s1` and `s2`; `none` is a slice out of bounds.
pub extract_line : Bytes → Bytes → ℕ → ℕ → Option Bytes
extract_line s1 s2 start end =
    if leb end (length s1)
    then slice? s1 start end
    else if leb (length s1) start
    then slice? s2 (start - length s1) (end - length s1)
    else do a ← slice? s1 start (length s1); b ← slice? s2 0 (end - length s1); some (a ++ b)

-- `while frame.has_remaining() { push(chunk); frame.advance(chunk.len()) }`. Each round passes at
-- least one byte, so `remaining + 1` rounds are enough; `none` means that they were not.
unfoldable pub read_frame : {D Q : Type 0} → Buf D → (Q → Bytes → Q) → ℕ → Q → D → Option Q
read_frame b push zero q d = none
read_frame b push (suc fuel) q d =
    let rest = read_frame b push fuel (push q (b.chunk d)) (b.advance d (length (b.chunk d))) in
    if b.remaining d == 0 then some q else rest

-- One round of the loop over the positions that the frame filled. The state is the reader's, and the
-- start of the line that is being looked for, `processed`.
pub scan_at : {S : Type 0} → Deque ℕ → (S → Bytes → S) → ℕ → S × ℕ → Option (S × ℕ)
scan_at buffer on_line position (s, processed) = do
  b ← get buffer position
  if b == b'\n'
      then (do
        line ← extract_line buffer.front buffer.back processed position
        some (on_line s line, position + 1))
      else some (s, processed)

-- `rounds` positions, from `position` on.
unfoldable pub scan : {S : Type 0} → Deque ℕ → (S → Bytes → S) → ℕ → ℕ → S × ℕ → Option (S × ℕ)
unfolding scan_at extract_line
scan buffer on_line zero position st = some st
scan buffer on_line (suc rounds) position st = do
  st' ← scan_at buffer on_line position st
  scan buffer on_line rounds (position + 1) st'
