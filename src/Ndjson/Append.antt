-- ===== src/Ndjson/Append.antt =====
-- `append_frame` parses the reference's lines, whatever the pieces of the frame and the ring's layout.
use navar.Base.{
  ℕ, ◌+◌, ◌-◌, ◌≡◌, refl, sym, ap, ◌∙◌, List, [], ◌∷◌, ◌++◌, append-nil, append_assoc, Option, some,
  arith, Bytes, Result, length, length-append, map, foldl, ◌>>=◌,
}
use navar.Buf.{Buf}
use navar.Lines.Copy.{read_frame_lem}
use navar.Lines.Scan.{Scanned, scan_lem}
use navar.Lines.Split.{cut}
use navar.Lines.{scan}
use navar.Ndjson.{NdjsonStream, take_line, append_frame}
use navar.Std.Deque.Laws.{contents-push_back, contents-extend, len-contents, drain-append}
use navar.Std.Deque.{Deque, contents, len, extend, drain}

module _ {T E : Type 0} (from_slice : Bytes → Result E T) where
  -- The reference: the line begun, the items of the complete lines behind those of the queue.
  pub record After (s : NdjsonStream T E) (bs : Bytes) (r : Option (NdjsonStream T E))
      : Type 0 where
    pub stream : NdjsonStream T E
    pub result : r ≡ some stream
    pub left : contents stream.buffer ≡ (cut (contents s.buffer) bs).left
    pub items :
        contents stream.queue
        ≡ contents s.queue ++ map from_slice (cut (contents s.buffer) bs).lines
    pub same_body : stream.body ≡ s.body

  record Taken (s : NdjsonStream T E) (lines : List Bytes) (s' : NdjsonStream T E) : Type 0 where
    items : contents s'.queue ≡ contents s.queue ++ map from_slice lines
    same_buffer : s'.buffer ≡ s.buffer
    same_body : s'.body ≡ s.body

  foldl-take_line :
      (lines : List Bytes) (s : NdjsonStream T E)
      → Taken s lines (foldl (take_line from_slice) s lines)
  unfolding take_line
  foldl-take_line [] s = record {
    items = sym (append-nil (contents s.queue));
    same_buffer = refl;
    same_body = refl;
  }
  foldl-take_line (l ∷ ls) s =
      let s' : NdjsonStream T E = take_line from_slice s l in
      let later = foldl-take_line ls s' in
      record {
        items =
            later.items
            ∙ ap (λ q. q ++ map from_slice ls) (contents-push_back s.queue (from_slice l))
            ∙ append_assoc (contents s.queue) (from_slice l ∷ []) (map from_slice ls);
        same_buffer = later.same_buffer;
        same_body = later.same_body;
      }

  drop_passed-After :
      (s : NdjsonStream T E) (q : Deque ℕ) (bs : Bytes) {r : Option (NdjsonStream T E × ℕ)}
      → contents q ≡ contents s.buffer ++ bs
      → Scanned q (take_line from_slice) [] (contents s.buffer) bs (record s { buffer = q }) r
      → After s bs (
          r >>= λ (s', processed).
          drain processed s'.buffer >>= λ rest. some (record s' { buffer = rest }))
  drop_passed-After s q bs e scanned =
      let lines = (cut (contents s.buffer) bs).lines in
      let s₁ : NdjsonStream T E = foldl (take_line from_slice) (record s { buffer = q }) lines in
      let taken = foldl-take_line lines (record s { buffer = q }) in
      let (rest, drained, left) =
        drain-append s₁.buffer scanned.passed (cut (contents s.buffer) bs).left
          (ap contents taken.same_buffer ∙ e ∙ scanned.splits) in
      record {
        stream = record s₁ { buffer = rest };
        result = rw (scanned.result, drained);
        left = left;
        items = taken.items;
        same_body = taken.same_body;
      }

  after_fill : NdjsonStream T E → Deque ℕ → Option (NdjsonStream T E)
  after_fill s q =
      scan q (take_line from_slice) (len q - len s.buffer) (len s.buffer)
        (record s { buffer = q }, 0)
      >>= λ (s', processed).
          drain processed s'.buffer >>= λ rest. some (record s' { buffer = rest })

  after_fill-After :
      (s : NdjsonStream T E) (q : Deque ℕ) (bs : Bytes)
      → contents q ≡ contents s.buffer ++ bs
      → After s bs (after_fill s q)
  unfolding after_fill
  after_fill-After s q bs e =
      let rounds : len q - len s.buffer ≡ length bs = omega (
        arith,
        len-contents q,
        len-contents s.buffer,
        ap length e,
        length-append (contents s.buffer) bs,
      ) in
      rw rounds (
        drop_passed-After s q bs e (
          scan_lem q (take_line from_slice) bs [] (contents s.buffer) (record s { buffer = q })
            (len s.buffer) 0 e (omega (arith, len-contents s.buffer)) refl))

  -- `append_frame` returns: no index is out of bounds, and the copy loop ends. It leaves the bytes after
  -- the last newline, and one item for each newline-terminated line, in order.
  pub append_frame-After :
      {D : Type 0} (b : Buf D) (s : NdjsonStream T E) (frame : D)
      → After s (b.unread frame) (append_frame from_slice b s frame)
  unfolding append_frame
  append_frame-After b s frame =
      let (q, filled, grown) =
        read_frame_lem b extend contents contents-extend (b.remaining frame + 1) s.buffer frame
          (omega arith) in
      rw filled (unfold after_fill in after_fill-After s q (b.unread frame) grown)
