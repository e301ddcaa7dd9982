-- ===== src/Sse/Append.antt =====
-- `append_frame` does what the reference says, whatever the pieces of the frame and the ring's layout.
use navar.Base.{
  ℕ, ◌+◌, ◌-◌, ◌≡◌, refl, sym, ap, ap₂, ◌∙◌, inl, inr, List, [], ◌∷◌, ◌++◌, append-nil,
  append_assoc, Option, some, arith, Bytes, is_empty, length, length-append, drop, drop-append,
  foldl, ◌>>=◌, Bool-cases,
}
use navar.Buf.{Buf}
use navar.Lines.Copy.{read_frame_lem}
use navar.Lines.Scan.{Scanned, scan_lem}
use navar.Lines.Split.{cut}
use navar.Lines.{scan}
use navar.Sse.View.{feed, read_line, view, events_of, events_of-process_line, kept_by_field}
use navar.Sse.{SseStream, process_line, take_line, append_frame}
use navar.Std.Deque.Laws.{contents-push_back, len-contents, contents-pop_fronts}
use navar.Std.Deque.{Deque, contents, len, push_back, pop_fronts}
use navar.Std.Utf8.{Text}

contents-foldl-push_back :
    (q : Deque ℕ) (xs : Bytes) → contents (foldl push_back q xs) ≡ contents q ++ xs
contents-foldl-push_back q [] = sym (append-nil (contents q))
contents-foldl-push_back q (x ∷ xs) =
    contents-foldl-push_back (push_back q x) xs
    ∙ ap (λ t. t ++ xs) (contents-push_back q x)
    ∙ append_assoc (contents q) (x ∷ []) xs

module _ {E : Type 0} where
  -- What stays while lines are read.
  abbrev Keeps : SseStream E → SseStream E → Type 0
  Keeps s s' = (s'.buffer ≡ s.buffer) × (s'.body ≡ s.body)

  process_line-Keeps : (s : SseStream E) (line : Text) → Keeps s (process_line s line)
  unfolding process_line
  process_line-Keeps s line = elim (Bool-cases (is_empty line)) [
    | inl e ↦ rw e (refl, refl)
    | inr e ↦ rw e (kept_by_field s _ _)
  ]

  take_line-Keeps : (s : SseStream E) (line : Bytes) → Keeps s (take_line s line)
  unfolding take_line
  take_line-Keeps s line = process_line-Keeps (record s { line_buf = [] }) _

  events_of-take_line :
      (s : SseStream E) (line : Bytes) → events_of (take_line s line) ≡ read_line (events_of s) line
  unfolding take_line
  events_of-take_line s line = events_of-process_line (record s { line_buf = [] }) _

  foldl-take_line-Keeps : (lines : List Bytes) (s : SseStream E) → Keeps s (foldl take_line s lines)
  foldl-take_line-Keeps [] s = (refl, refl)
  foldl-take_line-Keeps (l ∷ ls) s =
      let now = take_line-Keeps s l in
      let later = foldl-take_line-Keeps ls (take_line s l) in (later.0 ∙ now.0, later.1 ∙ now.1)

  events_of-foldl-take_line :
      (lines : List Bytes) (s : SseStream E)
      → events_of (foldl take_line s lines) ≡ foldl read_line (events_of s) lines
  events_of-foldl-take_line [] s = refl
  events_of-foldl-take_line (l ∷ ls) s =
      events_of-foldl-take_line ls (take_line s l)
      ∙ ap (λ v. foldl read_line v ls) (events_of-take_line s l)

  -- The scan of the filled buffer, and the removal of the lines that it passed.
  after_fill : (s : SseStream E) (q : Deque ℕ) → Option (SseStream E)
  after_fill s q = do
    (s', processed) ←
        scan q take_line (len q - len s.buffer) (len s.buffer) (record s { buffer = q }, 0)
    some (record s' { buffer = pop_fronts processed s'.buffer })

  abbrev Fed : SseStream E → Bytes → Option (SseStream E) → Type 0
  Fed s bs r =
      (s' : SseStream E) × (r ≡ some s') × (view s' ≡ feed (view s) bs) × (s'.body ≡ s.body)

  drop_passed-Fed :
      (s : SseStream E) (q : Deque ℕ) (bs : Bytes) {r : Option (SseStream E × ℕ)}
      → contents q ≡ contents s.buffer ++ bs
      → Scanned q take_line [] (contents s.buffer) bs (record s { buffer = q }) r
      → Fed s bs
          (r >>= λ (s', processed). some (record s' { buffer = pop_fronts processed s'.buffer }))
  unfolding feed
  drop_passed-Fed s q bs e scanned =
      let lines = (cut (contents s.buffer) bs).lines in
      let s₁ : SseStream E = foldl take_line (record s { buffer = q }) lines in
      let keeps = foldl-take_line-Keeps lines (record s { buffer = q }) in
      let passed = length scanned.passed in
      (
        record s₁ { buffer = pop_fronts passed s₁.buffer },
        rw scanned.result,
        ap₂ (λ l v. record { left = l; events = v })
            (contents-pop_fronts passed s₁.buffer
              ∙ ap (λ t. drop passed (contents t)) keeps.0
              ∙ ap (drop passed) (e ∙ scanned.splits)
              ∙ drop-append scanned.passed (cut (contents s.buffer) bs).left)
            (events_of-foldl-take_line lines (record s { buffer = q })),
        keeps.1,
      )

  after_fill-Fed :
      (s : SseStream E) (q : Deque ℕ) (bs : Bytes)
      → contents q ≡ contents s.buffer ++ bs
      → Fed s bs (after_fill s q)
  unfolding after_fill
  after_fill-Fed s q bs e =
      let rounds : len q - len s.buffer ≡ length bs = omega (
        arith,
        len-contents q,
        len-contents s.buffer,
        ap length e,
        length-append (contents s.buffer) bs,
      ) in
      rw rounds (
        drop_passed-Fed s q bs e (
          scan_lem q take_line bs [] (contents s.buffer) (record s { buffer = q }) (len s.buffer) 0
            e (omega (arith, len-contents s.buffer)) refl))

  -- `append_frame` returns: no index is out of bounds, and the copy loop ends. What it leaves is the
  -- reference's view after the unread bytes of the frame, with the body untouched.
  pub append_frame-feed :
      {D : Type 0} (b : Buf D) (s : SseStream E) (frame : D)
      → (s' : SseStream E) × (append_frame b s frame ≡ some s')
        × (view s' ≡ feed (view s) (b.unread frame))
        × (s'.body ≡ s.body)
  unfolding append_frame
  append_frame-feed b s frame =
      let (q, filled, grown) =
        read_frame_lem b (foldl push_back) contents contents-foldl-push_back (b.remaining frame + 1)
          s.buffer frame (omega arith) in
      rw filled (unfold after_fill in after_fill-Fed s q (b.unread frame) grown)
