-- ===== src/Reader/Pieces.antt =====
-- How a body is cut into frames makes no difference to a reader whose `read` can stop anywhere.
use navar.Base.{List, [], ◌∷◌, ◌++◌, Result, ok, err, Bytes, ◌≡◌, refl, length, arith}
use navar.Body.{Body, data_frame, trailers_frame, not_ready, item, map_frame}
use navar.Buf.{Buf}
use navar.Reader.Drive.{items_of}

-- The bytes of all frames of data, one after another.
abbrev pub bytes_of : {N E : Type 0} → Buf N → Body N E → Bytes
bytes_of b [] = []
bytes_of b (not_ready ∷ body) = bytes_of b body
bytes_of b (item (err e) ∷ body) = bytes_of b body
bytes_of b (item (ok (trailers_frame h)) ∷ body) = bytes_of b body
bytes_of b (item (ok (data_frame d)) ∷ body) = b.unread d ++ bytes_of b body

-- No poll of the body fails.
abbrev pub NeverFails : {N E : Type 0} → Body N E → Type 0
NeverFails [] = Unit {0}
NeverFails (not_ready ∷ body) = NeverFails body
NeverFails (item (err e) ∷ body) = ⊥
NeverFails (item (ok frame) ∷ body) = NeverFails body

-- The answers of the body with each frame in one piece, as the readers' `new` makes them.
abbrev pub in_one_piece : {N E : Type 0} → Buf N → Body N E → Body Bytes E
in_one_piece b = map_frame (λ d. b.copy_to_bytes d (b.remaining d))

pub length-in_one_piece :
    {N E : Type 0} (b : Buf N) (body : Body N E) → length (in_one_piece b body) ≡ length body
length-in_one_piece b [] = refl
length-in_one_piece b (x ∷ body) = omega (arith, length-in_one_piece b body)

module _ {G I E : Type 0} (read : G → Bytes → G × List (Result E I))
    (read-nil : (g : G) → read g [] ≡ (g, []))
    (read-append : (g : G) (xs ys : Bytes)
      → read g (xs ++ ys)
        ≡ ((read (read g xs).0 ys).0, (read g xs).1 ++ (read (read g xs).0 ys).1)) where
  pub items_of-bytes_of :
      {N : Type 0} (b : Buf N) (body : Body N E) (g : G)
      → NeverFails body
      → items_of read g (in_one_piece b body) ≡ (read g (bytes_of b body)).1
  unfolding items_of
  items_of-bytes_of b [] g h = rw (read-nil g)
  items_of-bytes_of b (not_ready ∷ body) g h = items_of-bytes_of b body g h
  items_of-bytes_of b (item (err e) ∷ body) g h = absurd h
  items_of-bytes_of b (item (ok (trailers_frame t)) ∷ body) g h = items_of-bytes_of b body g h
  items_of-bytes_of b (item (ok (data_frame d)) ∷ body) g h = rw (
    b.copy_to_bytes-unread d,
    read-append g (b.unread d) (bytes_of b body),
    items_of-bytes_of b body (read g (b.unread d)).0 h,
  )
