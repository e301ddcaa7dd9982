-- ===== src/Normalize.antt =====
-- The change of a body of any buffers and errors into a `NormalizedBody`, which `Client::send` (src/lib.rs),
-- `BaseService::handle` (src/base_service.rs) and `convert_body` (navar-hyper/src/lib.rs) make:
-- `body.map_frame(|frame| frame.map_data(|data| Box::new(data))).map_err(|err| err.into()).boxed()`.
use navar.Base.{suc, length, List, [], ◌∷◌, ◌++◌, ok, err, Bytes, ◌≡◌, refl, ap, ◌∙◌}
use navar.Body.{Body, not_ready, item, data_frame, trailers_frame, map_frame, map_err}
use navar.Buf.{Buf}
use navar.Reader.Pieces.{bytes_of, NeverFails}

-- `NormalizedData` is a box of any buffer: putting a buffer in leaves what is unread.
pub record Boxes {D N : Type 0} (b : Buf D) (n : Buf N) : Type 0 where
  pub box : D → N
  pub unread-box : (d : D) → n.unread (box d) ≡ b.unread d

module _ {D N E E' : Type 0} {b : Buf D} {n : Buf N} (boxes : Boxes b n) (into : E → E') where
  unfoldable pub normalize : Body D E → Body N E'
  normalize body = map_err into (map_frame boxes.box body)

  -- The answers correspond one by one: each frame of data has the same bytes, each error is converted,
  -- trailers and polls that were not ready stay.
  pub data Same : Body D E → Body N E' → Type 0 where
    end : Same [] []
    waits : {x : Body D E} {y : Body N E'} → Same x y → Same (not_ready ∷ x) (not_ready ∷ y)
    fails :
        {x : Body D E} {y : Body N E'} (e : E)
        → Same x y
        → Same (item (err e) ∷ x) (item (err (into e)) ∷ y)
    trails :
        {x : Body D E} {y : Body N E'} (h : List (Bytes × Bytes))
        → Same x y
        → Same (item (ok (trailers_frame h)) ∷ x) (item (ok (trailers_frame h)) ∷ y)
    brings :
        {x : Body D E} {y : Body N E'} (d : D) (d' : N)
        → n.unread d' ≡ b.unread d
        → Same x y
        → Same (item (ok (data_frame d)) ∷ x) (item (ok (data_frame d')) ∷ y)

  -- A normalised body gives, poll for poll, what the body gives: each frame of data with the same bytes,
  -- each error converted, trailers and polls that are not ready as they are.
  pub normalize-Same : (body : Body D E) → Same body (normalize body)
  unfolding normalize
  normalize-Same [] = end
  normalize-Same (not_ready ∷ body) = waits (normalize-Same body)
  normalize-Same (item (err e) ∷ body) = fails e (normalize-Same body)
  normalize-Same (item (ok (trailers_frame h)) ∷ body) = trails h (normalize-Same body)
  normalize-Same (item (ok (data_frame d)) ∷ body) =
      brings d (boxes.box d) (boxes.unread-box d) (normalize-Same body)

  pub normalize-nil : normalize [] ≡ []
  unfolding normalize
  normalize-nil = refl

  -- No byte is lost or moved.
  pub bytes_of-normalize : (body : Body D E) → bytes_of n (normalize body) ≡ bytes_of b body
  unfolding normalize
  bytes_of-normalize [] = refl
  bytes_of-normalize (not_ready ∷ body) = bytes_of-normalize body
  bytes_of-normalize (item (err e) ∷ body) = bytes_of-normalize body
  bytes_of-normalize (item (ok (trailers_frame h)) ∷ body) = bytes_of-normalize body
  bytes_of-normalize (item (ok (data_frame d)) ∷ body) =
      ap (λ t. t ++ bytes_of n (normalize body)) (boxes.unread-box d)
      ∙ ap (λ t. b.unread d ++ t) (bytes_of-normalize body)

  pub NeverFails-normalize : (body : Body D E) → NeverFails body → NeverFails (normalize body)
  unfolding normalize
  NeverFails-normalize [] h = tt
  NeverFails-normalize (not_ready ∷ body) h = NeverFails-normalize body h
  NeverFails-normalize (item (err e) ∷ body) h = absurd h
  NeverFails-normalize (item (ok (trailers_frame t)) ∷ body) h = NeverFails-normalize body h
  NeverFails-normalize (item (ok (data_frame d)) ∷ body) h = NeverFails-normalize body h

  pub length-normalize : (body : Body D E) → length (normalize body) ≡ length body
  unfolding normalize
  length-normalize [] = refl
  length-normalize (not_ready ∷ body) = ap suc (length-normalize body)
  length-normalize (item (err e) ∷ body) = ap suc (length-normalize body)
  length-normalize (item (ok (trailers_frame t)) ∷ body) = ap suc (length-normalize body)
  length-normalize (item (ok (data_frame d)) ∷ body) = ap suc (length-normalize body)
