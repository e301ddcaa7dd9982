-- ===== src/Reader/Failing.antt =====
-- What a reader makes of a body whose polls may fail.
use navar.Base.{List, [], ◌∷◌, ◌++◌, append_assoc, Result, ok, err, Bytes, ◌≡◌, refl, sym, ap, ◌∙◌}
use navar.Body.{Body, data_frame, trailers_frame, not_ready, item}
use navar.Buf.{Buf}
use navar.Reader.Drive.{items_of}
use navar.Reader.Pieces.{bytes_of, in_one_piece}

-- The bytes of a body between its errors: those before each error, and those after the last.
pub record Runs (E : Type 0) : Type 0 where
  pub failed : List (Bytes × E)
  pub last : Bytes

-- Bytes that come before all of these.
abbrev before : {E : Type 0} → Bytes → List (Bytes × E) → Bytes → Runs E
before bs [] l = record { failed = []; last = bs ++ l }
before bs ((bs', e) ∷ rs) l = record { failed = (bs ++ bs', e) ∷ rs; last = l }

abbrev pub runs : {N E : Type 0} → Buf N → Body N E → Runs E
runs b [] = record { failed = []; last = [] }
runs b (not_ready ∷ body) = runs b body
runs b (item (err e) ∷ body) =
    let rest = runs b body in record { failed = ([], e) ∷ rest.failed; last = rest.last }
runs b (item (ok (trailers_frame h)) ∷ body) = runs b body
runs b (item (ok (data_frame d)) ∷ body) =
    let rest = runs b body in before (b.unread d) rest.failed rest.last

-- The values among items.
abbrev pub values_of : {E A : Type 0} → List (Result E A) → List A
values_of [] = []
values_of (ok a ∷ rs) = a ∷ values_of rs
values_of (err e ∷ rs) = values_of rs

values_of-append :
    {E A : Type 0} (xs ys : List (Result E A)) → values_of (xs ++ ys) ≡ values_of xs ++ values_of ys
values_of-append [] ys = refl
values_of-append (ok a ∷ xs) ys = ap (λ t. a ∷ t) (values_of-append xs ys)
values_of-append (err e ∷ xs) ys = values_of-append xs ys

module _ {G I E : Type 0} (read : G → Bytes → G × List (Result E I)) where
  -- Each run is read on from what is kept of the one before, and its error comes after its items.
  abbrev pub around : G → List (Bytes × E) → Bytes → List (Result E I)
  around g [] l = (read g l).1
  around g ((bs, e) ∷ rs) l = (read g bs).1 ++ (err e ∷ around (read g bs).0 rs l)

  module _ (read-nil : (g : G) → read g [] ≡ (g, []))
      (read-append : (g : G) (xs ys : Bytes)
        → read g (xs ++ ys)
          ≡ ((read (read g xs).0 ys).0, (read g xs).1 ++ (read (read g xs).0 ys).1)) where
    around-before :
        (bs : Bytes) (rs : List (Bytes × E)) (l : Bytes) (g : G)
        → around g (before bs rs l).failed (before bs rs l).last
          ≡ (read g bs).1 ++ around (read g bs).0 rs l
    around-before bs [] l g = rw (read-append g bs l)
    around-before bs ((bs', e) ∷ rs) l g =
        rw (read-append g bs bs') (append_assoc (read g bs).1 (read (read g bs).0 bs').1 _)

    -- How the body is cut between its errors makes no difference.
    pub items_of-runs :
        {N : Type 0} (b : Buf N) (body : Body N E) (g : G)
        → items_of read g (in_one_piece b body) ≡ around g (runs b body).failed (runs b body).last
    unfolding items_of
    items_of-runs b [] g = rw (read-nil g)
    items_of-runs b (not_ready ∷ body) g = items_of-runs b body g
    items_of-runs b (item (err e) ∷ body) g =
        rw (read-nil g) (ap (λ t. err e ∷ t) (items_of-runs b body g))
    items_of-runs b (item (ok (trailers_frame t)) ∷ body) g = items_of-runs b body g
    items_of-runs b (item (ok (data_frame d)) ∷ body) g =
        rw (b.copy_to_bytes-unread d, items_of-runs b body (read g (b.unread d)).0)
          (sym (around-before (b.unread d) (runs b body).failed (runs b body).last g))

    -- The errors take no value away, and add none.
    pub values_of-items_of :
        {N : Type 0} (b : Buf N) (body : Body N E) (g : G)
        → values_of (items_of read g (in_one_piece b body)) ≡ values_of (read g (bytes_of b body)).1
    unfolding items_of
    values_of-items_of b [] g = rw (read-nil g)
    values_of-items_of b (not_ready ∷ body) g = values_of-items_of b body g
    values_of-items_of b (item (err e) ∷ body) g = values_of-items_of b body g
    values_of-items_of b (item (ok (trailers_frame t)) ∷ body) g = values_of-items_of b body g
    values_of-items_of b (item (ok (data_frame d)) ∷ body) g =
        let next = (read g (b.unread d)).0 in
        rw (b.copy_to_bytes-unread d, read-append g (b.unread d) (bytes_of b body))
          (values_of-append (read g (b.unread d)).1 _
            ∙ ap (λ t. values_of (read g (b.unread d)).1 ++ t) (values_of-items_of b body next)
            ∙ sym (values_of-append (read g (b.unread d)).1 _))
