-- ===== src/Std/Deque/Laws.antt =====
-- The ring buffer seen as the list of its items.
use navar.Base.{
  ℕ, zero, suc, ◌+◌, ◌-◌, ◌<◌, ◌≤◌, ◌≡◌, refl, sym, ap, ◌∙◌, Bool, true, false, inl, inr, ◌⊎◌,
  Option, List, [], ◌∷◌, ◌++◌, append-nil, append_assoc, none, some, arith, Bool-cases, ◌&&◌, ltb,
  leb, ltb→lt, ltb→le, ◌==◌, if◌then◌else◌, drop-append, length, get_elem?, drop, is_empty,
  length-append, foldl, le→leb,
}
use navar.Std.Deque.{
  Deque, contents, len, get, grow, write, push_back, extend, with_capacity, pop_runs, pop_front,
  pop_fronts, drain, room_for, room_for_one, start_over,
}

module _ {ℓ} {A : Type ℓ} where
  pub contents-with_capacity : (n : ℕ) → contents {A = A} (with_capacity n) ≡ []
  unfolding with_capacity
  contents-with_capacity n = refl

  pub len-contents : (d : Deque A) → len d ≡ length (contents d)
  unfolding len
  len-contents d = omega (arith, length-append d.front d.back)

  get_elem?-append_right :
      (xs ys : List A) (i : ℕ)
      → length xs ≤ i
      → get_elem? (xs ++ ys) i ≡ get_elem? ys (i - length xs)
  get_elem?-append_right [] ys i h = ap (get_elem? ys) (omega arith)
  get_elem?-append_right (x ∷ xs) ys zero h = absurd (omega arith)
  get_elem?-append_right (x ∷ xs) ys (suc i) h =
      get_elem?-append_right xs ys i (omega arith) ∙ ap (get_elem? ys) (omega arith)

  get_elem?-append_left :
      (xs ys : List A) (i : ℕ) → i < length xs → get_elem? (xs ++ ys) i ≡ get_elem? xs i
  get_elem?-append_left [] ys i h = absurd (omega arith)
  get_elem?-append_left (x ∷ xs) ys zero h = refl
  get_elem?-append_left (x ∷ xs) ys (suc i) h = get_elem?-append_left xs ys i (omega arith)

  pub get-contents : (d : Deque A) (i : ℕ) → get d i ≡ get_elem? (contents d) i
  unfolding get
  get-contents d i = elim (Bool-cases (ltb i (length d.front))) [
    | inl e ↦ rw e (sym (get_elem?-append_left d.front d.back i (ltb→lt _ _ e)))
    | inr e ↦ rw e (sym (get_elem?-append_right d.front d.back i (ltb→le _ _ e)))
  ]

  is_empty-nil : (xs : List A) → is_empty xs ≡ true → xs ≡ []
  is_empty-nil [] h = refl
  is_empty-nil (x ∷ xs) h = cc

  contents-grow_moved :
      (d : Deque A) (n : ℕ) (t : Bool)
      → contents (
          if t
          then record d { cap = n; front = d.front ++ d.back; back = [] }
          else record d { cap = n; head = n - length d.front })
        ≡ contents d
  contents-grow_moved d n true = append-nil (d.front ++ d.back)
  contents-grow_moved d n false = refl

  contents-grow : (d : Deque A) (n : ℕ) → contents (grow d n) ≡ contents d
  unfolding grow
  contents-grow d n = elim (Bool-cases (is_empty d.back)) [
    | inl e ↦ rw e refl
    | inr e ↦ rw e (
        contents-grow_moved d n
          (ltb (length d.back) (length d.front) && leb (length d.back) (n - d.cap)))
  ]

  contents-grow_if :
      (d : Deque A) (n : ℕ) (t : Bool) → contents (if t then grow d n else d) ≡ contents d
  contents-grow_if d n true = contents-grow d n
  contents-grow_if d n false = refl

  write-cases :
      (d : Deque A) (a : A) (t : Bool)
      → is_empty d.back ≡ true
      → contents (
          if is_empty d.back && t
          then record d { front = d.front ++ a ∷ [] }
          else record d { back = d.back ++ a ∷ [] })
        ≡ contents d ++ a ∷ []
  write-cases d a true e =
      let nil = is_empty-nil d.back e in
      rw e (
        ap (λ t. (d.front ++ a ∷ []) ++ t) nil
        ∙ append-nil _
        ∙ ap (λ t. t ++ a ∷ []) (sym (ap (λ t. d.front ++ t) nil ∙ append-nil d.front)))
  write-cases d a false e = rw e (sym (append_assoc d.front d.back (a ∷ [])))

  contents-write : (d : Deque A) (a : A) → contents (write d a) ≡ contents d ++ a ∷ []
  unfolding write
  contents-write d a = elim (Bool-cases (is_empty d.back)) [
    | inl e ↦ write-cases d a (ltb (d.head + length d.front) d.cap) e
    | inr e ↦ rw e (sym (append_assoc d.front d.back (a ∷ [])))
  ]

  pub contents-push_back : (d : Deque A) (a : A) → contents (push_back d a) ≡ contents d ++ a ∷ []
  unfolding push_back
  contents-push_back d a =
      contents-write (room_for_one d) a
      ∙ ap (λ t. t ++ a ∷ []) (contents-grow_if d _ (len d == d.cap))

  contents-foldl-write :
      (xs : List A) (d : Deque A) → contents (foldl write d xs) ≡ contents d ++ xs
  contents-foldl-write [] d = sym (append-nil (contents d))
  contents-foldl-write (x ∷ xs) d =
      contents-foldl-write xs (write d x)
      ∙ ap (λ t. t ++ xs) (contents-write d x)
      ∙ append_assoc (contents d) (x ∷ []) xs

  pub contents-extend : (d : Deque A) (xs : List A) → contents (extend d xs) ≡ contents d ++ xs
  unfolding extend
  contents-extend d xs =
      contents-foldl-write xs (room_for (length xs) d)
      ∙ ap (λ t. t ++ xs) (contents-grow_if d _ (ltb d.cap (len d + length xs)))

  contents-after_pop :
      (d : Deque A) (xs ys : List A)
      → contents (elim (pop_runs d xs ys) [
        | none ↦ record d { front = xs; back = ys }
        | some (a, d') ↦ d'
      ])
        ≡ drop 1 (xs ++ ys)
  unfolding pop_runs
  contents-after_pop d [] [] = refl
  contents-after_pop d [] (y ∷ ys) = append-nil ys
  contents-after_pop d (x ∷ []) ys = append-nil ys
  contents-after_pop d (x ∷ x' ∷ xs) ys = refl

  drop-drop_one : (n : ℕ) (xs : List A) → drop n (drop 1 xs) ≡ drop (suc n) xs
  drop-drop_one zero [] = refl
  drop-drop_one (suc n) [] = refl
  drop-drop_one n (x ∷ xs) = refl

  pub contents-pop_fronts : (n : ℕ) (d : Deque A) → contents (pop_fronts n d) ≡ drop n (contents d)
  unfolding pop_fronts
  contents-pop_fronts zero d = refl
  contents-pop_fronts (suc n) d =
      contents-pop_fronts n _
      ∙ ap (drop n) (contents-after_pop d d.front d.back)
      ∙ drop-drop_one n (contents d)

  contents-start_over : (t : Bool) (d : Deque A) → contents (start_over t d) ≡ contents d
  unfolding start_over
  contents-start_over true d = refl
  contents-start_over false d = refl

  -- `drain` does not panic on a prefix, and leaves the rest.
  pub drain-append :
      (d : Deque A) (xs ys : List A)
      → contents d ≡ xs ++ ys
      → (d' : Deque A) × (drain (length xs) d ≡ some d') × (contents d' ≡ ys)
  unfolding drain
  drain-append d xs ys e = (
    start_over (len (pop_fronts (length xs) d) == 0) (pop_fronts (length xs) d),
    rw (
        le→leb (length xs) (len d)
          (omega (arith, len-contents d, ap length e, length-append xs ys))),
    contents-start_over _ (pop_fronts (length xs) d)
        ∙ contents-pop_fronts (length xs) d
        ∙ ap (drop (length xs)) e
        ∙ drop-append xs ys,
  )

  abbrev pub Pops : List A → Option (A × Deque A) → Type ℓ
  Pops xs r =
      ((xs ≡ []) × (r ≡ none))
      ⊎ ((a : A) × (d' : Deque A) × (xs ≡ a ∷ contents d') × (r ≡ some (a, d')))

  pop_runs-Pops : (d : Deque A) (xs ys : List A) → Pops (xs ++ ys) (pop_runs d xs ys)
  unfolding pop_runs
  pop_runs-Pops d [] [] = inl (refl, refl)
  pop_runs-Pops d [] (y ∷ ys) = inr (y, _, ap (◌∷◌ y) (sym (append-nil ys)), refl)
  pop_runs-Pops d (x ∷ []) ys = inr (x, _, ap (◌∷◌ x) (sym (append-nil ys)), refl)
  pop_runs-Pops d (x ∷ x' ∷ xs) ys = inr (x, _, refl, refl)

  -- `pop_front` fails on the empty ring only, and otherwise takes the oldest item off.
  pub pop_front-Pops : (d : Deque A) → Pops (contents d) (pop_front d)
  unfolding pop_front
  pop_front-Pops d = pop_runs-Pops d d.front d.back
