-- ===== src/Lines/Split.antt =====
-- The reference: bytes cut at `\n`, with a line begun earlier in front.
use navar.Base.{
  ℕ, false, ◌≡◌, refl, sym, ap, ◌∙◌, List, [], ◌∷◌, ◌++◌, append_assoc, Bytes, ◌==◌, ==_iff,
  if◌then◌else◌, Bool-cases, inl, inr, arith, append-nil,
}

pub record Cut : Type 0 where
  pub lines : List Bytes
  pub left : Bytes

-- `begun` is the start of the first line.
unfoldable pub cut : Bytes → Bytes → Cut
cut begun [] = record { lines = []; left = begun }
cut begun (b ∷ bs) =
    let more = cut (begun ++ b ∷ []) bs in
    let next = cut [] bs in
    if b == b'\n' then record { lines = begun ∷ next.lines; left = next.left } else more

-- Cutting can stop anywhere and go on from what is left.
pub cut-append :
    (xs ys begun : Bytes)
    → cut begun (xs ++ ys) ≡ record {
      lines = (cut begun xs).lines ++ (cut (cut begun xs).left ys).lines;
      left = (cut (cut begun xs).left ys).left;
    }
unfolding cut
cut-append [] ys begun = refl
cut-append (x ∷ xs) ys begun =
    ground (arith, cut-append xs ys (begun ++ x ∷ []), cut-append xs ys [])

abbrev pub terminate : Bytes → Bytes
terminate line = line ++ b'\n' ∷ []

abbrev pub join : List Bytes → Bytes
join [] = []
join (l ∷ ls) = terminate l ++ join ls

-- Nothing is lost or made up.
pub join-cut : (bs begun : Bytes) → join (cut begun bs).lines ++ (cut begun bs).left ≡ begun ++ bs
unfolding cut
join-cut [] begun = sym (append-nil begun)
join-cut (b ∷ bs) begun = elim (Bool-cases (b == b'\n')) [
  | inl e ↦ rw e (
      append_assoc (terminate begun) (join (cut [] bs).lines) (cut [] bs).left
      ∙ ap (λ t. terminate begun ++ t) (join-cut bs [])
      ∙ append_assoc begun (b'\n' ∷ []) bs
      ∙ ap (λ t. begun ++ t ∷ bs) (sym ((==_iff b b'\n').0 e)))
  | inr e ↦ rw e (join-cut bs (begun ++ b ∷ []) ∙ append_assoc begun (b ∷ []) bs)
]

-- No newline in it.
abbrev pub IsLine : Bytes → Type 0
IsLine [] = Unit {0}
IsLine (b ∷ bs) = ((b == b'\n') ≡ false) × IsLine bs

abbrev pub AllLines : List Bytes → Type 0
AllLines [] = Unit {0}
AllLines (l ∷ ls) = IsLine l × AllLines ls

pub IsLine-snoc : (l : Bytes) (b : ℕ) → IsLine l → (b == b'\n') ≡ false → IsLine (l ++ b ∷ [])
IsLine-snoc [] b h e = (e, tt)
IsLine-snoc (x ∷ l) b h e = (h.0, IsLine-snoc l b h.1 e)

pub cut-IsLine :
    (bs begun : Bytes) → IsLine begun → AllLines (cut begun bs).lines × IsLine (cut begun bs).left
unfolding cut
cut-IsLine [] begun h = (tt, h)
cut-IsLine (b ∷ bs) begun h =
    ground (arith, cut-IsLine bs [] tt, cut-IsLine bs (begun ++ b ∷ []), IsLine-snoc begun b h)

-- A terminated line comes out whole.
pub cut-terminate :
    (l begun bs : Bytes)
    → IsLine l
    → cut begun (terminate l ++ bs)
      ≡ record { lines = (begun ++ l) ∷ (cut [] bs).lines; left = (cut [] bs).left }
unfolding cut
cut-terminate [] begun bs h = rw append-nil
cut-terminate (x ∷ l) begun bs h = rw h.0 (
    cut-terminate l (begun ++ x ∷ []) bs h.1
    ∙ ap (λ t. record { lines = t ∷ (cut [] bs).lines; left = (cut [] bs).left })
        (append_assoc begun (x ∷ []) l))

-- Lines that are joined are cut again.
pub cut-join :
    (ls : List Bytes) (rest : Bytes)
    → AllLines ls
    → cut [] (join ls ++ rest)
      ≡ record { lines = ls ++ (cut [] rest).lines; left = (cut [] rest).left }
cut-join [] rest h = refl
cut-join (l ∷ ls) rest h =
    ap (cut []) (append_assoc (terminate l) (join ls) rest)
    ∙ cut-terminate l [] (join ls ++ rest) h.0
    ∙ ap (λ (c : Cut). record { lines = l ∷ c.lines; left = c.left }) (cut-join ls rest h.1)
