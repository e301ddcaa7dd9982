-- ===== src/Std/Text.antt =====
-- The methods of `str` that the readers use: `trim_start`, `trim_end`, `splitn(2, ':')`, `==`.
pub mod Equal
use navar.Base.{
  ℕ, Bool, true, false, ◌&&◌, ◌||◌, [], ◌∷◌, Option, none, some, leb, ◌==◌, if◌then◌else◌, is_empty,
}
use navar.Std.Utf8.{Text}

-- `char::is_whitespace`: the Unicode property White_Space.
unfoldable pub is_whitespace : ℕ → Bool
is_whitespace c =
    leb 9 c && leb c 13
    || c == 0x20
    || c == 0x85
    || c == 0xa0
    || c == 0x1680
    || leb 0x2000 c && leb c 0x200a
    || c == 0x2028
    || c == 0x2029
    || c == 0x202f
    || c == 0x205f
    || c == 0x3000

unfoldable pub trim_start : Text → Text
unfolding is_whitespace
trim_start [] = []
trim_start (c ∷ cs) = if is_whitespace c then trim_start cs else c ∷ cs

unfoldable pub trim_end : Text → Text
unfolding is_whitespace
trim_end [] = []
trim_end (c ∷ cs) =
    let rest = trim_end cs in if is_empty rest && is_whitespace c then [] else c ∷ rest

-- The two parts of `splitn(2, sep)`; the second is there only if `sep` is.
pub record Parts : Type 0 where
  pub first : Text
  pub second : Option Text

unfoldable pub splitn2 : ℕ → Text → Parts
splitn2 sep [] = record { first = []; second = none }
splitn2 sep (c ∷ cs) =
    let rest = splitn2 sep cs in
    if c == sep
    then record { first = []; second = some cs }
    else record { first = c ∷ rest.first; second = rest.second }

unfoldable pub text_eq : Text → Text → Bool
text_eq [] [] = true
text_eq (a ∷ xs) (b ∷ bs) = a == b && text_eq xs bs
text_eq _ _ = false
