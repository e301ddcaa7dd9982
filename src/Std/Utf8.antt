-- ===== src/Std/Utf8.antt =====
-- `String::from_utf8_lossy` and `String::from_utf8`. The decoder takes one byte at a time. A malformed
-- sequence is `none` in its output: one for each maximal part of a sequence, as Rust documents.
pub mod RoundTrip
use navar.Base.{
  ℕ, ◌+◌, ◌-◌, ◌*◌, ◌/◌, ◌%◌, ◌<◌, ◌⊎◌, Bool, ◌&&◌, List, [], ◌∷◌, ◌++◌, map, Option, none, some,
  leb, ltb, ◌==◌, if◌then◌else◌, Bytes, ◌>>=◌,
}

-- A text is the list of its code points.
abbrev pub Text : Type 0
Text = List ℕ

-- `needed` continuation bytes are missing; the next one lies between `lower` and `upper`.
pub record Decoder : Type 0 where
  pub needed : ℕ
  pub point : ℕ
  pub lower : ℕ
  pub upper : ℕ

abbrev pub start : Decoder
start = record { needed = 0; point = 0; lower = 0x80; upper = 0xbf }

abbrev within : ℕ → ℕ → ℕ → Bool
within lo hi b = leb lo b && leb b hi

-- The first byte of a sequence.
pub lead : ℕ → List (Option ℕ) × Decoder
lead b =
    if leb b 0x7f
    then (some b ∷ [], start)
    else if within 0xc2 0xdf b
    then ([], record start { needed = 1; point = b - 0xc0 })
    else if within 0xe0 0xef b
    then (
      [],
      record {
        needed = 2;
        point = b - 0xe0;
        lower = if b == 0xe0 then 0xa0 else 0x80;
        upper = if b == 0xed then 0x9f else 0xbf;
      },
    )
    else if within 0xf0 0xf4 b
    then (
      [],
      record {
        needed = 3;
        point = b - 0xf0;
        lower = if b == 0xf0 then 0x90 else 0x80;
        upper = if b == 0xf4 then 0x8f else 0xbf;
      },
    )
    else (none ∷ [], start)

pub continue : Decoder → ℕ → List (Option ℕ) × Decoder
continue st b =
    let point = st.point * 64 + (b - 0x80) in
    if st.needed == 1
    then (some point ∷ [], start)
    else ([], record { needed = st.needed - 1; point = point; lower = 0x80; upper = 0xbf })

pub step : Decoder → ℕ → List (Option ℕ) × Decoder
unfolding lead continue
step st b =
    if st.needed == 0
    then lead b
    else if within st.lower st.upper b
    then continue st b
    else (none ∷ (lead b).0, (lead b).1)

unfoldable pub decode : Decoder → Bytes → List (Option ℕ)
unfolding step
decode st [] = if st.needed == 0 then [] else none ∷ []
decode st (b ∷ bs) = (step st b).0 ++ decode (step st b).1 bs

abbrev replacement : ℕ
replacement = 0xfffd

or_replacement : Option ℕ → ℕ
or_replacement (some c) = c
or_replacement none = replacement

unfoldable pub from_utf8_lossy : Bytes → Text
unfolding decode or_replacement
from_utf8_lossy bs = map or_replacement (decode start bs)

all_valid : List (Option ℕ) → Option Text
all_valid [] = some []
all_valid (none ∷ cs) = none
all_valid (some c ∷ cs) = do t ← all_valid cs; some (c ∷ t)

unfoldable pub from_utf8 : Bytes → Option Text
unfolding decode all_valid
from_utf8 bs = all_valid (decode start bs)

-- `as_bytes` of a text.
unfoldable pub encode_char : ℕ → Bytes
encode_char c =
    if ltb c 0x80
    then c ∷ []
    else if ltb c 0x800
    then (0xc0 + c / 64) ∷ (0x80 + c % 64) ∷ []
    else if ltb c 0x10000
    then (0xe0 + c / 4096) ∷ (0x80 + c / 64 % 64) ∷ (0x80 + c % 64) ∷ []
    else (0xf0 + c / 262144) ∷ (0x80 + c / 4096 % 64) ∷ (0x80 + c / 64 % 64) ∷ (0x80 + c % 64) ∷ []

unfoldable pub encode : Text → Bytes
unfolding encode_char
encode [] = []
encode (c ∷ cs) = encode_char c ++ encode cs

-- The values of `char`: no surrogates.
abbrev pub IsChar : ℕ → Type 0
IsChar c = (c < 0xd800) ⊎ ((0xdfff < c) × (c < 0x110000))

abbrev pub IsText : Text → Type 0
IsText [] = Unit {0}
IsText (c ∷ cs) = IsChar c × IsText cs
