-- ===== src/Std/Utf8/RoundTrip.antt =====
-- What is encoded is decoded.
use navar.Base.{
  ℕ, ◌+◌, ◌/◌, ◌%◌, ◌<◌, ◌≤◌, ◌≡◌, refl, ap, ◌∙◌, [], ◌∷◌, ◌++◌, map, some, arith, Bytes, ◌==◌,
  if◌then◌else◌,
}
use native.Mathlib.Decide.{dec_lt}
use navar.Std.Utf8.{
  Decoder, Text, start, step, decode, from_utf8_lossy, from_utf8, or_replacement, all_valid,
  encode_char, encode, IsChar, IsText,
}

decode_one :
    (c : ℕ) (bs : Bytes) → c < 0x80 → decode start (encode_char c ++ bs) ≡ some c ∷ decode start bs
unfolding decode encode_char
decode_one c bs h = ground arith

decode_two :
    (c : ℕ) (bs : Bytes)
    → 0x80 ≤ c
    → c < 0x800
    → decode start (encode_char c ++ bs) ≡ some c ∷ decode start bs
unfolding decode encode_char
decode_two c bs h k = ground arith

decode_three :
    (c : ℕ) (bs : Bytes)
    → 0x800 ≤ c
    → c < 0x10000
    → IsChar c
    → decode start (encode_char c ++ bs) ≡ some c ∷ decode start bs
unfolding decode encode_char
decode_three c bs h k v = ground arith

-- After the first byte of four.
abbrev after_lead : ℕ → Decoder
after_lead c = record {
  needed = 3;
  point = c / 262144;
  lower = if c / 262144 == 0 then 0x90 else 0x80;
  upper = if c / 262144 == 4 then 0x8f else 0xbf;
}

abbrev after_second : ℕ → Decoder
after_second c = record { needed = 2; point = c / 4096; lower = 0x80; upper = 0xbf }

lead_four : (c : ℕ) → c < 0x110000 → step start (0xf0 + c / 262144) ≡ ([], after_lead c)
unfolding step
lead_four c k = ground arith

second_four :
    (c : ℕ)
    → 0x10000 ≤ c
    → c < 0x110000
    → step (after_lead c) (0x80 + c / 4096 % 64) ≡ ([], after_second c)
unfolding step
second_four c h k = ground arith

decode_last_two :
    (c : ℕ) (bs : Bytes)
    → decode (after_second c) ((0x80 + c / 64 % 64) ∷ (0x80 + c % 64) ∷ bs)
      ≡ some c ∷ decode start bs
unfolding decode
decode_last_two c bs = ground arith

encode_four :
    (c : ℕ)
    → 0x10000 ≤ c
    → encode_char c
      ≡ (0xf0 + c / 262144) ∷ (0x80 + c / 4096 % 64) ∷ (0x80 + c / 64 % 64) ∷ (0x80 + c % 64) ∷ []
unfolding encode_char
encode_four c h = ground arith

decode-cons :
    (st : Decoder) (b : ℕ) (bs : Bytes)
    → decode st (b ∷ bs) ≡ (step st b).0 ++ decode (step st b).1 bs
unfolding decode
decode-cons st b bs = refl

decode_four :
    (c : ℕ) (bs : Bytes)
    → 0x10000 ≤ c
    → c < 0x110000
    → decode start (encode_char c ++ bs) ≡ some c ∷ decode start bs
decode_four c bs h k =
    rw
      (
        encode_four c h,
        decode-cons start,
        lead_four c k,
        decode-cons (after_lead c),
        second_four c h k,
      )
      (decode_last_two c bs)

pub decode-encode_char :
    (c : ℕ) (bs : Bytes) → IsChar c → decode start (encode_char c ++ bs) ≡ some c ∷ decode start bs
decode-encode_char c bs h = elim (dec_lt c 0x80) [
  | yes p ↦ decode_one c bs p
  | no p ↦ elim (dec_lt c 0x800) [
    | yes q ↦ decode_two c bs (omega arith) q
    | no q ↦ elim (dec_lt c 0x10000) [
      | yes r ↦ decode_three c bs (omega arith) r h
      | no r ↦ decode_four c bs (omega arith) (omega arith)
    ]
  ]
]

pub decode-encode : (t : Text) → IsText t → decode start (encode t) ≡ map some t
unfolding encode decode
decode-encode [] h = refl
decode-encode (c ∷ cs) h =
    decode-encode_char c (encode cs) h.0 ∙ ap (◌∷◌ (some c)) (decode-encode cs h.1)

lossy_valid : (t : Text) → map or_replacement (map some t) ≡ t
unfolding or_replacement
lossy_valid [] = refl
lossy_valid (c ∷ cs) = ap (◌∷◌ c) (lossy_valid cs)

all_valid_lem : (t : Text) → all_valid (map some t) ≡ some t
unfolding all_valid
all_valid_lem [] = refl
all_valid_lem (c ∷ cs) = rw (all_valid_lem cs)

pub from_utf8_lossy-encode : (t : Text) → IsText t → from_utf8_lossy (encode t) ≡ t
unfolding from_utf8_lossy
from_utf8_lossy-encode t h = ap (map or_replacement) (decode-encode t h) ∙ lossy_valid t

pub from_utf8-encode : (t : Text) → IsText t → from_utf8 (encode t) ≡ some t
unfolding from_utf8
from_utf8-encode t h = ap all_valid (decode-encode t h) ∙ all_valid_lem t
