-- ===== src/Buf.antt =====
-- The `Buf` trait of the crate `bytes`: a cursor over bytes that need not lie in one piece. It is not
-- code of this repository, so it is an interface. `unread` is what the cursor has not passed yet; the
-- laws are the trait's documented contract.
use navar.Base.{
  ℕ, ◌<◌, ◌≤◌, ◌≡◌, refl, sym, ap, ◌∙◌, Bytes, ◌++◌, length, drop, take, append-nil, drop-length,
  take-length,
}

pub record Buf (D : Type 0) : Type 0 where
  pub remaining : D → ℕ
  pub chunk : D → Bytes
  pub advance : D → ℕ → D
  pub copy_to_bytes : D → ℕ → Bytes
  pub unread : D → Bytes
  pub remaining-unread : (d : D) → remaining d ≡ length (unread d)
  pub chunk-unread : (d : D) → unread d ≡ chunk d ++ unread (advance d (length (chunk d)))
  pub chunk_ne_nil : (d : D) → 0 < remaining d → 0 < length (chunk d)
  pub advance-unread : (d : D) (n : ℕ) → n ≤ remaining d → unread (advance d n) ≡ drop n (unread d)
  pub copy_to_bytes-unread : (d : D) → copy_to_bytes d (remaining d) ≡ unread d

pub Bytes-chunk : (d : Bytes) → d ≡ d ++ drop (length d) d
Bytes-chunk d = sym (append-nil d) ∙ ap (λ t. d ++ t) (sym (drop-length d))

-- `bytes::Bytes` is one piece.
instance abbrev pub bytes_buf : Buf Bytes
bytes_buf = record {
  remaining = length;
  chunk = λ d. d;
  advance = λ d n. drop n d;
  copy_to_bytes = λ d n. take n d;
  unread = λ d. d;
  remaining-unread = λ d. refl;
  chunk-unread = Bytes-chunk;
  advance-unread = λ d n h. refl;
  chunk_ne_nil = λ d h. h;
  copy_to_bytes-unread = take-length;
}
