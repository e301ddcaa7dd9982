-- ===== src/Hyper/Choice.antt =====
-- Which protocol a session of hyper speaks.
use navar.Base.{
  ◌≡◌, refl, ap, ap₂, ◌⊎◌, ◌↔◌, inl, inr, Bool, true, false, [], ◌∷◌, Option, none, some, Result,
  ok, err, ◌==◌, ==_iff, Bool-cases,
}
use navar.Hyper.{
  Protocol, auto, http1, http2, h2_name, HyperSender, h1, h2, Hyper, is_alpn_h2, use_h2, shake,
  h1_session, h2_session, handshake,
}
use navar.Std.Text.{text_eq}
use navar.Std.Utf8.{Text}

abbrev pub is_h2 : {S1 S2 : Type 0} → HyperSender S1 S2 → Bool
is_h2 (h1 s) = false
is_h2 (h2 s) = true

text_eq→≡ : (xs ys : Text) → text_eq xs ys ≡ true → xs ≡ ys
unfolding text_eq
text_eq→≡ [] [] h = refl
text_eq→≡ [] (y ∷ ys) h = cc
text_eq→≡ (x ∷ xs) [] h = cc
text_eq→≡ (x ∷ xs) (y ∷ ys) h = elim (Bool-cases (x == y)) [
  | inl e ↦ ap₂ (λ a rest. a ∷ rest) ((==_iff x y).0 e) (text_eq→≡ xs ys (rw e at h))
  | inr e ↦ let no : false ≡ true = rw e at h in cc no
]

use_h2_iff :
    (p : Protocol) (alpn : Option Text)
    → (use_h2 p alpn ≡ true) ↔ ((p ≡ http2) ⊎ ((p ≡ auto) × (alpn ≡ some h2_name)))
unfolding text_eq
use_h2_iff http2 alpn = (λ h. inl refl, λ h. refl)
use_h2_iff http1 alpn = (λ h. cc, λ h. elim h [ inl e ↦ cc | inr (e, f) ↦ cc ])
use_h2_iff auto none = (λ h. cc, λ h. elim h [ inl e ↦ cc | inr (e, f) ↦ cc ])
use_h2_iff auto (some name) = (
  λ h. inr (refl, ap some (text_eq→≡ name h2_name h)),
  λ h. elim h [ inl e ↦ cc | inr (e, f) ↦ ap is_alpn_h2 f ],
)

module _ {W C Io S1 S2 D Q R E : Type 0} (hyper : Hyper W C Io S1 S2 D Q R E) where
  is_h2-h2_session :
      (r : Result E (S2 × D)) (s : HyperSender S1 S2) (d : D)
      → h2_session hyper r ≡ ok (s, d)
      → is_h2 s ≡ true
  unfolding h2_session
  is_h2-h2_session (ok (s₂, x)) s d h = ap is_h2 (let same : s ≡ h2 s₂ = cc in same)
  is_h2-h2_session (err e) s d h = cc

  is_h2-h1_session :
      (r : Result E (S1 × D)) (s : HyperSender S1 S2) (d : D)
      → h1_session hyper r ≡ ok (s, d)
      → is_h2 s ≡ false
  unfolding h1_session
  is_h2-h1_session (ok (s₁, x)) s d h = ap is_h2 (let same : s ≡ h1 s₁ = cc in same)
  is_h2-h1_session (err e) s d h = cc

  pub is_h2-shake :
      (p : Protocol) (io : Io) (s : HyperSender S1 S2) (d : D)
      → shake hyper p (ok io) ≡ ok (s, d)
      → is_h2 s ≡ use_h2 p (hyper.alpn_protocol io)
  unfolding shake
  is_h2-shake p io s d h = elim (Bool-cases (use_h2 p (hyper.alpn_protocol io))) [
    | inl e ↦ rw e (is_h2-h2_session (hyper.http2_handshake io) s d (rw e at h))
    | inr e ↦ rw e (is_h2-h1_session (hyper.http1_handshake io) s d (rw e at h))
  ]

  -- A session that a handshake over the stream `io` gives speaks HTTP/2 exactly when HTTP/2 is forced, or
  -- the protocol is chosen automatically and `h2` was negotiated for the stream.
  pub handshake-is_h2 :
      (p : Protocol) (conn : C) (io : Io) (s : HyperSender S1 S2) (d : D)
      → hyper.open_bidirectional conn ≡ ok io
      → handshake hyper p conn ≡ ok (s, d)
      → (is_h2 s ≡ true) ↔ ((p ≡ http2) ⊎ ((p ≡ auto) × (hyper.alpn_protocol io ≡ some h2_name)))
  unfolding handshake
  handshake-is_h2 p conn io s d opened h =
      rw (is_h2-shake p io s d (rw opened at h)) (use_h2_iff p (hyper.alpn_protocol io))
