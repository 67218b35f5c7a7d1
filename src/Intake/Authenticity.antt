-- ===== src/Intake/Authenticity.antt =====
-- intake/signature.ts: exactly the fresh bodies that carry the digest of the shared secret pass.
use whats_app_mcp_server.Base.{
  ℕ, ◌/◌, ◌≤◌, ◌≡◌, ◌↔◌, ◌⊎◌, inl, inr, true, none, some, List, [], ◌∷◌, ◌++◌, length, all, Text,
  text_eq_iff, arith, ap, ◌∙◌, sym, Option-cases,
}
use whats_app_mcp_server.Domain.Errors.{ok}
use whats_app_mcp_server.Domain.Patterns.{is_digit, is_hex}
use whats_app_mcp_server.Redis.Decimal.{value, IsNumeral, IsDigits}
use whats_app_mcp_server.Intake.Signature.{
  from_hex, is_natural, distance, SignatureHeaders, Verifier, verify,
}
use whats_app_mcp_server.Intake.Hex.{to_hex, IsBytes, to_hex-from_hex, from_hex-to_hex}

IsDigits-iff : (t : Text) → (all is_digit t ≡ true) ↔ IsDigits t
IsDigits-iff [] = ground arith
IsDigits-iff (c ∷ cs) = ground (arith, IsDigits-iff cs)

is_natural_iff : (t : Text) → (is_natural 12 t ≡ true) ↔ (IsNumeral t × (length t ≤ 12))
unfolding is_natural
is_natural_iff [] = ground arith
is_natural_iff (c ∷ []) = ground arith
is_natural_iff (c ∷ d ∷ cs) = ground (arith, IsDigits-iff (d ∷ cs))

module _ (hmac : Text → List ℕ → List ℕ) (v : Verifier) (now : ℕ) (body : List ℕ) where
  -- The digest that the bridge would have sent at the time `t`.
  abbrev pub digest_at : Text → List ℕ
  digest_at t = hmac v.key (t ++ b'.' ∷ body)

  verify_headers :
      (h : SignatureHeaders) (t s : Text)
      → h.timestamp ≡ some t
      → h.signature ≡ some s
      → (verify hmac v now body h ≡ ok tt) ↔ (
          (is_natural 12 t ≡ true)
          × (length s ≡ 64)
          × (all is_hex s ≡ true)
          × (distance (now / 1000) (value t) ≤ v.freshness)
          × (from_hex s ≡ digest_at t))
  unfolding verify
  verify_headers h t s e f = ground (arith, text_eq_iff (from_hex s) (digest_at t))

  verify_missing :
      (h : SignatureHeaders)
      → (h.timestamp ≡ none) ⊎ (h.signature ≡ none)
      → verify hmac v now body h ≡ ok tt
      → ⊥
  unfolding verify
  verify_missing h e r = ground arith

  -- What an authentic request carries: its time, as a numeral of at most twelve digits within the
  -- window of the server's clock, and the digest of that time and the body, in hexadecimal.
  abbrev pub IsAuthentic : SignatureHeaders → Type 0
  IsAuthentic h =
      (t : Text) × (h.timestamp ≡ some t)
      × IsNumeral t
      × (length t ≤ 12)
      × (distance (now / 1000) (value t) ≤ v.freshness)
      × (h.signature ≡ some (to_hex (digest_at t)))

  sound :
      (h : SignatureHeaders) (t s : Text)
      → ((m : List ℕ) → IsBytes (hmac v.key m) × (length (hmac v.key m) ≡ 32))
      → h.timestamp ≡ some t
      → h.signature ≡ some s
      → verify hmac v now body h ≡ ok tt
      → IsAuthentic h
  sound h t s d e f r =
      let (natural, size, hex, fresh, same) = (verify_headers h t s e f).0 r in
      let (numeral, short) = (is_natural_iff t).0 natural in
      (
        t,
        e,
        numeral,
        short,
        fresh,
        f ∙ ap some (sym (to_hex-from_hex s 32 hex size) ∙ ap to_hex same),
      )

  -- Where the digests are of 32 bytes, as those of HMAC-SHA-256 are, a request passes exactly if its
  -- timestamp is a numeral of at most twelve digits within the window around the clock's second,
  -- and its signature is the hexadecimal digest of timestamp, dot and body under the secret.
  pub verify_iff :
      (h : SignatureHeaders)
      → ((m : List ℕ) → IsBytes (hmac v.key m) × (length (hmac v.key m) ≡ 32))
      → (verify hmac v now body h ≡ ok tt) ↔ IsAuthentic h
  verify_iff h d = (
    λ r. passed r,
    λ (t, e, numeral, short, fresh, f).
        let (inverse, hex, size) = from_hex-to_hex (digest_at t) (d _).0 in
        (verify_headers h t _ e f).1 (
          (is_natural_iff t).1 (numeral, short),
          omega (arith, size, d (t ++ b'.' ∷ body)),
          hex,
          fresh,
          inverse,
        ),
  )
    where
      passed : verify hmac v now body h ≡ ok tt → IsAuthentic h
      passed r = elim (Option-cases h.timestamp) [
        | inl e ↦ absurd (verify_missing h (inl e) r)
        | inr (t, e) ↦ elim (Option-cases h.signature) [
          | inl f ↦ absurd (verify_missing h (inr f) r)
          | inr (s, f) ↦ sound h t s d e f r
        ]
      ]
