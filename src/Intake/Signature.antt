-- ===== src/Intake/Signature.antt =====
-- `createSignatureVerifier` of intake/signature.ts. `hmac` is HMAC-SHA-256 of a key and a message.
use whats_app_mcp_server.Base.{
  ℕ, ◌+◌, ◌-◌, ◌*◌, ◌/◌, Bool, false, not, ◌&&◌, ◌||◌, Option, none, some, List, [], ◌∷◌, ◌++◌, leb,
  ◌==◌, if◌then◌else◌, length, all, Text, text, text_eq,
}
use whats_app_mcp_server.Domain.Errors.{
  Result, ok, err, ◌>>=◌, ◌>>◌, require, config_invalid, signature_invalid,
}
use whats_app_mcp_server.Domain.Patterns.{is_digit, is_hex}
use whats_app_mcp_server.Redis.Decimal.{value}
use whats_app_mcp_server.Intake.Payload.{utf8_length}

-- `(0|[1-9]\d*)` of at most `n` digits.
unfoldable pub is_natural : ℕ → Text → Bool
is_natural n [] = false
is_natural n (c ∷ cs) =
    if c == b'0'
    then leb (length cs) 0
    else is_digit c && all is_digit cs && leb (length (c ∷ cs)) n

-- `Buffer.from(s, 'hex')`, of an even number of hexadecimal digits.
abbrev pub nibble : ℕ → ℕ
nibble c = if leb c b'9' then c - 48 else c - 87

unfoldable pub from_hex : Text → List ℕ
from_hex [] = []
from_hex (a ∷ []) = []
from_hex (a ∷ b ∷ cs) = (16 * nibble a + nibble b) ∷ from_hex cs

-- `Math.abs(a - b)`.
abbrev pub distance : ℕ → ℕ → ℕ
distance a b = (a - b) + (b - a)

pub record SignatureHeaders : Type 0 where
  pub timestamp : Option Text
  pub signature : Option Text

-- The secret, as bytes, and the window in seconds, of a verifier that was created.
pub record Verifier : Type 0 where
  pub key : Text
  pub freshness : ℕ

-- A blank character of `trim`.
abbrev pub is_blank : ℕ → Bool
is_blank c =
    leb 9 c && leb c 13
    || c == 32
    || c == 160
    || c == 5760
    || leb 8192 c && leb c 8202
    || c == 8232
    || c == 8233
    || c == 8239
    || c == 8287
    || c == 12288
    || c == 65279

-- `utf8` encodes a text; `freshness` is a safe integer.
unfoldable pub create_verifier : (Text → List ℕ) → Text → ℕ → Result Verifier
create_verifier utf8 secret freshness = do
  require
      (not (all is_blank secret)
        && not (text_eq secret (text "INSECURE_NO_AUTH"))
        && leb 32 (utf8_length false secret)
        && leb 1 freshness
        && leb freshness 3600)
      config_invalid
  ok (record { key = utf8 secret; freshness = freshness })

-- Both headers are there.
abbrev both : SignatureHeaders → Result (Text × Text)
both h = elim h.timestamp [
  | none ↦ err signature_invalid
  | some t ↦ elim h.signature [ none ↦ err signature_invalid | some s ↦ ok (t, s) ]
]

-- `now` is in milliseconds.
unfoldable pub verify :
    (Text → List ℕ → List ℕ) → Verifier → ℕ → List ℕ → SignatureHeaders → Result (Unit {0})
verify hmac v now body h = do
  (t, s) ← both h
  require (is_natural 12 t && length s == 64 && all is_hex s) signature_invalid
  require (leb (distance (now / 1000) (value t)) v.freshness) signature_invalid
  require (text_eq (from_hex s) (hmac v.key (t ++ b'.' ∷ body))) signature_invalid
