-- ===== src/Domain/Patterns.antt =====
-- The string schemas of domain.ts. `^`, `$` and `\d` read as in JavaScript without flags: the whole
-- text, and the ten digits.
use whats_app_mcp_server.Base.{
  ℕ, Bool, false, ◌&&◌, ◌||◌, [], ◌∷◌, if◌then◌else◌, leb, ◌==◌, length, all, Text, text, text_eq,
}

abbrev pub is_digit : ℕ → Bool
is_digit c = leb b'0' c && leb c b'9'

abbrev pub is_hex : ℕ → Bool
is_hex c = is_digit c || leb b'a' c && leb c b'f'

-- `OpaqueIdSchema`.
unfoldable pub is_opaque_id : Text → Bool
is_opaque_id t = length t == 32 && all is_hex t

-- The text behind the leading digits, and whether there was one.
unfoldable pub behind_digits : Text → Text
behind_digits [] = []
behind_digits (c ∷ cs) = let rest = behind_digits cs in if is_digit c then rest else c ∷ cs

-- `^\d+@suffix$` for one of the suffixes.
unfoldable pub is_jid : Text → (Text → Bool) → Bool
is_jid [] suffix = false
is_jid (c ∷ cs) suffix = is_digit c && suffix (behind_digits cs) && leb (length (c ∷ cs)) 128

abbrev pub group_suffix : Text → Bool
group_suffix t = text_eq t (text "@g.us")

abbrev pub private_suffix : Text → Bool
private_suffix t = text_eq t (text "@s.whatsapp.net") || text_eq t (text "@lid")

abbrev pub participant_suffix : Text → Bool
participant_suffix t =
    private_suffix t
    || text_eq t (text "@bot")
    || text_eq t (text "@hosted")
    || text_eq t (text "@hosted.lid")

-- `GroupJidSchema`, `PrivateJidSchema`, `ParticipantJidSchema`, `ChatJidSchema`.
unfoldable pub is_group_jid : Text → Bool
unfolding is_jid
is_group_jid t = is_jid t group_suffix

unfoldable pub is_private_jid : Text → Bool
unfolding is_jid
is_private_jid t = is_jid t private_suffix

unfoldable pub is_participant_jid : Text → Bool
unfolding is_jid
is_participant_jid t = is_jid t participant_suffix

unfoldable pub is_chat_jid : Text → Bool
unfolding is_group_jid is_private_jid
is_chat_jid t = is_group_jid t || is_private_jid t

-- `Number.MAX_SAFE_INTEGER`.
abbrev pub max_safe : ℕ
max_safe = 9007199254740991

-- `SequenceSchema`.
abbrev pub is_sequence : ℕ → Bool
is_sequence n = leb 1 n && leb n max_safe
