-- ===== src/Session/Log.antt =====
-- The entries of a session file, as pi/completion-index.ts and compaction/orphan-recovery.ts check
-- them: the header line, the tree of entries and the shape of each kind.
use whats_app_mcp_server.Base.{
  ℕ, Bool, true, false, not, ◌&&◌, ◌||◌, Option, none, some, List, [], ◌∷◌, if◌then◌else◌, leb, ltb,
  is_some, is_empty, Text, text, text_eq, holds, ◌==◌,
}
use whats_app_mcp_server.Json.{
  whole, Json, number, Members, ◌>>=◌, ◌>>◌, guard, at, as_object, as_text, is_text, is_number,
  is_finite, is_array, is_boolean, is_null, is_composite,
}
use whats_app_mcp_server.Intake.Payload.{includes}
use whats_app_mcp_server.Intake.Timestamp.{Stamp, scan, days_of, is_leap}

-- What the language gives: `JSON.parse` (none throws), and `Date.parse` in milliseconds from the
-- earliest time that JavaScript has (none is NaN).
pub record Language : Type 0 where
  pub parse : Text → Option Json
  pub parse_date : Text → Option ℕ

unfoldable pub ranged : Stamp → Bool
ranged s =
    leb 1 s.month
    && leb s.month 12
    && leb 1 s.day
    && leb s.day (days_of (is_leap s.year) s.month)
    && ltb s.hour 24
    && ltb s.minute 60
    && ltb s.second 60

-- `validTime`.
unfoldable pub valid_time : Language → Option Json → Bool
valid_time l v = elim (as_text v) [
  | none ↦ false
  | some t ↦ elim (scan t) [ none ↦ false | some s ↦ is_some (l.parse_date t) && ranged s ]
]

abbrev pub types : List Text
types =
    text "message"
    ∷ text "model_change"
    ∷ text "thinking_level_change"
    ∷ text "compaction"
    ∷ text "context_edit"
    ∷ text "branch_summary"
    ∷ text "custom"
    ∷ text "custom_message"
    ∷ text "label"
    ∷ text "session_info"
    ∷ text "usage"
    ∷ []

-- `v === n`.
abbrev pub is_whole : Option Json → ℕ → Bool
is_whole (some (number (whole m))) n = m == n
is_whole _ n = false

-- The first line.
unfoldable pub is_header : Language → Text → Members → Bool
is_header l id e =
    holds (as_text (at (text "type") e)) (text "session")
    && is_whole (at (text "version") e) 3
    && holds (as_text (at (text "id") e)) id
    && is_text (at (text "cwd") e)
    && valid_time l (at (text "timestamp") e)

-- A string that names an earlier entry.
abbrev pub refers : List Text → Option Json → Bool
refers ids v = elim (as_text v) [ none ↦ false | some t ↦ includes ids t ]

-- The type and the id of an entry: a new id, under a parent that is there.
unfoldable pub entry_head : Language → List Text → Members → Option (Text × Text)
entry_head l ids e = do
  kind ← as_text (at (text "type") e)
  guard (includes types kind)
  id ← as_text (at (text "id") e)
  guard (not (is_empty id) && not (includes ids id))
  guard (is_null (at (text "parentId") e) || refers ids (at (text "parentId") e))
  guard (valid_time l (at (text "timestamp") e))
  some (kind, id)

unfoldable pub is_message : Members → Bool
is_message e = elim (as_object (at (text "message") e)) [
  | none ↦ false
  | some m ↦ elim (as_text (at (text "role") m)) [
    | none ↦ false
    | some role ↦ not (is_empty role) && is_finite (at (text "timestamp") m)
  ]
]

-- `typeof e[key] !== 'string' && !Array.isArray(e[key])`, denied.
abbrev has_content : Members → Bool
has_content e = is_text (at (text "content") e) || is_array (at (text "content") e)

abbrev is_replacement : Option Json → Bool
is_replacement v = is_null v || elim (as_object v) [ none ↦ false | some r ↦ has_content r ]

-- `undefined`, or a string.
abbrev optional_text : Option Json → Bool
optional_text none = true
optional_text v = is_text v

unfoldable pub is_compaction : List Text → Members → Bool
is_compaction ids e =
    is_text (at (text "summary") e)
    && refers ids (at (text "firstKeptEntryId") e)
    && is_number (at (text "tokensBefore") e)

-- The shape of an entry by its type. The ids have the entry's own already.
unfoldable pub is_shaped : List Text → Text → Members → Bool
is_shaped ids kind e =
    if text_eq kind (text "message")
    then is_message e
    else if text_eq kind (text "compaction")
    then is_compaction ids e
    else if text_eq kind (text "branch_summary")
    then is_text (at (text "summary") e) && refers ids (at (text "fromId") e)
    else if text_eq kind (text "context_edit")
    then refers ids (at (text "targetId") e) && is_replacement (at (text "replacement") e)
    else if text_eq kind (text "model_change")
    then is_text (at (text "provider") e) && is_text (at (text "modelId") e)
    else if text_eq kind (text "thinking_level_change")
    then is_text (at (text "thinkingLevel") e)
    else if text_eq kind (text "custom_message")
    then is_text (at (text "customType") e) && has_content e && is_boolean (at (text "display") e)
    else if text_eq kind (text "usage")
    then is_text (at (text "kind") e)
      && is_text (at (text "provider") e)
      && is_text (at (text "model") e)
      && is_composite (at (text "usage") e)
    else if text_eq kind (text "session_info")
    then optional_text (at (text "name") e)
    else if text_eq kind (text "label")
    then refers ids (at (text "targetId") e) && optional_text (at (text "label") e)
    else true

-- The types of the controller's own entries.
abbrev pub binding_type : Text
binding_type = text "whatsapp.controller.binding.v1"

abbrev pub completion_type : Text
completion_type = text "whatsapp.controller.completed.v1"

abbrev pub mutation_type : Text
mutation_type = text "whatsapp.controller.mutation.v1"

-- `s.startsWith(prefix)`.
unfoldable pub starts_with : Text → Text → Bool
starts_with [] t = true
starts_with (p ∷ ps) [] = false
starts_with (p ∷ ps) (c ∷ cs) = p == c && starts_with ps cs
