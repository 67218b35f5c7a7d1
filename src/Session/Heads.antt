-- ===== src/Session/Heads.antt =====
-- The head of an entry of a session file: its type stands under `type`.
use whats_app_mcp_server.Base.{
  ◌≡◌, ap, ◌∙◌, Bool, true, false, not, ◌&&◌, ◌||◌, Option, none, some, List, Text, text, is_empty,
}
use whats_app_mcp_server.Json.{Members, ◌>>=◌, ◌>>◌, guard, at, as_text, is_null}
use whats_app_mcp_server.Json.Inversion.{bind-some, guard-some, some-injective, none-some}
use whats_app_mcp_server.Intake.Payload.{includes}
use whats_app_mcp_server.Session.Log.{Language, types, refers, valid_time, entry_head}

all_guards :
    (a b c : Bool) (x h : Text × Text)
    → (guard a >> (guard b >> (guard c >> some x))) ≡ some h
    → x ≡ h
all_guards true true true x h g = some-injective g
all_guards true true false x h g = absurd (none-some g)
all_guards true false c x h g = absurd (none-some g)
all_guards false b c x h g = absurd (none-some g)

behind_id :
    (kind : Text) (o : Option Text) (a : Text → Bool) (b c : Bool) (h : Text × Text)
    → (o >>= λ id. guard (a id) >> (guard b >> (guard c >> some (kind, id)))) ≡ some h
    → some kind ≡ some h.0
behind_id kind none a b c h g = absurd (none-some g)
behind_id kind (some id) a b c h g = ap (λ z. some z.0) (all_guards (a id) b c (kind, id) h g)

pub entry_head-kind :
    (l : Language) (ids : List Text) (e : Members) (h : Text × Text)
    → entry_head l ids e ≡ some h
    → as_text (at (text "type") e) ≡ some h.0
unfolding entry_head
entry_head-kind l ids e h g =
    let (kind, q, g₁) = bind-some (as_text (at (text "type") e)) _ g in
    let (c, g₂) = guard-some (includes types kind) _ g₁ in
    q
    ∙ behind_id kind (as_text (at (text "id") e)) (λ id. not (is_empty id) && not (includes ids id))
        (is_null (at (text "parentId") e) || refers ids (at (text "parentId") e))
        (valid_time l (at (text "timestamp") e)) h g₂
