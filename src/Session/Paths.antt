-- ===== src/Session/Paths.antt =====
-- `assertSessionPath` of pi/completion-index.ts and the check of every directory above a session
-- file, in `readEvidence` and in `assertAncestors` of compaction/orphan-recovery.ts.
use whats_app_mcp_server.Base.{
  ℕ, zero, suc, ◌<◌, ◌≡◌, ◌⊎◌, inl, inr, refl, Bool-cases, arith, Bool, true, false, not, ◌&&◌,
  ◌||◌, if◌then◌else◌, length, is_empty, Text, text, text_eq, text_eq_iff, [], ◌∷◌,
}
use whats_app_mcp_server.Domain.Patterns.{is_chat_jid}
use whats_app_mcp_server.Domain.Schemas.{within}
use whats_app_mcp_server.Scheduler.Work.{SessionBinding}
use whats_app_mcp_server.Session.Log.{starts_with}

-- node's `path`: `isAbsolute`, `relative`, `resolve` and `dirname`; and what `lstat` tells of a path:
-- whether it is a directory and no link. An exception of `lstat` counts as none.
pub record Files : Type 0 where
  pub is_absolute : Text → Bool
  pub relative : Text → Text → Text
  pub resolve : Text → Text
  pub dirname : Text → Text
  pub is_directory : Text → Bool

-- `s.endsWith(t)`.
unfoldable pub ends_with : Text → Text → Bool
ends_with [] s = text_eq [] s
ends_with (c ∷ t) s = text_eq (c ∷ t) s || ends_with t s

-- `SessionBindingSchema` on the fields of a binding.
abbrev pub is_binding : SessionBinding → Bool
is_binding b =
    is_chat_jid b.canonical_chat_id && within 1 128 b.session_id && within 1 4096 b.session_file

unfoldable pub is_session_path : Files → Text → SessionBinding → Bool
is_session_path f root b =
    let rel = f.relative (f.resolve root) b.session_file in
    is_binding b
    && f.is_absolute b.session_file
    && not (is_empty rel)
    && not (starts_with (text "..") rel)
    && not (f.is_absolute rel)
    && ends_with b.session_file (text ".jsonl")

-- The loop up to the root: it ends well at the root, or throws.
pub data Walk : Type 0 where
  reached thrown exhausted : Walk

unfoldable pub walk : Files → Text → ℕ → Text → Walk
walk f root zero path = exhausted
walk f root (suc n) path =
    let above = walk f root n (f.dirname path) in
    if not (f.is_directory path)
    then thrown
    else if text_eq path (f.resolve root)
    then reached
    else if text_eq (f.dirname path) path
    then thrown
    else above

-- The whole check, with as many steps as the path has characters.
unfoldable pub check_ancestors : Files → Text → SessionBinding → Walk
unfolding walk
check_ancestors f root b =
    if is_session_path f root b
    then (let dir = f.dirname b.session_file in walk f root (suc (length dir)) dir)
    else thrown

-- `dirname` shortens a path, or leaves it as it is.
abbrev pub Shortens : Files → Type 0
Shortens f = (p : Text) → (f.dirname p ≡ p) ⊎ (length (f.dirname p) < length p)

if_reached :
    (c : Bool) (w : Walk) (P : Type 0)
    → (w ≡ reached → P)
    → (if c then w else thrown) ≡ reached
    → (c ≡ true) × P
if_reached true w P k h = (refl, k h)
if_reached false w P k h = ground arith

module _ (f : Files) (root : Text) where
  -- The directories from a path up to the root are there, and are no links.
  pub data Clear : Text → Type 0 where
    at_root : {p : Text} → f.is_directory p ≡ true → p ≡ f.resolve root → Clear p
    below : {p : Text} → f.is_directory p ≡ true → Clear (f.dirname p) → Clear p

  walk-reached : (n : ℕ) (p : Text) → walk f root n p ≡ reached → Clear p
  unfolding walk
  walk-reached zero p h = absurd (ground arith)
  walk-reached (suc n) p h = elim (Bool-cases (text_eq p (f.resolve root))) [
    | inl e ↦ at_root (ground arith) ((text_eq_iff p (f.resolve root)).0 e)
    | inr e ↦ below (ground arith) (walk-reached n (f.dirname p) (ground arith))
  ]

  pub check_ancestors-Clear :
      (b : SessionBinding)
      → check_ancestors f root b ≡ reached
      → (is_session_path f root b ≡ true) × Clear (f.dirname b.session_file)
  unfolding check_ancestors
  check_ancestors-Clear b =
      let dir = f.dirname b.session_file in
      if_reached (is_session_path f root b) (walk f root (suc (length dir)) dir) (Clear dir)
        (walk-reached (suc (length dir)) dir)
