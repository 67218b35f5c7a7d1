-- ===== src/Session/Reader.antt =====
-- `readEvidence` of pi/completion-index.ts as a whole: the check of the path, then the attempts.
use whats_app_mcp_server.Base.{ℕ, ◌≡◌, true, arith, Option, List, Text}
use whats_app_mcp_server.Scheduler.Work.{SessionBinding, CompletionProof}
use whats_app_mcp_server.Session.Log.{Language}
use whats_app_mcp_server.Session.Evidence.{Attempt, Findings, failure, evidence, read_attempts}
use whats_app_mcp_server.Session.Paths.{
  Files, Walk, reached, is_session_path, check_ancestors, Clear, check_ancestors-Clear,
}
use whats_app_mcp_server.Session.Proofs.{Indexed, scanned-Indexed}
use whats_app_mcp_server.Session.Stillness.{ReadIn, read_attempts-ReadIn}

abbrev if_clear : Walk → Findings → Findings
if_clear reached e = e
if_clear _ e = failure

-- `scan n` is what the attempt with `n` more to come sees.
unfoldable pub read_evidence :
    Files → Text → Language → SessionBinding → (ℕ → Option Attempt) → Findings
read_evidence f root l b scan = if_clear (check_ancestors f root b) (read_attempts l b scan 8)

clear_evidence :
    (w : Walk) (e : Findings) (ps : List CompletionProof)
    → if_clear w e ≡ evidence ps
    → (w ≡ reached) × (e ≡ evidence ps)
clear_evidence w e ps h = ground arith

-- If a session file gives proofs, then its path is below the root and no directory above it is a
-- link; one of the eight attempts saw the file stand still under its name and become durable, and
-- read them; they are of the session and its chat, and no two are of one event or of one sequence.
pub evidence_needs :
    (f : Files) (root : Text) (l : Language) (b : SessionBinding) (scan : ℕ → Option Attempt)
    (ps : List CompletionProof)
    → read_evidence f root l b scan ≡ evidence ps
    → (is_session_path f root b ≡ true)
      × Clear f root (f.dirname b.session_file)
      × ReadIn l b scan 8 ps
      × Indexed l b ps
unfolding read_evidence
evidence_needs f root l b scan ps h =
    let (w, e) = clear_evidence (check_ancestors f root b) (read_attempts l b scan 8) ps h in
    let (p, c) = check_ancestors-Clear f root b w in
    let (k, a, lt, s, st, r) = read_attempts-ReadIn l b scan 8 ps e in
    (p, c, (k, a, lt, s, st, r), scanned-Indexed l b a ps r)
