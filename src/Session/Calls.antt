-- ===== src/Session/Calls.antt =====
-- The calls of the completion index of pi/completion-index.ts, one after another: the file-only
-- intervals do not overlap.
use whats_app_mcp_server.Base.{
  ◌≡◌, Bool, true, false, Option, none, some, List, [], ◌∷◌, if◌then◌else◌, Text, arith,
}
use whats_app_mcp_server.Intake.Payload.{includes}
use whats_app_mcp_server.Scheduler.Work.{SessionBinding, CompletionProof, Send}
use whats_app_mcp_server.Session.Evidence.{
  Stat, same_file, Findings, failure, not_durable, evidence,
}
use whats_app_mcp_server.Session.Index.{
  Index, Looks, Row, file_evidence, identity, kept_if, read_into, from_cache, sampled_first, poison,
  invalidate, reserve_file, publish, is_snapshot, canonical_chats,
}
use whats_app_mcp_server.Session.Lookup.{
  RowLoop, rebuild_from, rebuild, rebuild_checked, with_events, with_evidence, with_file,
  with_session, note_events, Outside, all_proofs, find_event, classify_own, classify_first,
}

pub data IndexCall : Type 0 where
  reserves publishes invalidates : SessionBinding → IndexCall
  reads : SessionBinding → Looks → IndexCall
  finds : Outside → Text → Text → IndexCall
  classifies : Outside → Text → Send → Option Bool → Option Bool → IndexCall

-- A call that throws leaves the index as it is.
abbrev or_same : Index → Option Index → Index
or_same x none = x
or_same x (some y) = y

unfoldable pub call : IndexCall → Index → Index
call (reserves b) x = or_same x (reserve_file b x)
call (publishes b) x = or_same x (publish b x)
call (invalidates b) x = invalidate b x
call (reads b l) x = (file_evidence b l x).0
call (finds o chat id) x = (find_event o chat id x).0
call (classifies o chat s before after) x = (classify_own o chat s before after x).0

unfoldable pub calls : List IndexCall → Index → Index
calls [] x = x
calls (c ∷ cs) x = calls cs (call c x)

-- What is poisoned stays so.
abbrev Keeps : Index → Index → Type 0
Keeps x y = (f : Text) → includes x.poisoned f ≡ true → includes y.poisoned f ≡ true

if-Keeps :
    {A : Type 0} (x : Index) (c : Bool) (u v : Index × A)
    → Keeps x u.0
    → Keeps x v.0
    → Keeps x (if◌then◌else◌ {A = Index × A} c u v).0
if-Keeps x true u v p q = p
if-Keeps x false u v p q = q

module _ (b : SessionBinding) (x : Index) where
  poison-Keeps : Keeps x (poison b x)
  unfolding poison includes
  poison-Keeps f h = ground arith

  kept_if-Keeps :
      (s : Stat) (ps : List CompletionProof) (o : Option Stat) → Keeps x (kept_if b x s ps o).0
  kept_if-Keeps s ps none = poison-Keeps
  kept_if-Keeps s ps (some t) = if-Keeps x (same_file s t) _ _ (λ f h. h) (λ f h. h)

  read_into-Keeps : (s : Stat) (e : Findings) (o : Option Stat) → Keeps x (read_into b x s e o).0
  read_into-Keeps s failure o = poison-Keeps
  read_into-Keeps s not_durable o = poison-Keeps
  read_into-Keeps s (evidence ps) o = kept_if-Keeps s ps o

  from_cache-Keeps :
      (l : Looks) (s : Stat) (o : Option (Option (List CompletionProof)))
      → Keeps x (from_cache b x l s o).0
  from_cache-Keeps l s none = poison-Keeps
  from_cache-Keeps l s (some (some ps)) = λ f h. h
  from_cache-Keeps l s (some none) = read_into-Keeps s l.reading (identity l.on_path l.after)

  sampled_first-Keeps : (l : Looks) (o : Option Stat) → Keeps x (sampled_first b x l o).0
  sampled_first-Keeps l none = poison-Keeps
  sampled_first-Keeps l (some s) = from_cache-Keeps l s _

  file_evidence-Keeps : (l : Looks) → Keeps x (file_evidence b l x).0
  unfolding file_evidence
  file_evidence-Keeps l =
      if-Keeps x (includes x.poisoned b.session_file) _ _ (λ f h. h) (sampled_first-Keeps l _)

module _ (looks : SessionBinding → Looks) where
  abbrev LoopKeeps : RowLoop → Type 0
  LoopKeeps k = (ids : List Text) (all : List CompletionProof) (x : Index) → Keeps x (k ids all x).0

  module _ (k : RowLoop) (h : LoopKeeps k) (ids : List Text) (all : List CompletionProof)
      (x : Index) where
    with_events-Keeps :
        (y : Index) (ps : List CompletionProof) (o : Option (List Text))
        → Keeps x y
        → Keeps x (with_events k all y ps o).0
    with_events-Keeps y ps none p f g = p f g
    with_events-Keeps y ps (some seen) p f g = h seen _ y f (p f g)

    with_evidence-Keeps :
        (z : Index × Option (List CompletionProof))
        → Keeps x z.0
        → Keeps x (with_evidence k ids all z).0
    with_evidence-Keeps (y, none) p = p
    with_evidence-Keeps (y, some ps) p = with_events-Keeps y ps (note_events ids ps) p

    with_file-Keeps : (b : SessionBinding) (c : Bool) → Keeps x (with_file looks k ids all x b c).0
    with_file-Keeps b true = λ f g. g
    with_file-Keeps b false =
        with_evidence-Keeps (file_evidence b (looks b) x) (file_evidence-Keeps b x (looks b))

    with_session-Keeps : (o : Option SessionBinding) → Keeps x (with_session looks k ids all x o).0
    with_session-Keeps none = h ids all x
    with_session-Keeps (some b) = with_file-Keeps b (includes x.pending b.session_file)

  rebuild_from-Keeps : (rs : List Row) → LoopKeeps (rebuild_from looks rs)
  unfolding rebuild_from
  rebuild_from-Keeps [] ids all x f g = g
  rebuild_from-Keeps (r ∷ rs) ids all x f g =
      with_session-Keeps (rebuild_from looks rs) (rebuild_from-Keeps rs) ids all x r.binding f g

module _ (o : Outside) (x : Index) where
  rebuild_checked-Keeps : (rows : Option (List Row)) → Keeps x (rebuild_checked o x rows).0
  unfolding rebuild
  rebuild_checked-Keeps none = λ f g. g
  rebuild_checked-Keeps (some rows) =
      if-Keeps x (is_snapshot o.on_path (canonical_chats o.policy) rows) _ _
        (rebuild_from-Keeps o.looks rows [] [] x) (λ f g. g)

  find_event-Keeps : (chat id : Text) → Keeps x (find_event o chat id x).0
  unfolding find_event all_proofs
  find_event-Keeps chat id =
      if-Keeps x (includes (canonical_chats o.policy) chat) _ _ (rebuild_checked-Keeps o.rows)
        (λ f g. g)

  classify_first-Keeps :
      (s : Send) (before after : Option Bool) → Keeps x (classify_first o s before after x).0
  unfolding all_proofs
  classify_first-Keeps s none after = λ f g. g
  classify_first-Keeps s (some true) after = λ f g. g
  classify_first-Keeps s (some false) after = rebuild_checked-Keeps o.rows

  classify_own-Keeps :
      (chat : Text) (s : Send) (before after : Option Bool)
      → Keeps x (classify_own o chat s before after x).0
  unfolding classify_own
  classify_own-Keeps chat s before after =
      if-Keeps x _ _ _ (classify_first-Keeps s before after) (λ f g. g)

call-Keeps : (c : IndexCall) (x : Index) → Keeps x (call c x)
unfolding call reserve_file publish invalidate
call-Keeps (reserves b) x = λ f h. ground arith
call-Keeps (publishes b) x = λ f h. ground arith
call-Keeps (invalidates b) x = poison-Keeps b x
call-Keeps (reads b l) x = file_evidence-Keeps b x l
call-Keeps (finds o chat id) x = find_event-Keeps o x chat id
call-Keeps (classifies o chat s before after) x = classify_own-Keeps o x chat s before after

calls-Keeps : (cs : List IndexCall) (x : Index) → Keeps x (calls cs x)
unfolding calls
calls-Keeps [] x f h = h
calls-Keeps (c ∷ cs) x f h = calls-Keeps cs (call c x) f (call-Keeps c x f h)

-- A session file that was poisoned once, by a failed reading, append or sync, gives no proofs any
-- more and can be neither reserved nor published, whatever calls of the index follow.
pub calls-poisoned :
    (cs : List IndexCall) (x : Index) (b : SessionBinding) (l : Looks)
    → includes x.poisoned b.session_file ≡ true
    → let y = calls cs x in
      ((file_evidence b l y).1 ≡ none) × (reserve_file b y ≡ none) × (publish b y ≡ none)
unfolding file_evidence reserve_file publish
calls-poisoned cs x b l h =
    let k = calls-Keeps cs x b.session_file h in (ground arith, ground arith, ground arith)
