-- ===== src/Compaction/Backing.antt =====
-- compaction/checkpoint.ts: what stands behind each outcome that `confirmedHistory` returns.
use whats_app_mcp_server.Base.{
  ℕ, zero, suc, ◌<◌, ◌≡◌, refl, ap, subst, arith, Bool, true, false, ◌&&◌, Option, none, some, List,
  [], ◌∷◌, Text, text_eq, text_eq_iff, Dict, insert,
}
use whats_app_mcp_server.Base.Each.{Each, Each-map}
use whats_app_mcp_server.Base.Members.{Has, Each-insert}
use whats_app_mcp_server.Json.{Json, ◌>>=◌}
use whats_app_mcp_server.Json.Inversion.{bind-then, none-some, some-injective, if-some, and-true}
use whats_app_mcp_server.Domain.Schemas.{marker_of, has_send}
use whats_app_mcp_server.Domain.Mutations.{
  Progress, JournalRecord, journal_record_of, is_attempting, is_confirmed, message_of,
}
use whats_app_mcp_server.Domain.Checkpoints.{ToolOutcome}
use whats_app_mcp_server.Scheduler.Work.{CompletionMarker}
use whats_app_mcp_server.Session.Log.{completion_type, mutation_type}
use whats_app_mcp_server.Compaction.History.{
  SessionEntry, History, same_mutation, add, outcome_in, sent_as, settle_records,
}

confirmed_by : (p : Progress) (id : Text) → message_of p ≡ some id → is_confirmed p ≡ true
confirmed_by p id h = ground arith

-- The entry at a position.
abbrev pub entry_at : List SessionEntry → ℕ → Option SessionEntry
entry_at [] n = none
entry_at (e ∷ es) zero = some e
entry_at (e ∷ es) (suc n) = entry_at es n

module _ (entries : List SessionEntry) where
  -- An entry of the type with this payload is there.
  abbrev pub Entered : Text → (Option Json → Type 0) → Type 0
  Entered kind P = (e : SessionEntry) × Has e entries × (e.custom_type ≡ some kind) × P e.payload

  -- The record is the entry at this position.
  abbrev pub RecordedAt : ℕ → JournalRecord → Type 0
  RecordedAt i r =
      (e : SessionEntry) × (entry_at entries i ≡ some e)
      × (e.custom_type ≡ some mutation_type)
      × (journal_record_of e.payload ≡ some r)

  abbrev pub Marked : CompletionMarker → Type 0
  Marked m = Entered completion_type λ v. marker_of v ≡ some m

  -- The attempt was recorded before the position of its confirmation.
  abbrev pub Attempted : ℕ → JournalRecord → Type 0
  Attempted j r =
      (i : ℕ) × (p : JournalRecord) × (i < j)
      × RecordedAt i p
      × (is_attempting p.state.progress ≡ true)
      × (p.event_fingerprint ≡ r.event_fingerprint)
      × (same_mutation p.state r.state ≡ true)

  -- An outcome is the confirmed record of a call that was recorded earlier as an
  -- attempt, with the same fields, and that a marker of its event lists.
  pub record Backed (o : ToolOutcome) : Type 0 where
    pub journal : JournalRecord
    pub position : ℕ
    pub recorded : RecordedAt position journal
    pub attempted : Attempted position journal
    pub confirmed : message_of journal.state.progress ≡ some o.message_id
    pub same_attempt : journal.state.attempt_id ≡ o.attempt_id
    pub same_tool : journal.state.tool ≡ o.tool
    pub same_destination : journal.state.destination ≡ o.destination
    pub marker : CompletionMarker
    pub marked : Marked marker
    pub same_event : journal.state.event_id ≡ marker.event_id
    pub same_print : journal.event_fingerprint ≡ marker.event_fingerprint
    pub listed :
        has_send marker.confirmed_sends
          (record { destination = o.destination; message_id = o.message_id })
        ≡ true

  -- What is known of a record under its attempt, before the entry at `n` is taken.
  abbrev pub Known : ℕ → Text × JournalRecord → Type 0
  Known n (k, r) =
      (j : ℕ) × (j < n)
      × RecordedAt j r
      × (r.state.attempt_id ≡ k)
      × (is_confirmed r.state.progress ≡ true → Attempted j r)

  Known-suc : (n : ℕ) (q : Text × JournalRecord) → Known n q → Known (suc n) q
  Known-suc n (k, r) (j, lt, rec, same, att) = (j, omega (arith, lt), rec, same, att)

  module _ (From : ToolOutcome → Type 0) (back : (o : ToolOutcome) → Backed o → From o) where
    pub record Holds (n : ℕ) (h : History) : Type 0 where
      pub records : Each (Known n) h.transitions
      pub outcomes : Each (λ (k, o). From o) h.outcomes

    pub Holds-suc : (n : ℕ) (h : History) → Holds n h → Holds (suc n) h
    Holds-suc n h k = record {
      records = Each-map (Known n) (Known (suc n)) h.transitions (Known-suc n) k.records;
      outcomes = k.outcomes;
    }

    sent_as-some :
        (r : JournalRecord) (m : CompletionMarker) (o : Option Text) (id : Text)
        → sent_as r m o ≡ some id
        → (o ≡ some id)
          × (r.event_fingerprint ≡ m.event_fingerprint)
          × (has_send m.confirmed_sends
                (record { destination = r.state.destination; message_id = id })
              ≡ true)
    sent_as-some r m none id e = absurd (none-some e)
    sent_as-some r m (some x) id e =
        let (c, x_is_id) =
          if-some
            (text_eq r.event_fingerprint m.event_fingerprint
              && has_send m.confirmed_sends
                  (record { destination = r.state.destination; message_id = x }))
            x e in
        let (p, q) = and-true (text_eq r.event_fingerprint m.event_fingerprint) _ c in
        (
          ap some x_is_id,
          (text_eq_iff r.event_fingerprint m.event_fingerprint).0 p,
          subst
              (λ z.
                has_send m.confirmed_sends
                  (record { destination = r.state.destination; message_id = z })
                ≡ true)
              x_is_id q,
        )

    pub add-From :
        (o : ToolOutcome) (os next : Dict ToolOutcome)
        → From o
        → Each (λ (k, o). From o) os
        → add o os ≡ some next
        → Each (λ (k, o). From o) next
    unfolding add
    add-From o os next f h e =
        let (c, same) = if-some _ (insert o.attempt_id o os) e in
        subst (Each λ (k, o). From o) same (Each-insert (λ (k, o). From o) o.attempt_id o os f h)

    -- A record at a marker of its event, by whether it is of its event.
    at_event :
        (n : ℕ) (c : Bool) (k : Text) (r : JournalRecord) (m : CompletionMarker)
        (rs : Dict JournalRecord) (os next : Dict ToolOutcome)
        → text_eq r.state.event_id m.event_id ≡ c
        → Marked m
        → Known n (k, r)
        → Each (λ (k, o). From o) os
        → ((mid : Dict ToolOutcome)
            → Each (λ (k, o). From o) mid
            → settle_records m rs mid ≡ some next
            → Each (λ (k, o). From o) next)
        → elim c as (λ _. Option (Dict ToolOutcome)) [
          | false ↦ settle_records m rs os
          | true ↦ sent_as r m (message_of r.state.progress) >>= λ id.
              add (outcome_in k r.state id) os >>= λ mid. settle_records m rs mid
        ]
          ≡ some next
        → Each (λ (k, o). From o) next
    at_event n false k r m rs os next e mk known h rest g = rest os h g
    at_event n true k r m rs os next e mk (j, lt, rec, same, att) h rest g =
        bind-then (sent_as r m (message_of r.state.progress)) _
          (λ id p q.
            bind-then (add (outcome_in k r.state id) os) _
              (λ mid t u.
                let (mine, print, listed) = sent_as-some r m (message_of r.state.progress) id p in
                rest mid
                  (add-From (outcome_in k r.state id) os mid
                    (back (outcome_in k r.state id) (record {
                      journal = r;
                      position = j;
                      recorded = rec;
                      attempted = att (confirmed_by r.state.progress id mine);
                      confirmed = mine;
                      same_attempt = same;
                      same_tool = refl;
                      same_destination = refl;
                      marker = m;
                      marked = mk;
                      same_event = (text_eq_iff r.state.event_id m.event_id).0 e;
                      same_print = print;
                      listed = listed;
                    }))
                    h t)
                  u)
              q)
          g

    pub settle_records-From :
        (n : ℕ) (m : CompletionMarker) (rs : Dict JournalRecord) (os next : Dict ToolOutcome)
        → Marked m
        → Each (Known n) rs
        → Each (λ (k, o). From o) os
        → settle_records m rs os ≡ some next
        → Each (λ (k, o). From o) next
    unfolding settle_records
    settle_records-From n m [] os next mk kn h e =
        subst (Each λ (k, o). From o) (some-injective e) h
    settle_records-From n m ((k, r) ∷ rs) os next mk (known, kn) h e =
        at_event n (text_eq r.state.event_id m.event_id) k r m rs os next refl mk known h
          (λ mid g. settle_records-From n m rs mid next mk kn g) e
