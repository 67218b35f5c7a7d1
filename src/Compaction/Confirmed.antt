-- ===== src/Compaction/Confirmed.antt =====
-- compaction/checkpoint.ts: `confirmedHistory` over all entries.
use whats_app_mcp_server.Base.{
  ℕ, zero, suc, ◌+◌, ◌<◌, ◌≡◌, refl, ap, subst, ◌∙◌, ◌⊎◌, inl, inr, arith, Bool, true, false,
  Option, none, some, List, [], ◌∷◌, if◌then◌else◌, Text, text_eq, text_eq_iff, Dict, lookup,
  insert, values,
}
use whats_app_mcp_server.Base.Each.{Each, Each-map}
use whats_app_mcp_server.Base.Members.{Has, Has-all, Each-insert, Each-lookup, Each-values}
use whats_app_mcp_server.Json.Inversion.{
  if-then, bind-then, none-some, some-injective, if-known, guard-some, if-some, and-true,
}
use whats_app_mcp_server.Domain.Schemas.{binding_of, marker_of}
use whats_app_mcp_server.Domain.Mutations.{
  Progress, JournalRecord, journal_record_of, is_attempting, is_confirmed,
}
use whats_app_mcp_server.Domain.Checkpoints.{CheckpointV1, ToolOutcome}
use whats_app_mcp_server.Scheduler.Work.{SessionBinding, CompletionMarker}
use whats_app_mcp_server.Session.Log.{binding_type, completion_type, mutation_type}
use whats_app_mcp_server.Compaction.History.{
  SessionEntry, History, same_mutation, add, add_all, follows, take_record, settle_records,
  take_marker, take_binding, take_custom, take_named, take_entry, take_entries, known_outcomes,
  insert_sorted, sort_outcomes, confirmed_history,
}
use whats_app_mcp_server.Compaction.Backing.{
  entry_at, RecordedAt, Marked, Attempted, Backed, Known, Holds, Holds-suc, add-From,
  settle_records-From,
}

either :
    (P : List ToolOutcome → Type 0) (c : Bool) (x y : List ToolOutcome)
    → P x
    → P y
    → P (if c then x else y)
either P true x y p q = p
either P false x y p q = q

both_states : (p : Progress) → is_attempting p ≡ true → is_confirmed p ≡ true → ⊥
both_states p a c = ground arith

module _ (entries : List SessionEntry) (From : ToolOutcome → Type 0)
    (back : (o : ToolOutcome) → Backed entries o → From o) (b : SessionBinding) (last : ℕ) where
  follows-Attempted :
      (n : ℕ) (o : Option JournalRecord) (r : JournalRecord)
      → ((p : JournalRecord) → o ≡ some p → (i : ℕ) × (i < n) × RecordedAt entries i p)
      → follows o r ≡ true
      → is_confirmed r.state.progress ≡ true
      → Attempted entries n r
  follows-Attempted n none r k f c = absurd (both_states r.state.progress f c)
  follows-Attempted n (some p) r k f c =
      let (f₁, same) = and-true _ (same_mutation p.state r.state) f in
      let (f₂, print) = and-true _ (text_eq p.event_fingerprint r.event_fingerprint) f₁ in
      let (att, con) =
        and-true (is_attempting p.state.progress) (is_confirmed r.state.progress) f₂ in
      let (i, lt, rec) = k p refl in
      (i, p, lt, rec, att, (text_eq_iff p.event_fingerprint r.event_fingerprint).0 print, same)

  -- What was known of the record before the new one.
  earlier :
      (n : ℕ) (k : Text) (p : JournalRecord)
      → Known entries n (k, p)
      → (i : ℕ) × (i < n) × RecordedAt entries i p
  earlier n k p (i, lt, rec, same, att) = (i, lt, rec)

  take_record-Holds :
      (n : ℕ) (r : JournalRecord) (h next : History)
      → RecordedAt entries n r
      → Holds entries From back n h
      → take_record b last r h ≡ some next
      → Holds entries From back (suc n) next
  unfolding take_record
  take_record-Holds n r h next rec k e =
      let (c, same) =
        if-some _ (record h { transitions = insert r.state.attempt_id r h.transitions }) e in
      let (others, f) = and-true _ (follows (lookup r.state.attempt_id h.transitions) r) c in
      subst (Holds entries From back (suc n)) same (record {
        records =
            Each-insert (Known entries (suc n)) r.state.attempt_id r h.transitions
              (
                n,
                omega arith,
                rec,
                refl,
                follows-Attempted n (lookup r.state.attempt_id h.transitions) r
                    (λ p q. earlier n r.state.attempt_id p (
                      Each-lookup (Known entries n) r.state.attempt_id p h.transitions k.records q))
                    f,
              )
              (Holds-suc entries From back n h k).records;
        outcomes = k.outcomes;
      })

  take_marker-Holds :
      (n : ℕ) (m : CompletionMarker) (h next : History)
      → Marked entries m
      → Holds entries From back n h
      → take_marker b last m h ≡ some next
      → Holds entries From back n next
  unfolding take_marker
  take_marker-Holds n m h next mk k =
      if-then _ _ _
        (bind-then (settle_records m h.transitions h.outcomes) _ (λ os p q.
          subst (Holds entries From back n) (some-injective q) (record {
            records = k.records;
            outcomes =
                settle_records-From entries From back n m h.transitions h.outcomes os mk k.records
                  k.outcomes p;
          })))
        (λ e. absurd (none-some e))

  take_binding-Holds :
      (n : ℕ) (c : Option SessionBinding) (h next : History)
      → Holds entries From back n h
      → take_binding b last c h ≡ some next
      → Holds entries From back n next
  unfolding take_binding
  take_binding-Holds n c h next k e =
      let (t, same) = if-some _ (record h { bound = true }) e in
      subst (Holds entries From back n) same (record { records = k.records; outcomes = k.outcomes })

  take_custom-Holds :
      (n : ℕ) (e : SessionEntry) (kind : Text) (h next : History)
      → Has e entries
      → entry_at entries n ≡ some e
      → e.custom_type ≡ some kind
      → Holds entries From back n h
      → take_custom b last kind e.payload h ≡ some next
      → Holds entries From back (suc n) next
  unfolding take_custom
  take_custom-Holds n e kind h next at here t k =
      let later = Holds-suc entries From back n h k in
      if-known (text_eq kind binding_type) _ _
        (λ _. take_binding-Holds (suc n) (binding_of e.payload) h next later)
        (λ _.
          if-known (text_eq kind mutation_type) _ _
            (λ m. bind-then (journal_record_of e.payload) _ (λ r p.
              take_record-Holds n r h next
                (e, here, t ∙ ap some ((text_eq_iff kind mutation_type).0 m), p) k))
            (λ _.
              if-known (text_eq kind completion_type) _ _
                (λ m. bind-then (marker_of e.payload) _ (λ r p.
                  take_marker-Holds (suc n) r h next
                    (e, at, t ∙ ap some ((text_eq_iff kind completion_type).0 m), p) later))
                (λ _.
                  if-then _ _ _ (λ z. absurd (none-some z))
                    (λ z. subst (Holds entries From back (suc n)) (some-injective z) later))))

  take_named-Holds :
      (n : ℕ) (e : SessionEntry) (o : Option Text) (h next : History)
      → Has e entries
      → entry_at entries n ≡ some e
      → e.custom_type ≡ o
      → Holds entries From back n h
      → take_named b last o e.payload h ≡ some next
      → Holds entries From back (suc n) next
  take_named-Holds n e none h next at here t k g =
      subst (Holds entries From back (suc n)) (some-injective g) (Holds-suc entries From back n h k)
  take_named-Holds n e (some kind) h next at here t k g =
      take_custom-Holds n e kind h next at here t k g

  take_entry-Holds :
      (n : ℕ) (e : SessionEntry) (h next : History)
      → Has e entries
      → entry_at entries n ≡ some e
      → Holds entries From back n h
      → take_entry b last e h ≡ some next
      → Holds entries From back (suc n) next
  unfolding take_entry
  take_entry-Holds n e h next at here k =
      if-then _ _ _ (λ z. absurd (none-some z))
        (if-then _ _ _
          (λ z.
            subst (Holds entries From back (suc n)) (some-injective z)
              (Holds-suc entries From back n h k))
          (take_named-Holds n e e.custom_type h next at here refl k))

  take_entries-Holds :
      (n : ℕ) (es : List SessionEntry) (h next : History)
      → Each (λ e. Has e entries) es
      → ((m : ℕ) → entry_at entries (n + m) ≡ entry_at es m)
      → Holds entries From back n h
      → take_entries b last es h ≡ some next
      → (end : ℕ) × Holds entries From back end next
  unfolding take_entries
  take_entries-Holds n [] h next at where_at k g =
      (n, subst (Holds entries From back n) (some-injective g) k)
  take_entries-Holds n (e ∷ es) h next (at, ats) where_at k g =
      bind-then (take_entry b last e h) _
        (λ mid p q.
          take_entries-Holds (suc n) es mid next ats
            (λ m. ap (entry_at entries) (omega arith) ∙ where_at (suc m))
            (take_entry-Holds n e h mid at (ap (entry_at entries) (omega arith) ∙ where_at zero) k
              p)
            q)
        g

  add_all-From :
      (os : List ToolOutcome) (d next : Dict ToolOutcome)
      → Each From os
      → Each (λ (k, o). From o) d
      → add_all os d ≡ some next
      → Each (λ (k, o). From o) next
  unfolding add_all
  add_all-From [] d next f h g = subst (Each λ (k, o). From o) (some-injective g) h
  add_all-From (o ∷ os) d next (f, fs) h g =
      bind-then (add o d) _
        (λ mid p q. add_all-From os mid next fs (add-From entries From back o d mid f h p) q) g

  insert_sorted-From :
      (before : Text → Text → Bool) (o : ToolOutcome) (os : List ToolOutcome)
      → From o
      → Each From os
      → Each From (insert_sorted before o os)
  unfolding insert_sorted
  insert_sorted-From before o [] f h = (f, tt)
  insert_sorted-From before o (p ∷ ps) f (g, h) =
      either (Each From) (before p.attempt_id o.attempt_id) (p ∷ insert_sorted before o ps)
        (o ∷ p ∷ ps) (g, insert_sorted-From before o ps f h) (f, (g, h))

  sort_outcomes-From :
      (before : Text → Text → Bool) (os : List ToolOutcome)
      → Each From os
      → Each From (sort_outcomes before os)
  unfolding sort_outcomes
  sort_outcomes-From before [] h = tt
  sort_outcomes-From before (o ∷ os) (f, h) =
      insert_sorted-From before o (sort_outcomes before os) f (sort_outcomes-From before os h)

-- An outcome that the checkpoint has already.
abbrev pub Carried : Option CheckpointV1 → ToolOutcome → Type 0
Carried none o = ⊥
Carried (some c) o = Has o c.confirmed_tool_outcomes

known_outcomes-From :
    (entries : List SessionEntry) (b : SessionBinding) (last : ℕ) (c : Option CheckpointV1)
    (known : Dict ToolOutcome)
    → known_outcomes b last c ≡ some known
    → Each (λ (k, o). Carried c o ⊎ Backed entries o) known
known_outcomes-From entries b last none known e = subst (Each _) (some-injective e) tt
known_outcomes-From entries b last (some c) known e =
    if-then _ _ _
      (add_all-From entries (λ o. Carried (some c) o ⊎ Backed entries o) (λ o k. inr k) b last
        c.confirmed_tool_outcomes [] known
        (Each-map (λ o. Has o c.confirmed_tool_outcomes) _ c.confirmed_tool_outcomes (λ o h. inl h)
          (Has-all c.confirmed_tool_outcomes))
        tt)
      (λ z. absurd (none-some z)) e

-- Every outcome that `confirmedHistory` returns stands in the checkpoint that it was given, or has
-- all of its evidence among the entries: a confirmed record of the call, at an earlier position a
-- record of the same call as an attempt, and a marker that completes the call's event, with the
-- event's fingerprint, and lists the message.
pub confirmed_history-Backed :
    (before : Text → Text → Bool) (entries : List SessionEntry) (b : SessionBinding) (last : ℕ)
    (current : Option CheckpointV1) (out : List ToolOutcome)
    → confirmed_history before entries b last current ≡ some out
    → Each (λ o. Carried current o ⊎ Backed entries o) out
unfolding confirmed_history
confirmed_history-Backed before entries b last current out e =
    let From : ToolOutcome → Type 0 = λ o. Carried current o ⊎ Backed entries o in
    let back : (o : ToolOutcome) → Backed entries o → From o = λ o k. inr k in
    bind-then (known_outcomes b last current) _
      (λ known p. bind-then (take_entries b last entries _) _ (λ h q r.
        subst (Each From) (some-injective (guard-some _ _ r).1) (
          sort_outcomes-From entries From back b last before (values h.outcomes) (
            Each-values From h.outcomes
              (take_entries-Holds entries From back b last zero entries _ h (Has-all entries)
                (λ m. ap (entry_at entries) (omega arith))
                (record {
                  records = tt;
                  outcomes = known_outcomes-From entries b last current known p;
                })
                q).1.outcomes))))
      (guard-some _ _ e).1
