-- ===== src/Compaction/Quiet.antt =====
-- compaction/orphan-recovery.ts: what the lines of a session file are, if the proof holds.
use whats_app_mcp_server.Base.{
  ℕ, suc, ◌<◌, ◌⊎◌, inl, inr, ◌≡◌, refl, sym, ap, subst, ◌∙◌, arith, Bool, true, false, ◌||◌,
  Option, none, some, ◌∷◌, if◌then◌else◌, Text, text, text_eq,
}
use whats_app_mcp_server.Json.{Members, ◌>>=◌, at, as_text}
use whats_app_mcp_server.Json.Inversion.{some-injective, none-some, if-some, bind-then, if-then}
use whats_app_mcp_server.Domain.Schemas.{binding_of, marker_of}
use whats_app_mcp_server.Domain.Mutations.{JournalRecord, journal_record_of}
use whats_app_mcp_server.Domain.Checkpoints.{CheckpointV1}
use whats_app_mcp_server.Scheduler.Work.{SessionBinding, CompletionMarker}
use whats_app_mcp_server.Session.Log.{
  entry_head, binding_type, completion_type, mutation_type, starts_with,
}
use whats_app_mcp_server.Session.Heads.{entry_head-kind}
use whats_app_mcp_server.Compaction.Orphan.{
  Subject, Proving, mark_unsafe, is_late, at_or_after, date_of, claim_of, weigh_claim,
  weigh_details, weigh_compaction, controller_details, prove_marker, prove_record, prove_binding,
  prove_custom, prove_shaped, prove_entry,
}

weighed :
    (c k : Bool) (x : Option Bool) (a : Bool)
    → (x ≡ some k → k ≡ a)
    → (if c then x else some false) ≡ some k
    → k ≡ (if c then a else false)
weighed true k x a f h = f h
weighed false k x a f h = sym (some-injective h)

not_late :
    (o q : Option ℕ)
    → at_or_after o q ≡ false
    → (o ≡ none) ⊎ (q ≡ none) ⊎ ((a : ℕ) × (b : ℕ) × (o ≡ some a) × (q ≡ some b) × (a < b))
not_late none q h = inl refl
not_late (some a) none h = inr (inl refl)
not_late (some a) (some b) h = inr (inr (a, b, refl, refl, ground (arith, h)))

module _ (p : Subject) where
  -- A marker or a record of the event.
  abbrev marks : Option CompletionMarker → Bool
  marks none = false
  marks (some m) = text_eq m.event_id p.event_id

  abbrev records : Option JournalRecord → Bool
  records none = false
  records (some r) = text_eq r.state.event_id p.event_id

  abbrev touches_by : Members → Option Text → Bool
  touches_by e none = false
  touches_by e (some kind) =
      if text_eq kind binding_type
      then false
      else if text_eq kind completion_type
      then marks (marker_of (at (text "data") e))
      else if text_eq kind mutation_type
      then records (journal_record_of (at (text "data") e))
      else false

  -- A compaction under the prepared checkpoint's id.
  abbrev claims_by : Option (Text × CheckpointV1) → Bool
  claims_by none = false
  claims_by (some (id, c)) = text_eq id p.prepared.checkpoint_id

  abbrev claims : Members → Option Members → Bool
  claims e none = false
  claims e (some details) = claims_by (claim_of p e details)

  -- What makes an entry speak against the proof: it is not older than the preparation, it is a
  -- compaction under the prepared checkpoint, or a marker or a tool call of the event.
  abbrev endangers_as : Members → Option Text → Bool
  endangers_as e none = false
  endangers_as e (some kind) =
      ((if text_eq kind (text "compaction")
          then claims e (controller_details (at (text "details") e))
          else false)
        || is_late p e)
      || (if text_eq kind (text "custom")
          then touches_by e (as_text (at (text "customType") e))
          else false)

  abbrev pub endangers : Members → Bool
  endangers e = endangers_as e (as_text (at (text "type") e))

  -- The flags after a step, when the step brings `c`.
  abbrev pub Moved : Bool → Proving → Proving → Type 0
  Moved c s t = (t.unsafe ≡ (s.unsafe || c)) × (t.header_seen ≡ s.header_seen)

  abbrev Brings : Bool → Proving → Option Proving → Proving → Type 0
  Brings c s o t = o ≡ some t → Moved c s t

  prove_marker-Brings :
      (o : Option CompletionMarker) (s t : Proving)
      → Brings (marks o) s (o >>= λ m. prove_marker p m s) t
  unfolding prove_marker
  prove_marker-Brings none s t h = absurd (none-some h)
  prove_marker-Brings (some m) s t h =
      let (c, same) = if-some _ (mark_unsafe (text_eq m.event_id p.event_id) s) h in
      (ap (λ z. z.unsafe) (sym same), ap (λ z. z.header_seen) (sym same))

  prove_record-Brings :
      (o : Option JournalRecord) (s t : Proving)
      → Brings (records o) s (o >>= λ r. prove_record p r s) t
  unfolding prove_record
  prove_record-Brings none s t h = absurd (none-some h)
  prove_record-Brings (some r) s t h =
      let (c, same) = if-some _ (mark_unsafe (text_eq r.state.event_id p.event_id) s) h in
      (ap (λ z. z.unsafe) (sym same), ap (λ z. z.header_seen) (sym same))

  unchanged_flag :
      (s t : Proving) → s.unsafe ≡ t.unsafe → s.header_seen ≡ t.header_seen → Moved false s t
  unchanged_flag s t h k = (ground arith, sym k)

  if-Brings :
      (c a b : Bool) (x y : Option Proving) (s t : Proving)
      → Brings a s x t
      → Brings b s y t
      → Brings (if c then a else b) s (if c then x else y) t
  if-Brings true a b x y s t f g = f
  if-Brings false a b x y s t f g = g

  prove_binding-Brings :
      (c : Option SessionBinding) (s t : Proving) → Brings false s (prove_binding p c s) t
  unfolding prove_binding
  prove_binding-Brings c s t h =
      let (d, same) = if-some _ (record s { binding_count = suc s.binding_count }) h in
      unchanged_flag s t (ap (λ z. z.unsafe) same) (ap (λ z. z.header_seen) same)

  by_kind :
      (e : Members) (kind : Text) (s t : Proving)
      → Brings
          (touches_by e (some kind))
          s
          (if text_eq kind binding_type
            then prove_binding p (binding_of (at (text "data") e)) s
            else if text_eq kind completion_type
            then (marker_of (at (text "data") e) >>= λ m. prove_marker p m s)
            else if text_eq kind mutation_type
            then (journal_record_of (at (text "data") e) >>= λ r. prove_record p r s)
            else if starts_with (text "whatsapp.controller.") kind
            then none
            else some s)
          t
  by_kind e kind s t =
      if-Brings (text_eq kind binding_type) _ _ _ _ s t
        (prove_binding-Brings (binding_of (at (text "data") e)) s t)
        (if-Brings (text_eq kind completion_type) _ _ _ _ s t
          (prove_marker-Brings (marker_of (at (text "data") e)) s t)
          (if-Brings (text_eq kind mutation_type) _ _ _ _ s t
            (prove_record-Brings (journal_record_of (at (text "data") e)) s t)
            (if-then _ _ _ (λ z. absurd (none-some z))
              (λ z.
                unchanged_flag s t (ap (λ w. w.unsafe) (some-injective z))
                  (ap (λ w. w.header_seen) (some-injective z))))))

  prove_custom-Brings :
      (e : Members) (s t : Proving)
      → Brings (touches_by e (as_text (at (text "customType") e))) s (prove_custom p e s) t
  unfolding prove_custom
  prove_custom-Brings e s t h =
      bind-then (as_text (at (text "customType") e)) _
        (λ kind q g. subst (λ o. Moved (touches_by e o) s t) (sym q) (by_kind e kind s t g)) h

  weigh_claim-claims :
      (late : Bool) (c : Text × CheckpointV1) (k : Bool)
      → weigh_claim p late c ≡ some k
      → k ≡ claims_by (some c)
  unfolding weigh_claim
  weigh_claim-claims late (id, c) k h = ground arith

  weigh_details-claims :
      (e : Members) (o : Option Members) (k : Bool) → weigh_details p e o ≡ some k → k ≡ claims e o
  weigh_details-claims e none k h =
      if-then (is_late p e) _ _ (λ z. absurd (none-some z)) (λ z. sym (some-injective z)) h
  weigh_details-claims e (some details) k h =
      bind-then (claim_of p e details) _
        (λ c q g. weigh_claim-claims (is_late p e) c k g ∙ ap claims_by (sym q)) h

  weigh_compaction-claims :
      (kind : Text) (e : Members) (k : Bool)
      → weigh_compaction p kind e ≡ some k
      → k ≡ (
          if text_eq kind (text "compaction")
          then claims e (controller_details (at (text "details") e))
          else false)
  unfolding weigh_compaction
  weigh_compaction-claims kind e k h =
      weighed (text_eq kind (text "compaction")) k _ _
        (if-then _ _ _ (weigh_details-claims e (controller_details (at (text "details") e)) k)
          (λ z. absurd (none-some z)))
        h

  after_mark :
      (s t u : Proving) (c d : Bool)
      → u.unsafe ≡ (s.unsafe || c)
      → u.header_seen ≡ s.header_seen
      → Moved d u t
      → Moved (c || d) s t
  after_mark s t u c d h k (m, n) = (ground arith, n ∙ k)

  prove_shaped-Brings :
      (kind id : Text) (e : Members) (s t : Proving)
      → Brings (endangers_as e (some kind)) s (prove_shaped p kind id e s) t
  unfolding prove_shaped
  prove_shaped-Brings kind id e s t =
      if-then _ _ _ (λ z. absurd (none-some z))
        (bind-then (weigh_compaction p kind e) _ (λ k q g.
          let u = mark_unsafe (k || is_late p e) (record s { ids = id ∷ s.ids }) in
          after_mark s t u _ _
            (ap (λ z. s.unsafe || (z || is_late p e)) (weigh_compaction-claims kind e k q)) refl
            (if-Brings (text_eq kind (text "custom")) _ _ _ _ u t (prove_custom-Brings e u t)
              (λ z.
                unchanged_flag u t (ap (λ w. w.unsafe) (some-injective z))
                  (ap (λ w. w.header_seen) (some-injective z)))
              g)))

  pub prove_entry-Brings :
      (e : Members) (s t : Proving) → Brings (endangers e) s (prove_entry p e s) t
  unfolding prove_entry
  prove_entry-Brings e s t = bind-then (entry_head p.language s.ids e) _ (λ h q g.
      subst (λ o. Moved (endangers_as e o) s t) (sym (entry_head-kind p.language s.ids e h q))
        (prove_shaped-Brings h.0 h.1 e s t g))

  -- The time of an entry lies before the preparation's, if both are times at all.
  abbrev pub Older : Members → Type 0
  Older e =
      let created = p.language.parse_date p.prepared.checkpoint.created_at in
      let appended = date_of p.language (as_text (at (text "timestamp") e)) in
      (appended ≡ none)
      ⊎ (created ≡ none)
      ⊎ ((a : ℕ) × (b : ℕ) × (appended ≡ some a) × (created ≡ some b) × (a < b))

  -- An entry of a type that is older, is no compaction under the prepared checkpoint's id, and no
  -- marker or tool call of the event.
  pub record Untouched (e : Members) : Type 0 where
    pub kind : Text
    pub typed : as_text (at (text "type") e) ≡ some kind
    pub older : Older e
    pub unclaimed :
        (if text_eq kind (text "compaction")
          then claims e (controller_details (at (text "details") e))
          else false)
        ≡ false
    pub untouched :
        (if text_eq kind (text "custom")
          then touches_by e (as_text (at (text "customType") e))
          else false)
        ≡ false

  harmless : (a b c : Bool) → ((a || b) || c) ≡ false → (a ≡ false) × (b ≡ false) × (c ≡ false)
  harmless a b c h = ground arith

  pub prove_entry-Untouched :
      (e : Members) (s t : Proving) → prove_entry p e s ≡ some t → endangers e ≡ false → Untouched e
  unfolding prove_entry
  prove_entry-Untouched e s t h quiet =
      bind-then (entry_head p.language s.ids e) _
        (λ head q g.
          let typed = entry_head-kind p.language s.ids e head q in
          let (a, b, c) = harmless _ _ _ (subst (λ o. endangers_as e o ≡ false) typed quiet) in
          record {
            kind = head.0;
            typed = typed;
            older =
                not_late (date_of p.language (as_text (at (text "timestamp") e)))
                  (p.language.parse_date p.prepared.checkpoint.created_at) b;
            unclaimed = a;
            untouched = c;
          })
        h
