-- ===== src/Redis/Claim.antt =====
-- `claim` and `recover-pel` of redis/scripts.ts: the next event, and only the next, is leased.
use whats_app_mcp_server.Base.{
  ℕ, ◌+◌, Bool, false, not, ◌&&◌, ◌||◌, Option, none, some, List, [], ◌∷◌, ltb, leb, ◌==◌,
  if◌then◌else◌, length, is_empty, Text, Dict, lookup, insert, values, is_some,
}
use whats_app_mcp_server.Redis.Decimal.{inc}
use whats_app_mcp_server.Redis.Store.{
  uncertain, ToolRecord, mutation_of, with_mutation, is_native, is_confirmed, Store, or_zero, Reply,
  lost, busy, paused, waiting, empty, claimed, recovered, store_unavailable, app_alive, chat_busy,
  barrier, with_state, set_pause, grant, mutation_uncertain, sequence_gap,
}

pub record ClaimArgs : Type 0 where
  pub app_owner : Text
  pub app_epoch : Text
  pub chat_owner : Text
  pub lease_ms : ℕ
  pub gap_timeout : ℕ
  pub group : Text

pub record RecoverArgs : Type 0 where
  pub app_owner : Text
  pub app_epoch : Text
  pub consumer : Text
  pub start : Text
  pub count : ℕ
  pub group : Text

-- A native record that is not confirmed is written back as uncertain, under its own attempt.
abbrev settle : ToolRecord → Dict ToolRecord → Dict ToolRecord
settle r m =
    let t = mutation_of r in
    if not (is_confirmed t.status) && is_native r
    then insert t.attempt_id (with_mutation r (record t { status = uncertain })) m
    else m

-- The loop over the journal.
unfoldable pub settle_all : List ToolRecord → Dict ToolRecord → Dict ToolRecord
settle_all [] m = m
settle_all (r ∷ rs) m = settle_all rs (settle r m)

unfoldable pub unresolved : List ToolRecord → Bool
unresolved [] = false
unresolved (r ∷ rs) = not (is_confirmed (mutation_of r).status) || unresolved rs

module _ {S : Type 0} where
  abbrev first_seen : Store S → ℕ → ℕ
  first_seen s now = elim s.state.gap [ none ↦ now | some since ↦ since ]

  -- No event has the next sequence.
  unfoldable pub claim_gap : Store S → ℕ → ClaimArgs → Store S × Reply
  claim_gap s now a =
      if is_empty s.events
      then (with_state s (record (s.state) { gap = none }), empty)
      else let since = first_seen s now in
        let t = with_state s (record (s.state) { gap = some since }) in
        if leb (since + a.gap_timeout) now
        then (barrier (set_pause t sequence_gap), paused)
        else (barrier t, waiting)

  -- `XCLAIM` answers with the ids that it claimed.
  unfoldable pub claim_event :
      (S → Text → Text → Text → S × List Text) → Store S → ℕ → ClaimArgs → Text → Store S × Reply
  claim_event xclaim s now a event = elim (lookup event s.events) [
    | none ↦ (s, lost)
    | some e ↦
        let epoch = inc (or_zero s.lease.epoch) in
        if ltb 32 (length epoch)
        then (s, lost)
        else let (stream, ids) = xclaim s.stream a.group a.chat_owner e.id in
          let t = record s { stream = stream } in
          if not (length ids == 1)
          then (t, lost)
          else let u = grant t now a.app_owner a.app_epoch a.chat_owner epoch event a.lease_ms in
            (
              barrier (with_state u (record (u.state) { gap = none })),
              claimed e.id e.raw (some epoch) (now + a.lease_ms),
            )
  ]

  unfoldable pub claim_next :
      (S → Text → Text → Text → S × List Text) → Store S → ℕ → ClaimArgs → Store S × Reply
  claim_next xclaim s now a = elim (lookup (inc (or_zero s.state.cursor)) s.seqs) [
    | none ↦ claim_gap s now a
    | some event ↦ claim_event xclaim s now a event
  ]

  unfoldable pub claim :
      (S → Text → Text → Text → S × List Text) → Store S → ℕ → ClaimArgs → Store S × Reply
  claim xclaim s now a =
      if not (app_alive s now a.app_owner a.app_epoch)
      then (s, lost)
      else if is_some s.state.pause
      then (s, paused)
      else if chat_busy s now a.app_owner a.app_epoch
      then (s, waiting)
      else let journal = values s.tools in
        let t = record s { tools = settle_all journal s.tools } in
        if unresolved journal
        then (barrier (set_pause t mutation_uncertain), paused)
        else claim_next xclaim t now a

  -- `XAUTOCLAIM` answers with a cursor, the claimed ids and the deleted ids, or with another shape.
  unfoldable pub recover_pel :
      (S → Text → Text → Text → ℕ → S × Option (Text × List Text × List Text))
      → Store S
      → ℕ
      → RecoverArgs
      → Store S × Reply
  recover_pel xautoclaim s now a =
      if not (app_alive s now a.app_owner a.app_epoch)
      then (s, lost)
      else if chat_busy s now a.app_owner a.app_epoch
      then (s, busy)
      else if is_some s.state.pause
      then (s, paused)
      else let (stream, reply) = xautoclaim s.stream a.group a.consumer a.start a.count in
        let t = record s { stream = stream } in
        elim reply [
          | none ↦ (t, store_unavailable)
          | some (next, ids, deleted) ↦
              let u = if is_empty deleted then t else set_pause t sequence_gap in
              (barrier u, recovered next (length ids) (length deleted))
        ]
