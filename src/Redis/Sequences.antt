-- ===== src/Redis/Sequences.antt =====
-- redis/scripts.ts: events are leased and completed in the order of their sequences.
use whats_app_mcp_server.Base.{
  ℕ, ◌+◌, Bool, false, true, Option, none, some, List, Text, text_eq_iff, text_eq_refl, ◌≡◌, ◌⊎◌,
  refl, ap, arith, Option-cases, inl, inr, lookup, insert, remove, lookup-remove,
}
use whats_app_mcp_server.Redis.Decimal.{inc, less, value, IsNumeral, inc-value, less-value}
use whats_app_mcp_server.Redis.Store.{Event, Store, Work, accepted, claimed, or_zero, work}
use whats_app_mcp_server.Redis.Intake.{AcceptArgs}
use whats_app_mcp_server.Redis.Claim.{ClaimArgs}
use whats_app_mcp_server.Redis.Turn.{Sent}
use whats_app_mcp_server.Redis.Script.{Ports, Call, init_chat, accepts, completes, claims, run}
use whats_app_mcp_server.Redis.Order.{Ordered, admit-Ordered, finish-Ordered}

abbrev keeps_order : Call → Bool
keeps_order (accepts a) = false
keeps_order (completes w session group sends) = false
keeps_order _ = true

-- The work that a call completes.
abbrev pub completed_work : Call → Option Work
completed_work (completes w session group sends) = some w
completed_work _ = none

-- The record of an accepted event, at the place that the stream gave it.
abbrev entry_of : AcceptArgs → Text → Event
entry_of a id = record { id = id; fp = a.fingerprint; seq = a.seq; raw = a.raw }

module _ {S : Type 0} where
  pub record IsOrdered (s : Store S) : Type 0 where
    pub order : Ordered s.events s.seqs (or_zero s.state.cursor)

  -- The order is left alone.
  abbrev SameOrder : Store S → Store S → Type 0
  SameOrder s t =
      (t.events ≡ s.events) × (t.seqs ≡ s.seqs) × (or_zero t.state.cursor ≡ or_zero s.state.cursor)

  -- A new event is entered, behind the cursor and under a free sequence.
  abbrev Admits : Store S → Store S → AcceptArgs → Text → Type 0
  Admits s t a id =
      (lookup a.event s.events ≡ none)
      × ((lookup a.seq s.seqs ≡ none) ⊎ (lookup a.seq s.seqs ≡ some a.event))
      × (less (or_zero s.state.cursor) a.seq ≡ true)
      × (t.events ≡ insert a.event (entry_of a id) s.events)
      × (t.seqs ≡ insert a.seq a.event s.seqs)
      × (t.state.cursor ≡ s.state.cursor)

  -- The next event is done and gone, and the cursor stands on its sequence.
  abbrev Finishes : Store S → Store S → Work → Event → Type 0
  Finishes s t w e =
      (lookup w.event s.events ≡ some e)
      × (e.seq ≡ inc (or_zero s.state.cursor))
      × (t.events ≡ remove w.event s.events)
      × (t.seqs ≡ remove e.seq s.seqs)
      × (t.state.cursor ≡ some e.seq)

module _ {S : Type 0} (p : Ports S) (s : Store S) (now : ℕ) where
  keeps_order-SameOrder : (c : Call) → keeps_order c ≡ true → SameOrder s (run p s now c).0
  unfolding run
  keeps_order-SameOrder (init_chat chat group) h = ground arith
  keeps_order-SameOrder _ h = ground arith

  accepts_cases :
      (a : AcceptArgs)
      → let t = (run p s now (accepts a)).0 in
        SameOrder s t
        ⊎ Admits s t a (p.xadd s.stream a.event).1 × ((run p s now (accepts a)).1 ≡ accepted)
  unfolding run
  accepts_cases a = elim (Option-cases (lookup a.seq s.seqs)) [
    | inl free ↦ ground (arith, free)
    | inr (k, taken) ↦ ground (arith, taken, text_eq_iff k a.event)
  ]

  work_held : (w : Work) (e : Event) → work s now w ≡ some e → lookup w.event s.events ≡ some e
  unfolding work
  work_held w e h = ground arith

  completes_held :
      (w : Work) (session group : Text) (sends : List Sent) (e : Event)
      → work s now w ≡ some e
      → let t = (run p s now (completes w session group sends)).0 in
        SameOrder s t ⊎ Finishes s t w e
  unfolding run
  completes_held w session group sends e h =
      ground (arith, work_held w e h, text_eq_iff e.seq (inc (or_zero s.state.cursor)))

  completes_cases :
      (w : Work) (session group : Text) (sends : List Sent)
      → let t = (run p s now (completes w session group sends)).0 in
        SameOrder s t ⊎ ((e : Event) × Finishes s t w e)
  unfolding run
  completes_cases w session group sends = elim (Option-cases (work s now w)) [
    | inl gone ↦ inl (ground (arith, gone))
    | inr (e, h) ↦ elim (completes_held w session group sends e h) [
      | inl same ↦ inl same
      | inr done ↦ inr (e, done)
    ]
  ]

  move_order : {t : Store S} → SameOrder s t → IsOrdered s → IsOrdered t
  move_order {t} (e, q, c) o = record { order = rw (e, q, c) o.order }

-- Sequences come as numerals of positive numbers, as `SequenceSchema` has them.
abbrev pub HasNumeral : Call → Type 0
HasNumeral (accepts a) = IsNumeral a.seq
HasNumeral _ = Unit {0}

module _ {S : Type 0} (p : Ports S) (s : Store S) (now : ℕ) (o : IsOrdered s) where
  -- A sequence of the event itself is free too, if the event is not there.
  free_seq :
      (k q : Text)
      → lookup k s.events ≡ none
      → (lookup q s.seqs ≡ none) ⊎ (lookup q s.seqs ≡ some k)
      → lookup q s.seqs ≡ none
  free_seq k q fresh (inl free) = free
  free_seq k q fresh (inr taken) =
      let (e, held, seq) = o.order.named q k taken in absurd (cc (fresh, held))

  accepts-IsOrdered : (a : AcceptArgs) → IsNumeral a.seq → IsOrdered (run p s now (accepts a)).0
  accepts-IsOrdered a n = elim (accepts_cases p s now a) [
    | inl same ↦ move_order p s now same o
    | inr ((fresh, free, later, events, seqs, cursor), _) ↦ record {
      order =
          rw (events, seqs, cursor)
            (admit-Ordered _ _ _ o.order a.event (entry_of a (p.xadd s.stream a.event).1) fresh
              (free_seq a.event a.seq fresh free) n ((less-value _ _ o.order.numeral n).0 later));
    }
  ]

  completes-IsOrdered :
      (w : Work) (session group : Text) (sends : List Sent)
      → IsOrdered (run p s now (completes w session group sends)).0
  completes-IsOrdered w session group sends = elim (completes_cases p s now w session group sends) [
    | inl same ↦ move_order p s now same o
    | inr (e, (held, next, events, seqs, cursor)) ↦ record {
      order = rw (events, seqs, cursor) (finish-Ordered _ _ _ o.order w.event e held next);
    }
  ]

  -- Where every waiting event has its own sequence ahead of the cursor, and the index of sequences
  -- names just these, every call keeps it so, an acceptance under a sequence that is a numeral.
  pub run-IsOrdered : (c : Call) → HasNumeral c → IsOrdered (run p s now c).0
  run-IsOrdered (accepts a) n = accepts-IsOrdered a n
  run-IsOrdered (completes w session group sends) n = completes-IsOrdered w session group sends
  run-IsOrdered (init_chat chat group) n =
      move_order p s now (keeps_order-SameOrder p s now (init_chat chat group) refl) o
  run-IsOrdered _ n = move_order p s now (keeps_order-SameOrder p s now _ refl) o

  gone : (t : Store S) (w : Work) (e : Event) → Finishes s t w e → lookup w.event t.events ≡ none
  gone t w e done =
      ground (arith, done, lookup-remove w.event w.event s.events, text_eq_refl w.event)

  -- A call leaves the cursor, or completes the next event and moves the cursor to its sequence.
  pub cursor_step :
      (c : Call)
      → let t = (run p s now c).0 in
        (or_zero t.state.cursor ≡ or_zero s.state.cursor)
        ⊎ ((w : Work) × (e : Event) × (completed_work c ≡ some w)
            × (lookup w.event s.events ≡ some e)
            × (t.state.cursor ≡ some e.seq)
            × (value e.seq ≡ value (or_zero s.state.cursor) + 1)
            × (lookup w.event t.events ≡ none))
  cursor_step (completes w session group sends) =
      elim (completes_cases p s now w session group sends) [
        | inl same ↦ inl same.2
        | inr (e, done) ↦ inr (
          w,
          e,
          refl,
          done.0,
          done.4,
          rw done.1 ((inc-value _ o.order.numeral).0),
          gone (run p s now (completes w session group sends)).0 w e done,
        )
      ]
  cursor_step (accepts a) = elim (accepts_cases p s now a) [
    | inl same ↦ inl same.2
    | inr (new, _) ↦ inl (ap or_zero new.5)
  ]
  cursor_step (init_chat chat group) =
      inl ((keeps_order-SameOrder p s now (init_chat chat group) refl).2)
  cursor_step _ = inl ((keeps_order-SameOrder p s now _ refl).2)

  -- What `claim` grants is the event whose sequence follows the cursor, with its own id and text,
  -- and the lease names it.
  pub claim_in_order :
      (t : Store S) (a : ClaimArgs) (id raw : Text) (epoch : Option Text) (until : ℕ)
      → run p s now (claims a) ≡ (t, claimed id raw epoch until)
      → (k : Text) × (e : Event) × (lookup k s.events ≡ some e)
        × (value e.seq ≡ value (or_zero s.state.cursor) + 1)
        × (id ≡ e.id)
        × (raw ≡ e.raw)
        × (t.lease.event ≡ some k)
        × (lookup k t.events ≡ some e)
  unfolding run
  claim_in_order t a id raw epoch until r =
      elim (Option-cases (lookup (inc (or_zero s.state.cursor)) s.seqs)) [
        | inl nothing ↦ absurd (ground (arith, nothing, r))
        | inr (k, found) ↦
            let (e, held, seq) = o.order.named (inc (or_zero s.state.cursor)) k found in
            (
              k,
              e,
              held,
              rw seq ((inc-value _ o.order.numeral).0),
              ground (arith, found, held, r),
              ground (arith, found, held, r),
              ground (arith, found, held, r),
              ground (arith, found, held, r),
            )
      ]
