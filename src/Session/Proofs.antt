-- ===== src/Session/Proofs.antt =====
-- pi/completion-index.ts: what the proofs that a session file gives have in common.
use whats_app_mcp_server.Base.{
  ap, ◌≡◌, ◌≢◌, refl, arith, true, false, Option, none, some, List, [], ◌∷◌, ◌++◌, Text,
  text_eq_iff, ==_iff, text, subst,
}
use whats_app_mcp_server.Base.Each.{Each, Apart, Each-map, Each-append, Apart-append}
use whats_app_mcp_server.Json.{Members, at, as_object, as_text}
use whats_app_mcp_server.Json.Inversion.{guard-some, none-some, some-injective, if-then, bind-then}
use whats_app_mcp_server.Domain.Schemas.{marker_of, binding_of}
use whats_app_mcp_server.Intake.Payload.{includes}
use whats_app_mcp_server.Scheduler.Work.{SessionBinding, CompletionMarker, CompletionProof}
use whats_app_mcp_server.Session.Log.{Language, entry_head, is_header}
use whats_app_mcp_server.Session.Evidence.{
  Reading, unread, adds, takes_marker, has_sequence, consume_binding, consume_completion,
  consume_custom, consume_shaped, consume_entry, consume, consume_all, Chunk, broken, text_chunk,
  lines_of, read_chunks, scanned, finished, Attempt,
}

-- Two proofs of different events, with different sequences.
abbrev pub Differ : CompletionProof → CompletionProof → Type 0
Differ p q =
    (p.marker.event_id ≢ q.marker.event_id) × (p.marker.chat_sequence ≢ q.marker.chat_sequence)

-- A proof in the binding's session, of its chat.
abbrev pub Of : SessionBinding → CompletionProof → Type 0
Of b p = (p.session ≡ b) × (p.marker.canonical_chat_id ≡ b.canonical_chat_id)

-- The sets of events and sequences have the proof's.
abbrev Noted : Reading → CompletionProof → Type 0
Noted s p =
    (includes s.events p.marker.event_id ≡ true)
    × (has_sequence s.sequences p.marker.chat_sequence ≡ true)

record Sound (b : SessionBinding) (s : Reading) : Type 0 where
  of : Each (Of b) s.proofs
  noted : Each (Noted s) s.proofs
  apart : Apart Differ s.proofs

module _ (l : Language) (b : SessionBinding) where
  Noted-adds :
      (s : Reading) (id : Text) (m : CompletionMarker) (p : CompletionProof)
      → Noted s p
      → Noted (adds s b id m) p
  unfolding includes has_sequence
  Noted-adds s id m p n = ground arith

  adds-Noted :
      (s : Reading) (id : Text) (m : CompletionMarker)
      → Noted (adds s b id m) (record { marker = m; entry_id = id; session = b })
  unfolding includes has_sequence
  adds-Noted s id m =
      ground (arith, text_eq_iff m.event_id m.event_id, ==_iff m.chat_sequence m.chat_sequence)

  differs_new :
      (s : Reading) (id : Text) (m : CompletionMarker) (p : CompletionProof)
      → includes s.events m.event_id ≡ false
      → has_sequence s.sequences m.chat_sequence ≡ false
      → Noted s p
      → Differ p (record { marker = m; entry_id = id; session = b })
  differs_new s id m p e q (n, k) = (
    λ h. ground (arith, subst (λ x. includes s.events x ≡ true) h n),
    λ h. ground (arith, subst (λ x. has_sequence s.sequences x ≡ true) h k),
  )

  adds-Sound :
      (s : Reading) (id : Text) (m : CompletionMarker)
      → Sound b s
      → m.canonical_chat_id ≡ b.canonical_chat_id
      → includes s.events m.event_id ≡ false
      → has_sequence s.sequences m.chat_sequence ≡ false
      → Sound b (adds s b id m)
  adds-Sound s id m h c e q =
      let new : CompletionProof = record { marker = m; entry_id = id; session = b } in
      record {
        of = Each-append (Of b) s.proofs (new ∷ []) h.of ((refl, c), tt);
        noted =
            Each-append (Noted (adds s b id m)) s.proofs (new ∷ [])
              (Each-map (Noted s) (Noted (adds s b id m)) s.proofs (Noted-adds s id m) h.noted)
              (adds-Noted s id m, tt);
        apart = Apart-append Differ s.proofs new h.apart (
            Each-map (Noted s) (λ p. Differ p new) s.proofs (λ p. differs_new s id m p e q)
              h.noted);
      }

  takes_marker-some :
      (id : Text) (s t : Reading) (m : CompletionMarker)
      → takes_marker l b id s m ≡ some t
      → (adds s b id m ≡ t)
        × (m.canonical_chat_id ≡ b.canonical_chat_id)
        × (includes s.events m.event_id ≡ false)
        × (has_sequence s.sequences m.chat_sequence ≡ false)
  unfolding takes_marker
  takes_marker-some id s t m g = ground (arith, text_eq_iff m.canonical_chat_id b.canonical_chat_id)

  -- A step that keeps what is sound.
  abbrev Keeps : (Reading → Option Reading) → Type 0
  Keeps f = (s t : Reading) → Sound b s → f s ≡ some t → Sound b t

  consume_completion-Sound : (id : Text) (e : Members) → Keeps (consume_completion l b id e)
  unfolding consume_completion
  consume_completion-Sound id e s t h g =
      bind-then (marker_of (at (text "data") e)) _
        (λ m p k.
          let (u, c, i, q) = takes_marker-some id s t m k in
          subst (Sound b) u (adds-Sound s id m h c i q))
        g

  consume_binding-Sound : (e : Members) → Keeps (consume_binding l b e)
  unfolding consume_binding
  consume_binding-Sound e s t h g =
      bind-then (binding_of (at (text "data") e)) _
        (λ c p k.
          subst (Sound b) (some-injective (guard-some _ _ k).1)
            (record { of = h.of; noted = h.noted; apart = h.apart }))
        g

  consume_custom-Sound : (id : Text) (e : Members) → Keeps (consume_custom l b id e)
  unfolding consume_custom
  consume_custom-Sound id e s t h g =
      bind-then (as_text (at (text "customType") e)) _
        (λ kind p k.
          if-then _ _ _ (consume_binding-Sound e s t h)
            (if-then _ _ _ (consume_completion-Sound id e s t h) (
              if-then _ _ _ (λ n. absurd (none-some n))
                (λ n. subst (Sound b) (some-injective n) h)))
            k)
        g

  consume_shaped-Sound : (kind id : Text) (e : Members) → Keeps (consume_shaped l b kind id e)
  unfolding consume_shaped
  consume_shaped-Sound kind id e s t h g =
      let k : Sound b (record s { ids = id ∷ s.ids }) = record {
        of = h.of;
        noted = h.noted;
        apart = h.apart;
      } in
      if-then _ _ _ (λ n. absurd (none-some n))
        (if-then _ _ _ (consume_custom-Sound id e _ t k)
          (λ n. subst (Sound b) (some-injective n) k))
        g

  consume_entry-Sound : (e : Members) → Keeps (consume_entry l b e)
  unfolding consume_entry
  consume_entry-Sound e s t h g =
      bind-then (entry_head l s.ids e) _ (λ q r. consume_shaped-Sound q.0 q.1 e s t h) g

  consume-Sound : (line : Text) → Keeps (consume l b line)
  unfolding consume
  consume-Sound line s t h g =
      let k : Sound b (record s { header_seen = true }) = record {
        of = h.of;
        noted = h.noted;
        apart = h.apart;
      } in
      bind-then (as_object (l.parse line)) _
        (λ e p. if-then s.header_seen _ _ (consume_entry-Sound e s t h) (
          if-then (is_header l b.session_id e) (some (record s { header_seen = true })) none
            (λ n. subst (Sound b) (some-injective n) k) (λ n. absurd (none-some n))))
        g

  consume_all-Sound : (xs : List Text) → Keeps (consume_all l b xs)
  unfolding consume_all
  consume_all-Sound [] s t h g = subst (Sound b) (some-injective g) h
  consume_all-Sound (x ∷ xs) s t h g =
      bind-then (consume l b x s) _ (λ u p. consume_all-Sound xs u t (consume-Sound x s u h p)) g

  read_chunks-Sound :
      (cs : List Chunk) (pending rest : Text) (s t : Reading)
      → Sound b s
      → read_chunks l b cs pending s ≡ some (rest, t)
      → Sound b t
  unfolding read_chunks
  read_chunks-Sound [] pending rest s t h g = subst (Sound b) (ap (λ x. x.1) (some-injective g)) h
  read_chunks-Sound (broken ∷ cs) pending rest s t h g = absurd (none-some g)
  read_chunks-Sound (text_chunk x ∷ cs) pending rest s t h g =
      let p = lines_of (pending ++ x) in
      bind-then (consume_all l b p.0 s) _
        (λ u q. read_chunks-Sound cs p.1 rest u t (consume_all-Sound p.0 s u h q)) g

  -- Proofs of the session and its chat, no two of one event or one sequence.
  abbrev pub Indexed : List CompletionProof → Type 0
  Indexed ps = Each (Of b) ps × Apart Differ ps

  finished-Indexed :
      (o : Option (Text × Reading)) (ps : List CompletionProof)
      → ((p : Text × Reading) → o ≡ some p → Sound b p.1)
      → finished o ≡ some ps
      → Indexed ps
  finished-Indexed none ps h g = absurd (none-some g)
  finished-Indexed (some (pending, s)) ps h g =
      let k = h (pending, s) refl in
      if-then _ _ _ (λ n. subst Indexed (some-injective n) (k.of, k.apart))
        (λ n. absurd (none-some n)) g

  pub scanned-Indexed :
      (a : Attempt) (ps : List CompletionProof) → scanned l b a ≡ some ps → Indexed ps
  unfolding scanned
  scanned-Indexed a ps =
      if-then a.flushes _ _
        (finished-Indexed (read_chunks l b a.chunks [] unread) ps (λ p.
          read_chunks-Sound a.chunks [] p.0 unread p.1
            (record { of = tt; noted = tt; apart = tt })))
        (λ n. absurd (none-some n))
