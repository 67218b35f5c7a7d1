-- ===== src/Session/Misses.antt =====
-- pi/completion-index.ts: what it says of the sessions of all chats that a lookup finds nothing.
use whats_app_mcp_server.Base.{
  ◌≡◌, refl, ap, subst, sym, arith, Bool, true, false, ◌||◌, Option, none, some, List, [], ◌∷◌,
  ◌++◌, if◌then◌else◌, any, Text,
}
use whats_app_mcp_server.Base.Each.{Each, Each-map}
use whats_app_mcp_server.Json.Inversion.{some-injective, none-some}
use whats_app_mcp_server.Intake.Payload.{includes}
use whats_app_mcp_server.Scheduler.Work.{SessionBinding, CompletionProof}
use whats_app_mcp_server.Session.Index.{Index, Looks, Row, file_evidence, sampled_first, identity}
use whats_app_mcp_server.Session.Lookup.{
  rebuild_from, rebuild, with_events, with_evidence, with_file, with_session, note_events,
}
use whats_app_mcp_server.Session.Serving.{
  CacheHolds, ReadingsHold, Serves, Served, file_evidence-Served,
}

neither : (a b : Bool) → (a || b) ≡ false → (a ≡ false) × (b ≡ false)
neither a b h = ground arith

any-append :
    {A : Type 0} (P : A → Bool) (xs ys : List A)
    → any P (xs ++ ys) ≡ false
    → (any P xs ≡ false) × (any P ys ≡ false)
any-append P [] ys h = (refl, h)
any-append P (x ∷ xs) ys h =
    let (p, q) = neither (P x) (any P (xs ++ ys)) h in
    let (r, s) = any-append P xs ys q in (ground (arith, p, r), s)

module _ (R : Text → List CompletionProof → Type 0) (P : CompletionProof → Bool) where
  -- The session was neither reserved nor poisoned, and its proofs, which have `R`, have none with `P`.
  abbrev pub Clean : Index → Option SessionBinding → Type 0
  Clean x none = Unit {0}
  Clean x (some b) =
      (ps : List CompletionProof) × (includes x.pending b.session_file ≡ false)
      × (includes x.poisoned b.session_file ≡ false)
      × R b.session_file ps
      × (any P ps ≡ false)

  -- What a lookup that ends without a proof with `P` says.
  abbrev Told :
      List Row → List CompletionProof → Index → Index × Option (List CompletionProof) → Type 0
  Told rs all x (y, none) = Unit {0}
  Told rs all x (y, some out) =
      any P out ≡ false → Each (λ r. Clean x r.binding) rs × (any P all ≡ false)

  told :
      (rs : List Row) (all : List CompletionProof) (x : Index)
      (z : Index × Option (List CompletionProof)) (out : List CompletionProof)
      → Told rs all x z
      → z.1 ≡ some out
      → any P out ≡ false
      → Each (λ r. Clean x r.binding) rs
  told rs all x (y, none) out t e g = absurd (none-some e)
  told rs all x (y, some qs) out t e g =
      (t (subst (λ k. any P k ≡ false) (sym (some-injective e)) g)).0

  module _ (looks : SessionBinding → Looks) (hold : ReadingsHold R looks) where
    unpoisoned :
        (e : Bool) (x y : Index) (ps : List CompletionProof)
        (v : Index × Option (List CompletionProof))
        → (if e then (x, none) else v) ≡ (y, some ps)
        → e ≡ false
    unpoisoned true x y ps v h = absurd (none-some (ap (λ z. z.1) h))
    unpoisoned false x y ps v h = refl

    file_evidence-unpoisoned :
        (b : SessionBinding) (l : Looks) (x y : Index) (ps : List CompletionProof)
        → file_evidence b l x ≡ (y, some ps)
        → includes x.poisoned b.session_file ≡ false
    unfolding file_evidence
    file_evidence-unpoisoned b l x y ps h =
        unpoisoned (includes x.poisoned b.session_file) x y ps
          (sampled_first b x l (identity l.on_path l.before)) h

    -- The same rows against the index before a call that served.
    Clean-before :
        (x y : Index) (o : Option SessionBinding)
        → y.pending ≡ x.pending
        → y.poisoned ≡ x.poisoned
        → Clean y o
        → Clean x o
    Clean-before x y none p q c = tt
    Clean-before x y (some b) p q (ps, r, s, t, u) = (
      ps,
      subst (λ z. includes z b.session_file ≡ false) p r,
      subst (λ z. includes z b.session_file ≡ false) q s,
      t,
      u,
    )

    -- The rest of the loop.
    abbrev Rest : List Row → Type 0
    Rest rs =
        (ids : List Text) (all : List CompletionProof) (x : Index)
        → CacheHolds R x
        → Told rs all x (rebuild_from looks rs ids all x)

    with_row :
        (r : Row) (rs : List Row) (all ps : List CompletionProof) (x y : Index)
        (z : Index × Option (List CompletionProof))
        → (any P ps ≡ false → Clean x r.binding)
        → y.pending ≡ x.pending
        → y.poisoned ≡ x.poisoned
        → Told rs (all ++ ps) y z
        → Told (r ∷ rs) all x z
    with_row r rs all ps x y (w, none) c p q t = tt
    with_row r rs all ps x y (w, some out) c p q t = λ g.
        let (rows, both) = t g in
        let (mine, theirs) = any-append P all ps both in
        (
          (
            c theirs,
            Each-map (λ k. Clean y k.binding) (λ k. Clean x k.binding) rs
                (λ k. Clean-before x y k.binding p q) rows,
          ),
          mine,
        )

    module _ (r : Row) (rs : List Row) (ids : List Text) (all : List CompletionProof) (x : Index)
        (b : SessionBinding) (rest : Rest rs) (e : r.binding ≡ some b) where
      with_events-Told :
          (ps : List CompletionProof) (y : Index) (o : Option (List Text))
          → (any P ps ≡ false → Clean x r.binding)
          → Serves R b x y ps
          → Told (r ∷ rs) all x (with_events (rebuild_from looks rs) all y ps o)
      with_events-Told ps y none c s = tt
      with_events-Told ps y (some seen) c s =
          with_row r rs all ps x y (rebuild_from looks rs seen (all ++ ps) y) c s.pending s.poisoned
            (rest seen (all ++ ps) y s.cached)

      with_evidence-Told :
          (z : Index × Option (List CompletionProof))
          → includes x.pending b.session_file ≡ false
          → file_evidence b (looks b) x ≡ z
          → Served R b x z
          → Told (r ∷ rs) all x (with_evidence (rebuild_from looks rs) ids all z)
      with_evidence-Told (y, none) p f s = tt
      with_evidence-Told (y, some ps) p f s =
          with_events-Told ps y (note_events ids ps)
            (λ g.
              subst (Clean x) (sym e)
                (ps, p, file_evidence-unpoisoned b (looks b) x y ps f, s.good, g))
            s

      with_file-Told :
          (c : Bool)
          → CacheHolds R x
          → includes x.pending b.session_file ≡ c
          → Told (r ∷ rs) all x (with_file looks (rebuild_from looks rs) ids all x b c)
      with_file-Told true h p = tt
      with_file-Told false h p =
          with_evidence-Told (file_evidence b (looks b) x) p refl
            (file_evidence-Served R b x h (looks b) (hold b))

    with_nothing :
        (r : Row) (rs : List Row) (all : List CompletionProof) (x : Index)
        (z : Index × Option (List CompletionProof))
        → r.binding ≡ none
        → Told rs all x z
        → Told (r ∷ rs) all x z
    with_nothing r rs all x (y, none) e t = tt
    with_nothing r rs all x (y, some out) e t =
        λ g. let (rows, mine) = t g in ((subst (Clean x) (sym e) tt, rows), mine)

    with_session-Told :
        (r : Row) (rs : List Row) (ids : List Text) (all : List CompletionProof) (x : Index)
        (o : Option SessionBinding)
        → Rest rs
        → CacheHolds R x
        → r.binding ≡ o
        → Told (r ∷ rs) all x (with_session looks (rebuild_from looks rs) ids all x o)
    with_session-Told r rs ids all x none rest h e =
        with_nothing r rs all x (rebuild_from looks rs ids all x) e (rest ids all x h)
    with_session-Told r rs ids all x (some b) rest h e =
        with_file-Told r rs ids all x b rest e (includes x.pending b.session_file) h refl

    rebuild_from-Told : (rs : List Row) → Rest rs
    unfolding rebuild_from
    rebuild_from-Told [] ids all x h = λ g. (tt, g)
    rebuild_from-Told (r ∷ rs) ids all x h =
        with_session-Told r rs ids all x r.binding (rebuild_from-Told rs) h refl

    pub rebuild-Clean :
        (rs : List Row) (x : Index) (out : List CompletionProof)
        → CacheHolds R x
        → (rebuild looks rs x).1 ≡ some out
        → any P out ≡ false
        → Each (λ r. Clean x r.binding) rs
    unfolding rebuild
    rebuild-Clean rs x out h =
        told rs [] x (rebuild_from looks rs [] [] x) out (rebuild_from-Told rs [] [] x h)
