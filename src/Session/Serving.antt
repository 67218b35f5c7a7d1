-- ===== src/Session/Serving.antt =====
-- pi/completion-index.ts: what the index serves, and what a miss says of all sessions.
use whats_app_mcp_server.Base.{
  ◌≡◌, refl, subst, sym, ◌∙◌, arith, Bool, true, false, Option, none, some, List, if◌then◌else◌,
  Text, text_eq, text_eq_iff, lookup, insert, lookup-insert,
}
use whats_app_mcp_server.Json.Inversion.{some-injective}
use whats_app_mcp_server.Intake.Payload.{includes}
use whats_app_mcp_server.Scheduler.Work.{SessionBinding, CompletionProof}
use whats_app_mcp_server.Session.Evidence.{
  Stat, same_file, Findings, failure, not_durable, evidence,
}
use whats_app_mcp_server.Session.Index.{
  Index, Cached, Looks, file_evidence, in_cache, sampled, kept_if, read_into, from_cache,
  sampled_first,
}

hit_same :
    (e f : Bool) (qs ps : List CompletionProof)
    → (if e then some (if f then some qs else none) else some none) ≡ some (some ps)
    → qs ≡ ps
hit_same e f qs ps g = ground (arith, g)

hit :
    (d : Cached) (s : Stat) (c : Option Stat) (ps : List CompletionProof)
    → (if same_file d.identity s then sampled c s d.proofs else some none) ≡ some (some ps)
    → d.proofs ≡ ps
hit d s none ps g = ground (arith, g)
hit d s (some t) ps g = hit_same (same_file d.identity s) (same_file s t) d.proofs ps g

-- A property of the proofs of a file.
module _ (R : Text → List CompletionProof → Type 0) where
  -- All that is cached has it.
  abbrev pub CacheHolds : Index → Type 0
  CacheHolds x = (file : Text) (c : Cached) → lookup file x.cache ≡ some c → R file c.proofs

  -- The readings have `R`.
  abbrev pub ReadingsHold : (SessionBinding → Looks) → Type 0
  ReadingsHold looks =
      (b : SessionBinding) (ps : List CompletionProof)
      → (looks b).reading ≡ evidence ps
      → R b.session_file ps

  -- What a call of `evidence` serves has it, and what is cached keeps it; nothing becomes reserved
  -- or poisoned by a call that serves.
  pub record Serves (b : SessionBinding) (x y : Index) (ps : List CompletionProof) : Type 0 where
    pub good : R b.session_file ps
    pub cached : CacheHolds y
    pub pending : y.pending ≡ x.pending
    pub poisoned : y.poisoned ≡ x.poisoned

  abbrev pub Served : SessionBinding → Index → Index × Option (List CompletionProof) → Type 0
  Served b x (y, none) = Unit {0}
  Served b x (y, some ps) = Serves b x y ps

  module _ (b : SessionBinding) (x : Index) (h : CacheHolds x) where
    if-Served :
        (c : Bool) (u v : Index × Option (List CompletionProof))
        → Served b x u
        → Served b x v
        → Served b x (if c then u else v)
    if-Served true u v p q = p
    if-Served false u v p q = q

    at_file :
        (e : Bool) (file : Text) (k c : Cached)
        → text_eq b.session_file file ≡ e
        → R b.session_file k.proofs
        → (if e then some k else lookup file x.cache) ≡ some c
        → R file c.proofs
    at_file true file k c e r g =
        subst (λ f. R f c.proofs) ((text_eq_iff b.session_file file).0 e)
          (subst (λ z. R b.session_file z.proofs) (some-injective g) r)
    at_file false file k c e r g = h file c g

    cached_now :
        (k : Cached)
        → R b.session_file k.proofs
        → CacheHolds (record x { cache = insert b.session_file k x.cache })
    cached_now k r file c g =
        at_file (text_eq b.session_file file) file k c refl r
          (sym (lookup-insert b.session_file file k x.cache) ∙ g)

    kept_if-Served :
        (s : Stat) (qs : List CompletionProof) (after : Option Stat)
        → R b.session_file qs
        → Served b x (kept_if b x s qs after)
    kept_if-Served s qs none r = tt
    kept_if-Served s qs (some t) r =
        if-Served (same_file s t) _ _
          (record {
            good = r;
            cached = cached_now (record { identity = t; proofs = qs }) r;
            pending = refl;
            poisoned = refl;
          })
          (record { good = r; cached = h; pending = refl; poisoned = refl })

    read_into-Served :
        (s : Stat) (e : Findings) (after : Option Stat)
        → ((ps : List CompletionProof) → e ≡ evidence ps → R b.session_file ps)
        → Served b x (read_into b x s e after)
    read_into-Served s failure after r = tt
    read_into-Served s not_durable after r = tt
    read_into-Served s (evidence ps) after r = kept_if-Served s ps after (r ps refl)

    from_cache-Served :
        (l : Looks) (s : Stat) (o : Option (Option (List CompletionProof)))
        → ((ps : List CompletionProof) → l.reading ≡ evidence ps → R b.session_file ps)
        → ((ps : List CompletionProof) → o ≡ some (some ps) → R b.session_file ps)
        → Served b x (from_cache b x l s o)
    from_cache-Served l s none r k = tt
    from_cache-Served l s (some none) r k = read_into-Served s l.reading _ r
    from_cache-Served l s (some (some ps)) r k = record {
      good = k ps refl;
      cached = h;
      pending = refl;
      poisoned = refl;
    }

    in_cache-R :
        (o : Option Cached) (s : Stat) (c : Option Stat) (ps : List CompletionProof)
        → ((k : Cached) → o ≡ some k → R b.session_file k.proofs)
        → in_cache o s c ≡ some (some ps)
        → R b.session_file ps
    unfolding in_cache
    in_cache-R none s c ps k g = absurd (ground (arith, g))
    in_cache-R (some d) s c ps k g = subst (R b.session_file) (hit d s c ps g) (k d refl)

    sampled_first-Served :
        (l : Looks) (o : Option Stat)
        → ((ps : List CompletionProof) → l.reading ≡ evidence ps → R b.session_file ps)
        → Served b x (sampled_first b x l o)
    sampled_first-Served l none r = tt
    sampled_first-Served l (some s) r =
        from_cache-Served l s _ r
          (λ ps. in_cache-R (lookup b.session_file x.cache) s _ ps (h b.session_file))

    pub file_evidence-Served :
        (l : Looks)
        → ((ps : List CompletionProof) → l.reading ≡ evidence ps → R b.session_file ps)
        → Served b x (file_evidence b l x)
    unfolding file_evidence
    file_evidence-Served l r =
        if-Served (includes x.poisoned b.session_file) _ _ tt (sampled_first-Served l _ r)
