-- ===== src/Compaction/Unclaimed.antt =====
-- compaction/orphan-recovery.ts: what the proof of an orphan has seen of the session file.
use whats_app_mcp_server.Base.{
  ◌≡◌, sym, ap, subst, ◌∙◌, arith, Bool, true, false, ◌||◌, some, List, [], ◌∷◌, ◌++◌, Text,
}
use whats_app_mcp_server.Base.Each.{Each}
use whats_app_mcp_server.Json.{Members, ◌>>=◌, as_object}
use whats_app_mcp_server.Json.Inversion.{
  some-injective, none-some, if-some, bind-then, if-then, if-known,
}
use whats_app_mcp_server.Session.Log.{is_header}
use whats_app_mcp_server.Session.Evidence.{Chunk, broken, text_chunk, lines_of}
use whats_app_mcp_server.Session.Chunks.{
  append_assoc, append_nil, lines_of-append, lines_of-rest, continued,
}
use whats_app_mcp_server.Compaction.Orphan.{Subject, Proving, unproved, prove_line, prove_lines}
use whats_app_mcp_server.Compaction.Quiet.{
  endangers, Untouched, prove_entry-Brings, prove_entry-Untouched,
}
use whats_app_mcp_server.Compaction.Generation.{prove_chunks}

module _ (p : Subject) where
  -- The line is an entry that does not speak against the proof.
  abbrev pub Quiet : Text → Type 0
  Quiet line = (e : Members) × (as_object (p.language.parse line) ≡ some e) × Untouched p e

  -- What follows of the lines between two states, if the later one is safe.
  abbrev Ends : Proving → Proving → List Text → Type 0
  Ends s t xs = t.unsafe ≡ false → (s.unsafe ≡ false) × Each Quiet xs

  step_quiet : (a b c : Bool) → a ≡ (b || c) → a ≡ false → (b ≡ false) × (c ≡ false)
  step_quiet a b c h k = ground arith

  prove_line-Quiet :
      (x : Text) (s t : Proving)
      → s.header_seen ≡ true
      → prove_line p x s ≡ some t
      → (t.header_seen ≡ true) × (t.unsafe ≡ false → (s.unsafe ≡ false) × Quiet x)
  unfolding prove_line
  prove_line-Quiet x s t h g =
      bind-then (as_object (p.language.parse x)) _
        (λ e q.
          if-known s.header_seen _ _
            (λ c k.
              let (m, n) = prove_entry-Brings p e s t k in
              (
                n ∙ h,
                λ u.
                    let (a, b) = step_quiet t.unsafe s.unsafe (endangers p e) m u in
                    (a, (e, q, prove_entry-Untouched p e s t k b)),
              ))
            (λ c k. absurd (ground (arith, h, c))))
        g

  prove_lines-Quiet :
      (xs : List Text) (s t : Proving)
      → s.header_seen ≡ true
      → prove_lines p xs s ≡ some t
      → Ends s t xs
  unfolding prove_lines
  prove_lines-Quiet [] s t h g = λ u. (subst (λ z. z.unsafe ≡ false) (sym (some-injective g)) u, tt)
  prove_lines-Quiet (x ∷ xs) s t h g =
      bind-then (prove_line p x s) _
        (λ mid q r u.
          let (k, f) = prove_line-Quiet x s mid h q in
          let (a, rest) = prove_lines-Quiet xs mid t k r u in
          let (b, mine) = f a in (b, (mine, rest)))
        g

  -- The first line is the header, and the others are quiet.
  abbrev pub HeadedQuiet : List Text → Type 0
  HeadedQuiet [] = ⊥
  HeadedQuiet (x ∷ xs) =
      ((e : Members) × (as_object (p.language.parse x) ≡ some e)
        × (is_header p.language p.binding.session_id e ≡ true))
      × Each Quiet xs

  prove_line-header :
      (x : Text) (t : Proving)
      → prove_line p x unproved ≡ some t
      → ((e : Members) × (as_object (p.language.parse x) ≡ some e)
          × (is_header p.language p.binding.session_id e ≡ true))
        × (t.header_seen ≡ true)
  unfolding prove_line
  prove_line-header x t = bind-then (as_object (p.language.parse x)) _ (λ e q g.
      let (c, same) =
        if-some (is_header p.language p.binding.session_id e)
          (record unproved { header_seen = true }) g in
      ((e, q, c), ap (λ z. z.header_seen) (sym same)))

  pub all_lines-Quiet :
      (xs : List Text) (t : Proving)
      → prove_lines p xs unproved ≡ some t
      → t.header_seen ≡ true
      → t.unsafe ≡ false
      → HeadedQuiet xs
  unfolding prove_lines
  all_lines-Quiet [] t g h u =
      absurd (ground (arith, ap (λ z. z.header_seen) (some-injective g), h))
  all_lines-Quiet (x ∷ xs) t g h u =
      bind-then (prove_line p x unproved) _
        (λ mid q r.
          let (head, seen) = prove_line-header x mid q in
          (head, (prove_lines-Quiet xs mid t seen r u).1))
        g

  prove_lines-append :
      (xs ys : List Text) (s t u : Proving)
      → prove_lines p xs s ≡ some t
      → prove_lines p ys t ≡ some u
      → prove_lines p (xs ++ ys) s ≡ some u
  unfolding prove_lines
  prove_lines-append [] ys s t u g h =
      subst (λ z. prove_lines p ys z ≡ some u) (sym (some-injective g)) h
  prove_lines-append (x ∷ xs) ys s t u g h =
      bind-then (prove_line p x s) _
        (λ mid q r.
          ap (λ o. o >>= prove_lines p (xs ++ ys)) q ∙ prove_lines-append xs ys mid t u r h)
        g

  -- The text of the chunks.
  abbrev pub text_of : List Chunk → Text
  text_of [] = []
  text_of (broken ∷ cs) = text_of cs
  text_of (text_chunk t ∷ cs) = t ++ text_of cs

  -- The lines of a text are read from `s` to `t`, and the rest remains.
  abbrev pub ReadTo : Proving → List Text × Text → Text → Proving → Type 0
  ReadTo s (xs, end) rest t = (prove_lines p xs s ≡ some t) × (end ≡ rest)

  ReadTo-continued :
      (a b : List Text × Text) (rest : Text) (s mid t : Proving) (q : Text)
      → prove_lines p a.0 s ≡ some mid
      → ReadTo mid (lines_of (a.1 ++ q)) rest t
      → ReadTo s (continued a q) rest t
  ReadTo-continued (xs, end) b rest s mid t q g (h, e) =
      (prove_lines-append xs (lines_of (end ++ q)).0 s mid t g h, e)

  pub prove_chunks-ReadTo :
      (cs : List Chunk) (pending rest : Text) (s t : Proving)
      → lines_of pending ≡ ([], pending)
      → prove_chunks p cs pending s ≡ some (rest, t)
      → ReadTo s (lines_of (pending ++ text_of cs)) rest t
  unfolding prove_chunks prove_lines
  prove_chunks-ReadTo [] pending rest s t h g =
      subst (λ z. ReadTo s z rest t) (sym (ap lines_of (append_nil pending) ∙ h))
        (ap (λ z. some z.1) (some-injective g), ap (λ z. z.0) (some-injective g))
  prove_chunks-ReadTo (broken ∷ cs) pending rest s t h g = absurd (none-some g)
  prove_chunks-ReadTo (text_chunk x ∷ cs) pending rest s t h g =
      let a = lines_of (pending ++ x) in
      if-then _ _ _ (λ z. absurd (none-some z))
        (bind-then (prove_lines p a.0 s) _ (λ mid q r.
          subst (λ z. ReadTo s z rest t)
            (sym (
              ap lines_of (sym (append_assoc pending x (text_of cs)))
              ∙ lines_of-append (pending ++ x) (text_of cs)))
            (ReadTo-continued a a rest s mid t (text_of cs) q
              (prove_chunks-ReadTo cs a.1 rest mid t (lines_of-rest (pending ++ x)) r))))
        g
