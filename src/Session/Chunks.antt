-- ===== src/Session/Chunks.antt =====
-- pi/completion-index.ts: the reader of a session file, and how the file falls into chunks.
use whats_app_mcp_server.Base.{
  ℕ, ◌≡◌, refl, sym, ap, ◌∙◌, arith, Option, none, some, List, [], ◌∷◌, ◌++◌, map, ◌==◌,
  if◌then◌else◌, Text,
}
use whats_app_mcp_server.Json.{◌>>=◌}
use whats_app_mcp_server.Scheduler.Work.{SessionBinding}
use whats_app_mcp_server.Session.Log.{Language}
use whats_app_mcp_server.Session.Evidence.{
  Reading, text_chunk, consume, consume_all, put_char, lines_of, read_chunks,
}

pub append_assoc : {A : Type 0} (a b c : List A) → (a ++ b) ++ c ≡ a ++ (b ++ c)
append_assoc [] b c = refl
append_assoc (x ∷ a) b c = ap (λ z. x ∷ z) (append_assoc a b c)

pub append_nil : {A : Type 0} (a : List A) → a ++ [] ≡ a
append_nil [] = refl
append_nil (x ∷ a) = ap (λ z. x ∷ z) (append_nil a)

-- The lines of a text, continued by the lines of what follows it.
abbrev pub continued : List Text × Text → Text → List Text × Text
continued (xs, rest) t = let (ys, end) = lines_of (rest ++ t) in (xs ++ ys, end)

-- A character in front.
abbrev in_front : ℕ → List Text × Text → List Text × Text
in_front c (xs, rest) = if c == 10 then ([] ∷ xs, rest) else put_char c xs rest

in_front-continued :
    (c : ℕ) (p : List Text × Text) (t : Text)
    → in_front c (continued p t) ≡ continued (in_front c p) t
unfolding lines_of
in_front-continued c ([], rest) t = ground arith
in_front-continued c (x ∷ xs, rest) t = ground arith

rest_in_front :
    (c : ℕ) (p : List Text × Text)
    → lines_of (p.1) ≡ ([], p.1)
    → lines_of ((in_front c p).1) ≡ ([], (in_front c p).1)
unfolding lines_of
rest_in_front c ([], rest) h = ground arith
rest_in_front c (x ∷ xs, rest) h = ground arith

pub lines_of-append : (a b : Text) → lines_of (a ++ b) ≡ continued (lines_of a) b
unfolding lines_of
lines_of-append [] b = refl
lines_of-append (c ∷ a) b =
    ap (in_front c) (lines_of-append a b) ∙ in_front-continued c (lines_of a) b

pub bind_cong :
    {A B C : Type 0} (o : Option A) (f : A → Option C) (g : A → Option B) (h : B → Option C)
    → ((a : A) → f a ≡ (g a >>= h))
    → (o >>= f) ≡ ((o >>= g) >>= h)
bind_cong none f g h e = refl
bind_cong (some a) f g h e = e a

-- What follows the last line feed has none.
pub lines_of-rest : (t : Text) → lines_of ((lines_of t).1) ≡ ([], (lines_of t).1)
unfolding lines_of
lines_of-rest [] = refl
lines_of-rest (c ∷ cs) = rest_in_front c (lines_of cs) (lines_of-rest cs)

module _ (l : Language) (b : SessionBinding) where
  consume_all-append :
      (xs ys : List Text) (s : Reading)
      → consume_all l b (xs ++ ys) s ≡ (consume_all l b xs s >>= consume_all l b ys)
  unfolding consume_all
  consume_all-append [] ys s = refl
  consume_all-append (x ∷ xs) ys s =
      bind_cong (consume l b x s) _ _ _ (λ t. consume_all-append xs ys t)

  -- What is left to do after the lines.
  abbrev with_rest : Text → Option Reading → Option (Text × Reading)
  with_rest rest none = none
  with_rest rest (some s) = some (rest, s)

  -- The whole text at once.
  abbrev pub read_text : Text → Reading → Option (Text × Reading)
  read_text t s = let (xs, rest) = lines_of t in with_rest rest (consume_all l b xs s)

  abbrev pub concatenated : List Text → Text
  concatenated [] = []
  concatenated (t ∷ ts) = t ++ concatenated ts

  with_rest-bind :
      (o : Option Reading) (k : Reading → Option Reading) (end : Text)
      → (o >>= λ u. with_rest end (k u)) ≡ with_rest end (o >>= k)
  with_rest-bind none k end = refl
  with_rest-bind (some u) k end = refl

  pub bind_ext :
      {A B : Type 0} (o : Option A) (f g : A → Option B)
      → ((a : A) → f a ≡ g a)
      → (o >>= f) ≡ (o >>= g)
  bind_ext none f g e = refl
  bind_ext (some a) f g e = e a

  read_text-append :
      (s : Reading) (p : List Text × Text) (t : Text)
      → (consume_all l b p.0 s >>= λ u. read_text (p.1 ++ t) u)
        ≡ (let (ys, end) = continued p t in with_rest end (consume_all l b ys s))
  read_text-append s (xs, rest) t =
      let (ys, end) = lines_of (rest ++ t) in
      with_rest-bind (consume_all l b xs s) (consume_all l b ys) end
      ∙ ap (with_rest end) (sym (consume_all-append xs ys s))

  read_chunks-from :
      (ts : List Text) (pending : Text) (s : Reading)
      → lines_of pending ≡ ([], pending)
      → read_chunks l b (map text_chunk ts) pending s ≡ read_text (pending ++ concatenated ts) s
  unfolding read_chunks consume_all
  read_chunks-from [] pending s h = rw (append_nil pending) (rw h refl)
  read_chunks-from (t ∷ ts) pending s h =
      let p = lines_of (pending ++ t) in
      bind_ext (consume_all l b p.0 s) _ _
        (λ u. read_chunks-from ts p.1 u (lines_of-rest (pending ++ t)))
      ∙ read_text-append s p (concatenated ts)
      ∙ ap (λ q. with_rest q.1 (consume_all l b q.0 s))
          (sym (lines_of-append (pending ++ t) (concatenated ts))
            ∙ ap lines_of (append_assoc pending t (concatenated ts)))

  -- However the text of a session file falls into the chunks that are read, its lines are consumed
  -- as if it were read at once.
  pub read_chunks-read_text :
      (ts : List Text) (s : Reading)
      → read_chunks l b (map text_chunk ts) [] s ≡ read_text (concatenated ts) s
  unfolding lines_of
  read_chunks-read_text ts s = read_chunks-from ts [] s refl
