-- ===== src/Session/Counting.antt =====
-- `snapshot` of pi/completion-index.ts: as many different chats of the configured ones as there are
-- configured ones are all of them.
use whats_app_mcp_server.Base.{
  suc, ◌≡◌, ◌≢◌, inl, inr, refl, sym, ap, ◌∙◌, subst, arith, Bool, true, false, not, Bool-cases,
  List, [], ◌∷◌, if◌then◌else◌, length, any, Option, none, some, Text, text_eq, text_eq_iff, ◌==◌,
  ==_iff,
}
use whats_app_mcp_server.Base.Each.{Each, Each-map}
use whats_app_mcp_server.Base.Members.{Has, Has-all}
use whats_app_mcp_server.Json.Inversion.{and-true, if-some}
use whats_app_mcp_server.Intake.Payload.{includes}
use whats_app_mcp_server.Scheduler.Work.{SessionBinding}
use whats_app_mcp_server.Session.Index.{Row, is_snapshot, unrepeated, chats_of, rows_fit, row_fits}

includes-Has : (xs : List Text) (x : Text) → includes xs x ≡ true → Has x xs
unfolding includes
includes-Has [] x h = absurd (ground arith)
includes-Has (y ∷ ys) x h = elim (Bool-cases (text_eq y x)) [
  | inl e ↦ inl ((text_eq_iff y x).0 e)
  | inr e ↦ inr (includes-Has ys x (ground (arith, h, e)))
]

Has-includes : (xs : List Text) (x : Text) → Has x xs → includes xs x ≡ true
unfolding includes
Has-includes [] x h = elim h [ ]
Has-includes (y ∷ ys) x (inl e) = ground (arith, text_eq_iff y x, e)
Has-includes (y ∷ ys) x (inr h) = ground (arith, Has-includes ys x h)

-- All but the first occurrence.
but : Text → List Text → List Text
but x [] = []
but x (y ∷ ys) = let rest = but x ys in if text_eq y x then ys else y ∷ rest

-- The rest of a list with `x`, by whether its head is `x`.
other : (x y : Text) (ys : List Text) → text_eq y x ≡ false → Has x (y ∷ ys) → Has x ys
other x y ys e (inl p) = absurd (ground (arith, text_eq_iff y x, e, p))
other x y ys e (inr h) = h

length-but : (x : Text) (ys : List Text) → Has x ys → length ys ≡ suc (length (but x ys))
unfolding but
length-but x [] h = elim h [ ]
length-but x (y ∷ ys) h = elim (Bool-cases (text_eq y x)) [
  | inl e ↦ rw e refl
  | inr e ↦ rw e (ap suc (length-but x ys (other x y ys e h)))
]

apart : (x z y : Text) (ys : List Text) → y ≡ x → Has z (y ∷ ys) → z ≢ x → Has z ys
apart x z y ys p (inl q) n = absurd (n (sym q ∙ p))
apart x z y ys p (inr h) n = h

kept :
    (x z y : Text) (ys : List Text)
    → Has z (y ∷ ys)
    → (Has z ys → Has z (but x ys))
    → Has z (y ∷ but x ys)
kept x z y ys (inl q) f = inl q
kept x z y ys (inr h) f = inr (f h)

Has-but : (x z : Text) (ys : List Text) → Has z ys → z ≢ x → Has z (but x ys)
unfolding but
Has-but x z [] h n = elim h [ ]
Has-but x z (y ∷ ys) h n = elim (Bool-cases (text_eq y x)) [
  | inl e ↦ rw e (apart x z y ys ((text_eq_iff y x).0 e) h n)
  | inr e ↦ rw e (kept x z y ys h λ k. Has-but x z ys k n)
]

fewer :
    (xs ys : List Text) (x : Text)
    → length ys ≡ suc (length (but x ys))
    → suc (length xs) ≡ length ys
    → length xs ≡ length (but x ys)
fewer xs ys x p q = omega (arith, p, q)

Each-both :
    {A : Type 0} (P Q R : A → Type 0) (xs : List A)
    → ((x : A) → P x → Q x → R x)
    → Each P xs
    → Each Q xs
    → Each R xs
Each-both P Q R [] f p q = tt
Each-both P Q R (x ∷ xs) f (p, ps) (q, qs) = (f x p q, Each-both P Q R xs f ps qs)

-- Different chats, all of them among others that are as many, are all of those.
pub pigeons :
    (xs ys : List Text)
    → unrepeated xs ≡ true
    → Each (λ x. Has x ys) xs
    → length xs ≡ length ys
    → (y : Text) → Has y ys
    → Has y xs
unfolding unrepeated
pigeons [] [] u h e y k = k
pigeons [] (z ∷ ys) u h e y k = absurd (ground (arith, e))
pigeons (x ∷ xs) ys u (here, there) e y k =
    let (new, rest) = and-true (not (includes xs x)) (unrepeated xs) u in
    let others =
      Each-both (λ z. Has z xs) (λ z. Has z ys) (λ z. Has z (but x ys)) xs
        (λ z inside at.
          Has-but x z ys at
            (λ p. absurd (ground (arith, new, Has-includes xs x (subst (λ w. Has w xs) p inside)))))
        (Has-all xs) there in
    elim (Bool-cases (text_eq x y)) [
      | inl p ↦ inl ((text_eq_iff x y).0 p)
      | inr p ↦ inr (
          pigeons xs (but x ys) rest others (fewer xs ys x (length-but x ys here) e) y
            (Has-but x y ys k (λ q. absurd (ground (arith, p, text_eq_iff x y, q)))))
    ]

-- A session is of its row's chat.
abbrev pub OfChat : Text → Option SessionBinding → Type 0
OfChat chat none = Unit {0}
OfChat chat (some b) = b.canonical_chat_id ≡ chat

row_fits-OfChat :
    (on_path : SessionBinding → Bool) (seen next : List Text) (r : Row) (o : Option SessionBinding)
    → row_fits on_path seen r o ≡ some next
    → OfChat r.chat o
row_fits-OfChat on_path seen next r none h = tt
row_fits-OfChat on_path seen next r (some b) h =
    let (c, same) = if-some _ (b.session_file ∷ seen) h in
    let (c₁, new) = and-true _ (not (includes seen b.session_file)) c in
    let (there, mine) = and-true (on_path b) _ c₁ in (text_eq_iff b.canonical_chat_id r.chat).0 mine

row_then :
    (on_path : SessionBinding → Bool) (seen : List Text) (r : Row) (rs : List Row)
    (o : Option (List Text))
    → row_fits on_path seen r r.binding ≡ o
    → elim o as (λ _. Bool) [ none ↦ false | some t ↦ rows_fit on_path t rs ] ≡ true
    → ((next : List Text)
        → rows_fit on_path next rs ≡ true
        → Each (λ r. OfChat r.chat r.binding) rs)
    → Each (λ r. OfChat r.chat r.binding) (r ∷ rs)
row_then on_path seen r rs none p h f = ground (arith, h)
row_then on_path seen r rs (some t) p h f = (row_fits-OfChat on_path seen t r r.binding p, f t h)

rows_fit-OfChat :
    (on_path : SessionBinding → Bool) (seen : List Text) (rows : List Row)
    → rows_fit on_path seen rows ≡ true
    → Each (λ r. OfChat r.chat r.binding) rows
unfolding rows_fit
rows_fit-OfChat on_path seen [] h = tt
rows_fit-OfChat on_path seen (r ∷ rs) h =
    row_then on_path seen r rs (row_fits on_path seen r r.binding) refl h
      (λ next k. rows_fit-OfChat on_path next rs k)

configured :
    (chats : List Text) (rows : List Row)
    → any (λ c. not (includes chats c)) (chats_of rows) ≡ false
    → Each (λ r. Has r.chat chats) rows
unfolding chats_of
configured chats [] h = tt
configured chats (r ∷ rs) h =
    (includes-Has chats r.chat (ground (arith, h)), configured chats rs (ground (arith, h)))

chats_of-Each :
    (P : Text → Type 0) (rows : List Row) → Each (λ r. P r.chat) rows → Each P (chats_of rows)
unfolding chats_of
chats_of-Each P [] h = tt
chats_of-Each P (r ∷ rs) (p, h) = (p, chats_of-Each P rs h)

length-chats_of : (rows : List Row) → length (chats_of rows) ≡ length rows
unfolding chats_of
length-chats_of [] = refl
length-chats_of (r ∷ rs) = ap suc (length-chats_of rs)

-- The row of a chat that the rows have, and what all rows have of it.
row_of :
    (P : Row → Type 0) (rows : List Row) (chat : Text)
    → Has chat (chats_of rows)
    → Each P rows
    → (r : Row) × Has r rows × (r.chat ≡ chat) × P r
unfolding chats_of
row_of P [] chat h e = elim h [ ]
row_of P (r ∷ rs) chat (inl p) (q, e) = (r, inl refl, p, q)
row_of P (r ∷ rs) chat (inr h) (q, e) =
    let (t, at, p, k) = row_of P rs chat h e in (t, inr at, p, k)

-- Rows that pass `snapshot`: every configured chat has a row, with a session of its own if it has
-- any, and every row is of a configured chat. The rows have `P` besides.
pub snapshot_complete :
    (P : Row → Type 0) (on_path : SessionBinding → Bool) (chats : List Text) (rows : List Row)
    → is_snapshot on_path chats rows ≡ true
    → Each P rows
    → Each
        (λ chat. (r : Row) × Has r rows × (r.chat ≡ chat) × (OfChat r.chat r.binding × P r))
        chats
      × Each (λ r. Has r.chat chats) rows
unfolding is_snapshot
snapshot_complete P on_path chats rows h each =
    let (h₁, fit) = and-true _ (rows_fit on_path [] rows) h in
    let (h₂, known) = and-true _ (not (any (λ c. not (includes chats c)) (chats_of rows))) h₁ in
    let (many, different) = and-true (length rows == length chats) _ h₂ in
    let inside = configured chats rows (ground (arith, known)) in
    let as_many = length-chats_of rows ∙ (==_iff (length rows) (length chats)).0 many in
    let of_chat = rows_fit-OfChat on_path [] rows fit in
    (
      Each-map (λ chat. Has chat chats) _ chats
          (λ chat at.
            row_of (λ r. OfChat r.chat r.binding × P r) rows chat
              (pigeons (chats_of rows) chats different
                (chats_of-Each (λ c. Has c chats) rows inside) as_many chat at)
              (Each-both (λ r. OfChat r.chat r.binding) P _ rows (λ r a b. (a, b)) of_chat each))
          (Has-all chats),
      inside,
    )
