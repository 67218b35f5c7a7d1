-- ===== src/Repository/Reviewed.antt =====
-- redis/repository.ts: what an answer of `ownMutation` tells of the journals.
use whats_app_mcp_server.Base.{
  ◌≡◌, refl, ap, sym, ◌∙◌, arith, Bool, true, false, not, ◌&&◌, Option, none, some, List, [], ◌∷◌,
  ◌⊎◌, inl, inr, if◌then◌else◌, Text, text_eq, holds,
}
use whats_app_mcp_server.Base.Each.{Each, Each-map}
use whats_app_mcp_server.Json.{Json}
use whats_app_mcp_server.Json.Inversion.{none-some, some-injective, if-known}
use whats_app_mcp_server.Domain.Errors.{
  ErrorClass, Result, ok, err, ◌>>=◌, ◌>>◌, require, store_unavailable, mutation_uncertain,
}
use whats_app_mcp_server.Domain.Patterns.{is_chat_jid}
use whats_app_mcp_server.Domain.Schemas.{is_message_id}
use whats_app_mcp_server.Domain.Mutations.{MutationState, is_confirmed, message_of}
use whats_app_mcp_server.Journal.Sends.{own_confirmed, own_none}
use whats_app_mcp_server.Repository.Own.{
  OwnView, checked, is_enveloped, stored_record, stored_state, of_session, weigh, review,
  review_journal, review_chats, own_of, own_mutation,
}

ok-injective : {A : Type 0} {a b : A} → ok a ≡ ok b → a ≡ b
ok-injective h = ground (arith, h)

result-then {ℓ} :
    {A B : Type 0} {b : B} {P : Type ℓ} (m : Result A) (f : A → Result B)
    → (m >>= f) ≡ ok b
    → ((a : A) → m ≡ ok a → f a ≡ ok b → P)
    → P
result-then (ok a) f h k = k a refl h
result-then (err e) f h k = ground (arith, h)

unit-then {ℓ} :
    {B : Type 0} {b : B} {P : Type ℓ} (m : Result (Unit {0})) (k : Result B)
    → (m >> k) ≡ ok b
    → (k ≡ ok b → P)
    → P
unit-then (ok u) k h f = f h
unit-then (err e) k h f = ground (arith, h)

result-bind :
    {A B : Type 0} {a : A} {r : Result B} (m : Result A) (f : A → Result B)
    → m ≡ ok a
    → f a ≡ r
    → (m >>= f) ≡ r
result-bind (ok b) f p h = ap f (ok-injective p) ∙ h
result-bind (err e) f p h = ground (arith, p)

if_taken : {A : Type 0} (c : Bool) (x y : A) → c ≡ true → (if c then x else y) ≡ x
if_taken true x y h = refl
if_taken false x y h = ground (arith, h)

require-then {ℓ} :
    {B : Type 0} {b : B} {P : Type ℓ} (c : Bool) (e : ErrorClass) (k : Result B)
    → (require c e >> k) ≡ ok b
    → (c ≡ true → k ≡ ok b → P)
    → P
require-then true e k h f = f refl h
require-then false e k h f = ground (arith, h)

-- A record that does not stand in the way: of another destination, or confirmed; and then it is
-- known that the message is confirmed, or it is another message.
pub record Judged (parse : Text → Option Json) (actual id chat : Text) (found : Bool) (raw : Text)
    : Type 0 where
  pub state : MutationState
  pub read : stored_state parse raw chat ≡ ok state
  pub fine :
      (text_eq state.destination actual ≡ false)
      ⊎ (is_confirmed state.progress ≡ true)
        × ((found ≡ true) ⊎ (holds (message_of state.progress) id ≡ false))

-- The journal of a chat, each record of which has been judged.
pub record Reviewed (parse : Text → Option Json) (actual id : Text) (view : Text → OwnView)
    (found : Bool) (chat : Text) : Type 0 where
  pub raws : List Text
  pub journal : (view chat).journal ≡ ok raws
  pub judged : Each (Judged parse actual id chat found) raws

weighed :
    (d c m found b : Bool)
    → (if not d then some found else if not c then none else if m then some true else some found)
      ≡ some b
    → (found ≡ true → b ≡ true) × ((d ≡ false) ⊎ (c ≡ true) × ((b ≡ true) ⊎ (m ≡ false)))
weighed false c m found b h = (λ p. sym (some-injective h) ∙ p, inl refl)
weighed true false m found b h = ground (arith, h)
weighed true true true found b h =
    (λ p. sym (some-injective h), inr (refl, inl (sym (some-injective h))))
weighed true true false found b h = (λ p. sym (some-injective h) ∙ p, inr (refl, inr refl))

unfound : (e found b : Bool) → (if e then none else some found) ≡ some b → (e ≡ false) × (found ≡ b)
unfound true found b h = ground (arith, h)
unfound false found b h = (refl, some-injective h)

module _ (parse : Text → Option Json) (actual id : Text) where
  weigh-some :
      (found b : Bool) (s : MutationState)
      → weigh parse actual id found s ≡ some b
      → (found ≡ true → b ≡ true)
        × ((text_eq s.destination actual ≡ false)
            ⊎ (is_confirmed s.progress ≡ true)
              × ((b ≡ true) ⊎ (holds (message_of s.progress) id ≡ false)))
  weigh-some found b s h =
      weighed (text_eq s.destination actual) (is_confirmed s.progress)
        (holds (message_of s.progress) id) found b h

  later_found :
      (chat raw : Text) (b c : Bool)
      → (b ≡ true → c ≡ true)
      → Judged parse actual id chat b raw
      → Judged parse actual id chat c raw
  later_found chat raw b c f j = record {
    state = j.state;
    read = j.read;
    fine = elim j.fine [
      | inl p ↦ inl p
      | inr (p, inl q) ↦ inr (p, inl (f q))
      | inr (p, inr q) ↦ inr (p, inr q)
    ];
  }

  review-Judged :
      (chat raw : Text) (session : Option Text) (found b : Bool)
      → review parse actual id chat session found raw ≡ ok (some b)
      → (found ≡ true → b ≡ true) × Judged parse actual id chat b raw
  unfolding review stored_state
  review-Judged chat raw session found b h =
      result-then (checked store_unavailable (parse raw)) _ h λ v p h₁.
        if-known (is_enveloped v) _ _
          (λ enveloped h₂. result-then (stored_record parse raw chat) _ h₂ λ r q h₃.
            unit-then (of_session parse session r.session) _ h₃ λ h₄.
              let (keeps, fine) = weigh-some found b r.state (ok-injective h₄) in
              (
                keeps,
                record {
                  state = r.state;
                  read = result-bind (checked store_unavailable (parse raw)) _ p (
                      if_taken (is_enveloped v) _ _ enveloped
                      ∙ result-bind (stored_record parse raw chat) _ q refl);
                  fine = fine;
                },
              ))
          (λ plain h₂. result-then (stored_state parse raw chat) _ h₂ λ s q h₃.
            let (other, same) = unfound (text_eq s.destination actual) found b (ok-injective h₃) in
            (λ t. sym same ∙ t, record { state = s; read = q; fine = inl other }))
          h₁

  next_raw :
      (chat : Text) (session : Option Text) (found b : Bool) (raw : Text) (raws : List Text)
      (o : Option Bool)
      → review parse actual id chat session found raw ≡ ok o
      → elim o as (λ _. Result (Option Bool)) [
        | none ↦ ok none
        | some c ↦ review_journal parse actual id chat session c raws
      ]
        ≡ ok (some b)
      → ((c : Bool)
          → review_journal parse actual id chat session c raws ≡ ok (some b)
          → (c ≡ true → b ≡ true) × Each (Judged parse actual id chat b) raws)
      → (found ≡ true → b ≡ true) × Each (Judged parse actual id chat b) (raw ∷ raws)
  next_raw chat session found b raw raws none p h k = absurd (none-some (ok-injective h))
  next_raw chat session found b raw raws (some c) p h k =
      let (keeps, judged) = review-Judged chat raw session found c p in
      let (still, rest) = k c h in
      (λ t. still (keeps t), (later_found chat raw c b still judged, rest))

  review_journal-Judged :
      (chat : Text) (session : Option Text) (found b : Bool) (raws : List Text)
      → review_journal parse actual id chat session found raws ≡ ok (some b)
      → (found ≡ true → b ≡ true) × Each (Judged parse actual id chat b) raws
  unfolding review_journal
  review_journal-Judged chat session found b [] h =
      (λ p. sym (some-injective (ok-injective h)) ∙ p, tt)
  review_journal-Judged chat session found b (raw ∷ raws) h =
      result-then (review parse actual id chat session found raw) _ h λ o p h₁.
        next_raw chat session found b raw raws o p h₁
          (λ c k. review_journal-Judged chat session c b raws k)

  module _ (view : Text → OwnView) where
    next_chat :
        (chat : Text) (chats raws : List Text) (session : Option Text) (found b : Bool)
        (o : Option Bool)
        → (view chat).journal ≡ ok raws
        → review_journal parse actual id chat session found raws ≡ ok o
        → elim o as (λ _. Result (Option Bool)) [
          | none ↦ ok none
          | some c ↦ review_chats parse actual id view c chats
        ]
          ≡ ok (some b)
        → ((c : Bool)
            → review_chats parse actual id view c chats ≡ ok (some b)
            → (c ≡ true → b ≡ true) × Each (Reviewed parse actual id view b) chats)
        → (found ≡ true → b ≡ true) × Each (Reviewed parse actual id view b) (chat ∷ chats)
    next_chat chat chats raws session found b none q p h k = absurd (none-some (ok-injective h))
    next_chat chat chats raws session found b (some c) q p h k =
        let (keeps, judged) = review_journal-Judged chat session found c raws p in
        let (still, rest) = k c h in
        (
          λ t. still (keeps t),
          (
            record {
              raws = raws;
              journal = q;
              judged =
                  Each-map (Judged parse actual id chat c) (Judged parse actual id chat b) raws
                    (λ raw. later_found chat raw c b still) judged;
            },
            rest,
          ),
        )

    review_chats-Reviewed :
        (found b : Bool) (chats : List Text)
        → review_chats parse actual id view found chats ≡ ok (some b)
        → (found ≡ true → b ≡ true) × Each (Reviewed parse actual id view b) chats
    unfolding review_chats
    review_chats-Reviewed found b [] h = (λ p. sym (some-injective (ok-injective h)) ∙ p, tt)
    review_chats-Reviewed found b (chat ∷ chats) h =
        result-then (view chat).session _ h λ session _ h₁.
          result-then (view chat).journal _ h₁ λ raws q h₂.
            result-then (review_journal parse actual id chat session found raws) _ h₂ λ o p h₃.
              next_chat chat chats raws session found b o q p h₃
                (λ c k. review_chats-Reviewed c b chats k)

    answered :
        (o : Option Bool) (chats : List Text) (b : Bool)
        → review_chats parse actual id view false chats ≡ ok o
        → own_of parse actual id o ≡ (if b then own_confirmed else own_none)
        → Each (Reviewed parse actual id view b) chats
    answered none chats true p h = ground (arith, h)
    answered none chats false p h = ground (arith, h)
    answered (some true) chats true p h = (review_chats-Reviewed false true chats p).1
    answered (some true) chats false p h = ground (arith, h)
    answered (some false) chats true p h = ground (arith, h)
    answered (some false) chats false p h = (review_chats-Reviewed false false chats p).1

    -- An answer of `ownMutation` other than `uncertain` rests on the journal of every chat: each
    -- record there has been read, and is of another destination or confirmed. If the answer is
    -- `none`, then moreover no confirmed record of the destination has the message's id.
    pub own_mutation-Reviewed :
        (chats : List Text) (b : Bool)
        → own_mutation parse actual id view chats ≡ ok (if b then own_confirmed else own_none)
        → Each (Reviewed parse actual id view b) chats
    unfolding own_mutation
    own_mutation-Reviewed chats b h =
        require-then (is_chat_jid actual && is_message_id id) mutation_uncertain _ h λ _ h₁.
          result-then (review_chats parse actual id view false chats) _ h₁
            λ o p h₂. answered o chats b p (ok-injective h₂)
