-- ===== src/Redis/Order.antt =====
-- The waiting events of redis/scripts.ts, and the index of their sequences, at a cursor.
use whats_app_mcp_server.Base.{
  ◌+◌, ◌<◌, false, none, some, Text, text_eq, text_eq_iff, ◌≡◌, arith, inl, inr, Dict, lookup,
  insert, remove, lookup-insert, lookup-remove, Bool-cases,
}
use whats_app_mcp_server.Redis.Decimal.{inc, value, IsNumeral, inc-value, value-injective}
use whats_app_mcp_server.Redis.Store.{Event}

-- The events that wait, and the index of their sequences, at a cursor.
pub record Ordered (events : Dict Event) (seqs : Dict Text) (cursor : Text) : Type 0 where
  pub numeral : IsNumeral cursor
  pub listed : (k : Text) (e : Event) → lookup k events ≡ some e → lookup e.seq seqs ≡ some k
  pub ahead :
      (k : Text) (e : Event)
      → lookup k events ≡ some e
      → IsNumeral e.seq × (value cursor < value e.seq)
  pub named :
      (q k : Text) → lookup q seqs ≡ some k → (e : Event) × (lookup k events ≡ some e) × (e.seq ≡ q)

module _ (events : Dict Event) (seqs : Dict Text) (cursor : Text)
    (o : Ordered events seqs cursor) where
  pub admit-Ordered :
      (k : Text) (e : Event)
      → lookup k events ≡ none
      → lookup e.seq seqs ≡ none
      → IsNumeral e.seq
      → value cursor < value e.seq
      → Ordered (insert k e events) (insert e.seq k seqs) cursor
  admit-Ordered k e fresh free n later = record {
    numeral = o.numeral;
    listed = λ j d h. grind (
      arith,
      lookup-insert k j e events,
      text_eq_iff k j,
      lookup-insert e.seq d.seq k seqs,
      text_eq_iff e.seq d.seq,
      o.listed j d,
    );
    ahead = λ j d h. grind (arith, lookup-insert k j e events, text_eq_iff k j, o.ahead j d);
    named = λ q j h. elim (Bool-cases (text_eq e.seq q)) [
      | inl same ↦ (
        e,
        ground (
          arith,
          same,
          h,
          lookup-insert e.seq q k seqs,
          lookup-insert k j e events,
          text_eq_iff k j,
        ),
        (text_eq_iff e.seq q).0 same,
      )
      | inr other ↦
          let (x, held, seq) =
            o.named q j (ground (arith, other, h, lookup-insert e.seq q k seqs)) in
          (x, ground (arith, held, fresh, lookup-insert k j e events, text_eq_iff k j), seq)
    ];
  }

  pub finish-Ordered :
      (k : Text) (e : Event)
      → lookup k events ≡ some e
      → e.seq ≡ inc cursor
      → Ordered (remove k events) (remove e.seq seqs) e.seq
  finish-Ordered k e here next = record {
    numeral = (o.ahead k e here).0;
    listed = λ j d h. grind (
      arith,
      lookup-remove k j events,
      text_eq_iff k j,
      lookup-remove e.seq d.seq seqs,
      text_eq_iff e.seq d.seq,
      o.listed j d,
      o.listed k e here,
    );
    ahead = λ j d h.
        let kept : (text_eq k j ≡ false) × (lookup j events ≡ some d) =
          ground (arith, h, lookup-remove k j events) in
        let (n, later) = o.ahead j d kept.1 in
        let step : value e.seq ≡ value cursor + 1 = rw next ((inc-value cursor o.numeral).0) in
        (
          n,
          ground (
            arith,
            later,
            step,
            kept,
            o.listed j d kept.1,
            o.listed k e here,
            text_eq_iff k j,
            value-injective e.seq d.seq (o.ahead k e here).0 n,
          ),
        );
    named = λ q j h.
        let kept : (text_eq e.seq q ≡ false) × (lookup q seqs ≡ some j) =
          ground (arith, h, lookup-remove e.seq q seqs) in
        let (x, held, seq) = o.named q j kept.1 in
        (
          x,
          ground (
            arith,
            held,
            seq,
            here,
            kept,
            lookup-remove k j events,
            text_eq_iff k j,
            text_eq_iff e.seq q,
          ),
          seq,
        );
  }
