-- ===== src/LocalStore/Inbound/Sweep.antt =====
-- core/store.py `sweep_expired_messages`.
use yakr.Prelude.{
  ℕ, ◌+◌, ◌≤◌, ◌≡◌, refl, ap, false, List, [], ◌∷◌, select, All, Text, arith, Bool-cases, inl, inr,
}
use yakr.Crypto.{Crypto}
use yakr.Ephemeral.{message_ttl_ms}
use yakr.Message.{Json}
use yakr.Session.Sending.{Sender}
use yakr.LocalStore.Tables.{lacks}
use yakr.LocalStore.{InboundRow, FileLocalStore}
use yakr.LocalStore.Inbound.{
  is_outdated, is_current, sweep_expired_messages, list_inbound_messages_timed,
}

-- The message expires at most a day after it came: its sender's clock was not ahead.
abbrev pub IsPunctual : InboundRow → Type 0
IsPunctual r = r.valid_until ≤ r.received_at + message_ttl_ms

select-swept :
    (now later : ℕ) (name : Text) (rows : List InboundRow)
    → now ≤ later
    → All IsPunctual rows
    → select (is_current name later) (select (lacks (is_outdated now)) rows)
      ≡ select (is_current name later) rows
unfolding is_outdated
select-swept now later name [] h g = refl
select-swept now later name (r ∷ rows) h g = elim (Bool-cases (is_outdated now r)) [
  | inl old ↦
      let over : is_current name later r ≡ false = ground (arith, h, old, g.0) in
      rw (is_outdated, old, over) (select-swept now later name rows h g.1)
  | inr young ↦ elim (Bool-cases (is_current name later r)) [
    | inl current ↦ rw (young, current) (ap (◌∷◌ r) (select-swept now later name rows h g.1))
    | inr over ↦ rw (young, over) (select-swept now later name rows h g.1)
  ]
]

-- A sweep changes nothing that is shown from then on, if every message expires at most a day after it came.
pub list_inbound_messages-sweep :
    (j : Json) (k : Crypto) (now later : ℕ) (name : Text) (own : Sender) (s : FileLocalStore)
    → now ≤ later
    → All IsPunctual s.db.inbound_messages
    → list_inbound_messages_timed j k later name own (sweep_expired_messages now s).1
      ≡ list_inbound_messages_timed j k later name own s
unfolding list_inbound_messages_timed sweep_expired_messages
list_inbound_messages-sweep j k now later name own s h g =
    rw (select-swept now later name s.db.inbound_messages h g) refl
