-- ===== src/Relay/PairingStore/Exchange.antt =====
-- pairing_store.py: a whole exchange through the relay.
use yakr.Prelude.{
  ℕ, ◌≡◌, ◌≢◌, sym, ◌∙◌, Option-cases, inl, inr, true, false, Option, none, some, arith, Result, ok,
  ◌>>=◌, ◌==◌, length, Bytes, Text, lookup, insert, lookup-insert_self, lookup-insert_ne,
}
use yakr.Base64.{b64encode}
use yakr.Crypto.{Crypto}
use yakr.Relay.PairingStore.{
  PairingStore, PairingError, Session, get_pending_request, get_response, register, store_request,
  store_response, is_consumed,
}

module _ (k : Crypto) where
  -- The inviter registers, the joiner leaves a request, the inviter reads it and answers, the joiner reads the
  -- answer: the request and the response that are read, and the final store.
  abbrev pub exchange :
      ℕ
      → ℕ
      → Bytes
      → Bytes
      → Bytes
      → PairingStore
      → Result PairingError (Option Bytes × Option Bytes × PairingStore)
  exchange now later secret request response s = do
    registered ← register k now secret s
    requested ← store_request k later secret request registered.1
    let pending = get_pending_request registered.0 requested.1
    answered ← store_response k secret response requested.1
    ok (pending, get_response registered.0 answered.1, answered.1)

  -- For a secret of 32 bytes whose session is not consumed, the exchange succeeds, the inviter reads the request
  -- of the joiner and the joiner the response of the inviter, and the sessions of other invites are left
  -- as they were.
  pub exchange_delivers :
      (now later : ℕ) (secret request response : Bytes) (s : PairingStore)
      → length secret ≡ 32
      → ((row : Session)
          → lookup (b64encode (k.sha256 secret)) s.sessions ≡ some row
          → row.consumed ≡ false)
      → (s' : PairingStore) × (exchange now later secret request response s
          ≡ ok (some request, some response, s'))
        × ((tag : Text)
            → tag ≢ b64encode (k.sha256 secret)
            → lookup tag s'.sessions ≡ lookup tag s.sessions)
  unfolding register store_request store_response get_pending_request get_response
  exchange_delivers now later secret request response s sized unused =
      let own = b64encode (k.sha256 secret) in
      let fits : (length secret == 32) ≡ true = ground arith in
      let free : is_consumed (lookup own s.sessions) ≡ false =
        elim (Option-cases (lookup own s.sessions)) [
          | inl absent ↦ ground arith
          | inr (row, found) ↦ ground (arith, unused row)
        ] in
      let r₀ : Session = record {
        invite_secret = secret;
        registered_at = now;
        request = none;
        response = none;
        consumed = false;
      } in
      let r₁ : Session = record r₀ { request = some request } in
      let r₂ : Session = record r₁ { response = some response; consumed = true } in
      let d₁ = insert own r₀ s.sessions in
      let d₂ = insert own r₁ d₁ in
      (
        record s { sessions = insert own r₂ d₂ },
        ground (
          arith,
          fits,
          free,
          lookup-insert_self own r₀ s.sessions,
          lookup-insert_self own r₁ d₁,
          lookup-insert_self own r₂ d₂,
        ),
        λ tag ne.
            lookup-insert_ne own tag r₂ d₂ (λ p. ne (sym p))
            ∙ lookup-insert_ne own tag r₁ d₁ (λ p. ne (sym p))
            ∙ lookup-insert_ne own tag r₀ s.sessions (λ p. ne (sym p)),
      )
