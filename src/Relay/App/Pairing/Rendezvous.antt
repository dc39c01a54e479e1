-- ===== src/Relay/App/Pairing/Rendezvous.antt =====
-- relay/app.py and pairing.py: a pairing through the endpoints.
use yakr.Prelude.{
  ℕ, ◌≡◌, refl, false, Option, some, Result, ok, ◌>>=◌, bind-eq-ok, ok-injective, length, Bytes,
  Text, IsBytes, lookup, ap,
}
use yakr.Base64.{b64encode, b64decode}
use yakr.Base64.RoundTrip.{b64decode-b64encode}
use yakr.Codec.{Codec}
use yakr.Crypto.{Crypto}
use yakr.Pairing.{
  PairingRequest, PairingResponse, request_to_bytes, request_from_bytes, response_to_bytes,
  response_from_bytes,
}
use yakr.Pairing.RoundTrip.{request_from_bytes-to_bytes, response_from_bytes-to_bytes}
use yakr.Relay.PairingStore.{
  PairingStore, Session, register, store_request, store_response, get_pending_request, get_response,
}
use yakr.Relay.PairingStore.Exchange.{exchange_delivers}
use yakr.Relay.App.Pairing.{
  pair_register, pair_store_request, pair_store_response, pair_pending, pair_fetch_response,
}

module _ (c : Codec) (k : Crypto) where
  -- The five requests of a pairing, with the messages as base64, and the two texts that were read.
  abbrev pub rendezvous :
      ℕ → ℕ → Text → Text → Text → PairingStore → Result ℕ (Text × Text × PairingStore)
  rendezvous now later invite_secret request response s = do
    registered ← pair_register k now invite_secret s
    requested ← pair_store_request k c later request registered.1
    pending ← pair_pending registered.0 requested.1
    answered ← pair_store_response k invite_secret response requested.1
    answer ← pair_fetch_response registered.0 answered.1
    ok (pending, answer, answered.1)

  -- A joiner that posts a pairing request and an inviter that posts a response to it, for a secret of 32 bytes whose
  -- session is not consumed, each read the other's message as it was written.
  pub rendezvous_delivers :
      (now later : ℕ) (r : PairingRequest) (a : PairingResponse) (s : PairingStore)
      → length r.invite_secret ≡ 32
      → IsBytes r.invite_secret
      → ((row : Session)
          → lookup (b64encode (k.sha256 r.invite_secret)) s.sessions ≡ some row
          → row.consumed ≡ false)
      → (pending : Text) × (answer : Text) × (request : Bytes) × (response : Bytes)
        × (s' : PairingStore) × (rendezvous now later
              (b64encode r.invite_secret)
              (b64encode (request_to_bytes c r))
              (b64encode (response_to_bytes c a))
              s
            ≡ ok (pending, answer, s'))
        × (b64decode pending ≡ some request)
        × (request_from_bytes c request ≡ ok r)
        × (b64decode answer ≡ some response)
        × (response_from_bytes c response ≡ ok a)
  unfolding pair_register pair_store_request pair_store_response pair_pending pair_fetch_response
  rendezvous_delivers now later r a s sized written unused =
      let request = request_to_bytes c r in
      let response = response_to_bytes c a in
      let (s', done, others) =
        exchange_delivers k now later r.invite_secret request response s sized unused in
      let (registered, e1, r1) = bind-eq-ok (register k now r.invite_secret s) _ done in
      let (requested, e2, r2) =
        bind-eq-ok (store_request k later r.invite_secret request registered.1) _ r1 in
      let (answered, e3, r3) =
        bind-eq-ok (store_response k r.invite_secret response requested.1) _ r2 in
      let final = ok-injective r3 in
      let secret_read = b64decode-b64encode r.invite_secret written in
      let request_read =
        b64decode-b64encode request (unfold request_to_bytes in c.dumps-IsBytes _) in
      let response_read =
        b64decode-b64encode response (unfold response_to_bytes in c.dumps-IsBytes _) in
      let pending : get_pending_request registered.0 requested.1 ≡ some request =
        ap (λ (x : Option Bytes × Option Bytes × PairingStore). x.0) final in
      let answer : get_response registered.0 answered.1 ≡ some response =
        ap (λ (x : Option Bytes × Option Bytes × PairingStore). x.1) final in
      (
        b64encode request,
        b64encode response,
        request,
        response,
        answered.1,
        rw
            (
              secret_read,
              e1,
              request_read,
              request_from_bytes-to_bytes c r,
              e2,
              pending,
              response_read,
              e3,
              answer,
            )
            refl,
        request_read,
        request_from_bytes-to_bytes c r,
        response_read,
        response_from_bytes-to_bytes c a,
      )
