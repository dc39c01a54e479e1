-- ===== src/Relay/App/Pairing.antt =====
-- relay/app.py: the pairing endpoints, over base64.
pub mod Rendezvous
use yakr.Prelude.{
  ℕ, Bool, true, false, Option, none, some, List, [], Result, ok, err, ◌>>=◌, or_raise, on_error,
  Bytes, Text,
}
use yakr.Base64.{b64encode, b64decode}
use yakr.Codec.{Codec}
use yakr.Crypto.{Crypto}
use yakr.Pairing.{PairingRequest, request_from_bytes}
use yakr.Relay.PairingStore.{
  PairingStore, PairingError, secret_length, already_consumed, unknown_session, secret_mismatch,
  register, store_request, store_response, get_pending_request, get_response,
}

-- `409 if "consumed" in str(exc) else 400`
abbrev pub pair_status : PairingError → ℕ
pair_status already_consumed = 409
pair_status secret_length = 400
pair_status unknown_session = 400
pair_status secret_mismatch = 400

unfoldable pub pair_pending : Text → PairingStore → Result ℕ Text
pair_pending invite_tag s = do
  pending ← or_raise (get_pending_request invite_tag s) 404
  ok (b64encode pending)

unfoldable pub pair_fetch_response : Text → PairingStore → Result ℕ Text
pair_fetch_response invite_tag s = do
  response ← or_raise (get_response invite_tag s) 404
  ok (b64encode response)

module _ (k : Crypto) where
  -- The invite tag, and the store.
  unfoldable pub pair_register : ℕ → Text → PairingStore → Result ℕ (Text × PairingStore)
  pair_register now invite_secret s = do
    secret ← or_raise (b64decode invite_secret) 400
    on_error pair_status (register k now secret s)

  unfoldable pub pair_store_request :
      Codec → ℕ → Text → PairingStore → Result ℕ (Text × PairingStore)
  pair_store_request c now request s = do
    pairing_request ← or_raise (b64decode request) 400
    parsed ← on_error (λ _. 400) (request_from_bytes c pairing_request)
    on_error pair_status (store_request k now parsed.invite_secret pairing_request s)

  unfoldable pub pair_store_response : Text → Text → PairingStore → Result ℕ (Text × PairingStore)
  pair_store_response invite_secret response s = do
    secret ← or_raise (b64decode invite_secret) 400
    answer ← or_raise (b64decode response) 400
    on_error pair_status (store_response k secret answer s)
