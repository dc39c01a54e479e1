-- ===== src/Relay/App/Forwarding.antt =====
-- relay/app.py: `relay_packet` of an entry relay and `ingest_packet` of a mailbox relay.
pub mod Delivery
use yakr.Prelude.{
  ℕ, Bool, true, false, not, ◌||◌, Option, none, some, List, [], ◌∷◌, Result, ok, err, ◌>>=◌, ◌>>◌,
  raise_if, or_raise, on_error, ◌==◌, if◌then◌else◌, Bytes, Text, codes,
}
use yakr.Base64.{b64encode, b64decode}
use yakr.Codec.{Codec}
use yakr.Crypto.{Crypto}
use yakr.Message.{OuterBlob}
use yakr.Onion.{decode_entry_packet, decode_mailbox_packet}
use yakr.Relay.BlobStore
use yakr.Relay.BlobStore.{BlobStore}
use yakr.Relay.Auth.{RelayRole, RelayRuntime, entry, mailbox, both, check_ticket}
use yakr.Relay.App.{RelayState}
use yakr.Relay.App.Blobs.{store_status}

pub record RelayPacketRequest : Type 0 where
  pub packet : Text
  pub ticket : Option Text

pub record IngestRequest : Type 0 where
  pub inner : Text
  pub ticket : Option Text

-- `runtime.role in ("entry", "both")`
abbrev pub is_forwarder : RelayRole → Bool
is_forwarder entry = true
is_forwarder mailbox = false
is_forwarder both = true

-- `runtime.role in ("mailbox", "both")`
abbrev pub is_mailbox : RelayRole → Bool
is_mailbox entry = false
is_mailbox mailbox = true
is_mailbox both = true

-- `response.status_code in (201, 202)`; with no response `httpx.post` raised, which the server answers with 500.
unfoldable pub forward_reply : Text → Option ℕ → Result ℕ Text
forward_reply next_url none = err 500
forward_reply next_url (some status) =
    if status == 201 || status == 202 then ok next_url else err 502

module _ (c : Codec) (k : Crypto) where
  -- All that `relay_packet` does before it forwards: the address and the layer for it.
  unfoldable pub open_packet : ℕ → RelayRuntime → RelayPacketRequest → Result ℕ (Text × Bytes)
  open_packet now runtime request = do
    raise_if (not (is_forwarder runtime.role)) 405
    check_ticket c k now runtime (codes "forward") request.ticket
    wrap_secret ← or_raise runtime.wrap_secret 500
    packet ← or_raise (b64decode request.packet) 400
    on_error (λ _. 400) (decode_entry_packet c k packet wrap_secret)

  -- `post` is `httpx.post` of the inner layer and the ticket to an address, on the state of the network: the
  -- status, if a response came. The random delay before it is left out.
  relay_opened :
      {W : Type 0}
      → (Text → Text → Option Text → W → Option ℕ × W)
      → RelayPacketRequest
      → W
      → Result ℕ (Text × Bytes)
      → Result ℕ Text × W
  relay_opened post request w (err status) = (err status, w)
  relay_opened post request w (ok (next_url, inner_cipher)) =
      let sent = post next_url (b64encode inner_cipher) request.ticket w in
      (forward_reply next_url sent.0, sent.1)

  unfoldable pub relay_packet :
      {W : Type 0}
      → (Text → Text → Option Text → W → Option ℕ × W)
      → ℕ
      → RelayRuntime
      → RelayPacketRequest
      → W
      → Result ℕ Text × W
  unfolding relay_opened
  relay_packet post now runtime request w =
      relay_opened post request w (open_packet now runtime request)

  unfoldable pub ingest_packet : ℕ → RelayRuntime → IngestRequest → RelayState → Result ℕ RelayState
  ingest_packet now runtime request s = do
    raise_if (not (is_mailbox runtime.role)) 405
    check_ticket c k now runtime (codes "store") request.ticket
    wrap_secret ← or_raise runtime.wrap_secret 500
    inner ← or_raise (b64decode request.inner) 400
    outer ← on_error (λ _. 400) (decode_mailbox_packet c k inner wrap_secret)
    store ←
        on_error store_status
          (BlobStore.store now outer.mailbox_tag outer.expires_at outer.ciphertext none s.store)
    ok (record s { store = store })
