-- ===== src/Message/RelayJson.antt =====
-- message.py: the JSON of an outer blob for a relay, and the id of a message.
use yakr.Prelude.{ℕ, ◌≡◌, refl, ◌++◌, Result, ok, ◌>>=◌, or_raise, Bytes, Text, IsBytes, codes, hex}
use yakr.Base64.{b64encode, b64decode}
use yakr.Base64.RoundTrip.{b64decode-b64encode}
use yakr.Crypto.{Crypto}
use yakr.Message.{OuterBlob}

-- The dict; its values have the types that `to_relay_json` gives them.
pub record RelayBlob : Type 0 where
  pub mailbox_tag : Text
  pub expires_at : ℕ
  pub ciphertext : Text

pub data RelayJsonError : Type 0 where
  bad_base64 : RelayJsonError

unfoldable pub to_relay_json : OuterBlob → RelayBlob
to_relay_json o = record {
  mailbox_tag = b64encode o.mailbox_tag;
  expires_at = o.expires_at;
  ciphertext = b64encode o.ciphertext;
}

unfoldable pub from_relay_json : RelayBlob → Result RelayJsonError OuterBlob
from_relay_json b = do
  tag ← or_raise (b64decode b.mailbox_tag) bad_base64
  ciphertext ← or_raise (b64decode b.ciphertext) bad_base64
  ok (record { version = 1; mailbox_tag = tag; expires_at = b.expires_at; ciphertext = ciphertext })

unfoldable pub message_id : Crypto → Bytes → Text
unfolding hex
message_id k ciphertext = hex (k.sha256 (codes "yakr/v0.1/message-id|" ++ ciphertext))

-- A blob is read from a relay as it was given to it.
pub from_relay_json-to_relay_json :
    (o : OuterBlob)
    → o.version ≡ 1
    → IsBytes o.mailbox_tag
    → IsBytes o.ciphertext
    → from_relay_json (to_relay_json o) ≡ ok o
unfolding from_relay_json to_relay_json
from_relay_json-to_relay_json o v t b =
    rw (b64decode-b64encode o.mailbox_tag t, b64decode-b64encode o.ciphertext b, ← v) refl
