-- ===== src/Ratchet/State.antt =====
-- ratchet.py: `RatchetState` and its dict, in which byte strings are base64.
use yakr.Prelude.{
  ℕ, Bool, not, Option, none, some, [], ◌∷◌, Result, ok, ◌>>=◌, ◌>>◌, raise_if, or_raise, ◌==◌,
  if◌then◌else◌, null, Bytes, Text, Dict,
}
use yakr.Base64.{b64encode, b64decode}

pub record RatchetState : Type 0 where
  pub root_key : Bytes
  pub dh_self_private : Bytes
  pub dh_self_public : Bytes
  pub dh_peer_public : Option Bytes
  pub send_chain_key : Option Bytes
  pub recv_chain_key : Option Bytes
  pub send_n : ℕ
  pub recv_n : ℕ
  pub prev_send_n : ℕ
  pub skipped_keys : Dict Text
  pub hybrid : Bool
  pub pending_pairing_dh_ratchet_peer : Option Bytes

-- The dict that `to_dict` makes.
pub record SavedRatchet : Type 0 where
  pub version : ℕ
  pub root_key : Text
  pub dh_self_private : Text
  pub dh_self_public : Text
  pub dh_peer_public : Text
  pub send_chain_key : Text
  pub recv_chain_key : Text
  pub send_n : ℕ
  pub recv_n : ℕ
  pub prev_send_n : ℕ
  pub skipped_keys : Dict Text
  pub hybrid : Bool
  pub pending_pairing_dh_ratchet_peer : Text

pub data SavedError : Type 0 where
  unsupported_version bad_base64 : SavedError

-- `""` for None.
unfoldable pub encode_optional : Option Bytes → Text
encode_optional none = []
encode_optional (some bs) = b64encode bs

unfoldable pub to_dict : RatchetState → SavedRatchet
unfolding encode_optional
to_dict s = record {
  version = 2;
  root_key = b64encode s.root_key;
  dh_self_private = b64encode s.dh_self_private;
  dh_self_public = b64encode s.dh_self_public;
  dh_peer_public = encode_optional s.dh_peer_public;
  send_chain_key = encode_optional s.send_chain_key;
  recv_chain_key = encode_optional s.recv_chain_key;
  send_n = s.send_n;
  recv_n = s.recv_n;
  prev_send_n = s.prev_send_n;
  skipped_keys = s.skipped_keys;
  hybrid = s.hybrid;
  pending_pairing_dh_ratchet_peer = encode_optional s.pending_pairing_dh_ratchet_peer;
}

-- `dec`
unfoldable pub dec : Text → Result SavedError Bytes
dec value = if null value then ok [] else or_raise (b64decode value) bad_base64

-- `value or None`
abbrev pub or_none : Bytes → Option Bytes
or_none [] = none
or_none (b ∷ bs) = some (b ∷ bs)

unfoldable pub from_dict : SavedRatchet → Result SavedError RatchetState
unfolding dec
from_dict payload = do
  raise_if (not (payload.version == 2)) unsupported_version
  peer ← dec payload.dh_peer_public
  send_chain ← dec payload.send_chain_key
  recv_chain ← dec payload.recv_chain_key
  pending_peer ← dec payload.pending_pairing_dh_ratchet_peer
  root_key ← dec payload.root_key
  dh_self_private ← dec payload.dh_self_private
  dh_self_public ← dec payload.dh_self_public
  ok (record {
    root_key = root_key;
    dh_self_private = dh_self_private;
    dh_self_public = dh_self_public;
    dh_peer_public = or_none peer;
    send_chain_key = or_none send_chain;
    recv_chain_key = or_none recv_chain;
    send_n = payload.send_n;
    recv_n = payload.recv_n;
    prev_send_n = payload.prev_send_n;
    skipped_keys = payload.skipped_keys;
    hybrid = payload.hybrid;
    pending_pairing_dh_ratchet_peer = or_none pending_peer;
  })
