-- ===== src/Invite.antt =====
-- packages/yakr-core/src/yakr_core/invite.py: the signed invites that a pairing starts from, and their URLs.
pub mod Accepted
mod Tests
use yakr.Prelude.{
  ℕ, ◌+◌, ◌*◌, ◌%◌, Bool, true, false, not, ◌&&◌, ◌||◌, Option, none, some, List, [], ◌∷◌, ◌++◌,
  map, Result, ok, err, ◌>>=◌, ◌>>◌, raise_if, or_raise, leb, ◌==◌, if◌then◌else◌, null, take, drop,
  Bytes, Text, codes, eqb, contains,
}
use yakr.Base64.{b64encode, b64decode}
use yakr.Codec.{
  Codec, Value, int, bytes, text, list, map as dict, Fields, end, field, texts, int_field,
  str_field, bytes_field, strs_field, bytes_field_or_empty,
}
use yakr.Crypto.{Crypto}

abbrev pub protocol_v4 : Text
protocol_v4 = codes "yakr-v0.4"

abbrev pub protocol_v6 : Text
protocol_v6 = codes "yakr-v0.6"

abbrev default_invite_ttl_ms : ℕ
default_invite_ttl_ms = 24 * 60 * 60 * 1000

abbrev pub hybrid_pq_capability : Text
hybrid_pq_capability = codes "hybrid_pq"

-- Of identity.py: what an invite takes of an `Identity`.
pub record Identity : Type 0 where
  pub name : Text
  pub signing_private : Bytes
  pub agreement_private : Bytes
  pub kem_public : Bytes
  pub pq_signing_public : Bytes
  pub pq_signing_private : Bytes

pub record InviteBundle : Type 0 where
  pub protocol : Text
  pub inviter_name : Text
  pub signing_public : Bytes
  pub agreement_public : Bytes
  pub invite_secret : Bytes
  pub rendezvous_hint : Text
  pub expires_at : ℕ
  pub capabilities : List Text
  pub signature : Bytes
  pub kem_public : Bytes
  pub pq_signing_public : Bytes
  pub pq_signature : Bytes
  pub rendezvous_tls_spki_sha256 : Bytes

-- ML-DSA-65 of the library pqcrypto, a parameter: `sign` of a private key and a message, and
-- `verify` of a public key, a message and a signature.
pub record PqSigner : Type 0 where
  pub sign : Bytes → Bytes → Bytes
  pub verify : Bytes → Bytes → Bytes → Bool

-- The `ValueError`s, any other exception of reading, and `InvalidSignature`.
pub data InviteError : Type 0 where
  missing_kem unsupported_invite invite_expired bad_invite_signature : InviteError
  missing_pq_public bad_pq_signature invalid_bundle invalid_url unreadable : InviteError

-- `if value: payload[key] = value`
unfoldable pub optional : Text → Bytes → Fields → Fields
optional key [] rest = rest
optional key (b ∷ bs) rest = field key (bytes (b ∷ bs)) rest

-- The entries that every invite has, before the others.
unfoldable pub base_fields : InviteBundle → Fields → Fields
base_fields b rest = field (codes "protocol") (text b.protocol) (
    field (codes "inviter_name") (text b.inviter_name) (
      field (codes "signing_public") (bytes b.signing_public) (
        field (codes "agreement_public") (bytes b.agreement_public) (
          field (codes "invite_secret") (bytes b.invite_secret) (
            field (codes "rendezvous_hint") (text b.rendezvous_hint) (
              field (codes "expires_at") (int b.expires_at)
                (field (codes "capabilities") (list (texts b.capabilities)) rest)))))))

-- `_unsigned_dict`, before the entries of `to_bytes`.
unfoldable pub unsigned_dict : InviteBundle → Fields → Fields
unfolding base_fields optional
unsigned_dict b rest = base_fields b (
    optional (codes "kem_public") b.kem_public (
      optional (codes "pq_signing_public") b.pq_signing_public
        (optional (codes "rendezvous_tls_spki_sha256") b.rendezvous_tls_spki_sha256 rest)))

-- `if self.pq_signature: payload["pq_signature"] = self.pq_signature`, after the signature.
unfoldable pub signed_dict : InviteBundle → Fields
unfolding unsigned_dict optional
signed_dict b = unsigned_dict b (
    field (codes "signature") (bytes b.signature)
      (optional (codes "pq_signature") b.pq_signature end))

-- What follows the prefix, for `url.startswith(prefix)`.
unfoldable pub after_prefix : Text → Text → Option Text
after_prefix [] url = some url
after_prefix (p ∷ ps) [] = none
after_prefix (p ∷ ps) (c ∷ cs) = let rest = after_prefix ps cs in if p == c then rest else none

abbrev pub url_prefix : Text
url_prefix = codes "yakr://invite/"

unfoldable pub invite_supports_hybrid : InviteBundle → Bool
invite_supports_hybrid b = contains hybrid_pq_capability b.capabilities && not (null b.kem_public)

abbrev pub base_capabilities : List Text
base_capabilities = codes "direct_p2p" ∷ codes "friend_relay" ∷ codes "store_forward" ∷ []

module _ (c : Codec) where
  unfoldable pub unsigned_payload : InviteBundle → Bytes
  unfolding unsigned_dict
  unsigned_payload b = c.dumps (dict (unsigned_dict b end))

  unfoldable pub to_bytes : InviteBundle → Bytes
  unfolding signed_dict
  to_bytes b = c.dumps (dict (signed_dict b))

  of_value : Value → Result InviteError InviteBundle
  of_value (dict fs) = do
    protocol ← or_raise (str_field c (codes "protocol") fs) unreadable
    inviter_name ← or_raise (str_field c (codes "inviter_name") fs) unreadable
    signing_public ← or_raise (bytes_field c (codes "signing_public") fs) unreadable
    agreement_public ← or_raise (bytes_field c (codes "agreement_public") fs) unreadable
    invite_secret ← or_raise (bytes_field c (codes "invite_secret") fs) unreadable
    hint ← or_raise (str_field c (codes "rendezvous_hint") fs) unreadable
    expires_at ← or_raise (int_field c (codes "expires_at") fs) unreadable
    capabilities ← or_raise (strs_field c (codes "capabilities") fs) unreadable
    signature ← or_raise (bytes_field c (codes "signature") fs) unreadable
    kem_public ← or_raise (bytes_field_or_empty c (codes "kem_public") fs) unreadable
    pq_public ← or_raise (bytes_field_or_empty c (codes "pq_signing_public") fs) unreadable
    pq_signature ← or_raise (bytes_field_or_empty c (codes "pq_signature") fs) unreadable
    pin ← or_raise (bytes_field_or_empty c (codes "rendezvous_tls_spki_sha256") fs) unreadable
    ok (record {
      protocol = protocol;
      inviter_name = inviter_name;
      signing_public = signing_public;
      agreement_public = agreement_public;
      invite_secret = invite_secret;
      rendezvous_hint = hint;
      expires_at = expires_at;
      capabilities = capabilities;
      signature = signature;
      kem_public = kem_public;
      pq_signing_public = pq_public;
      pq_signature = pq_signature;
      rendezvous_tls_spki_sha256 = pin;
    })
  of_value _ = err invalid_bundle

  unfoldable pub from_bytes : Bytes → Result InviteError InviteBundle
  unfolding of_value
  from_bytes payload = do value ← or_raise (c.loads payload) unreadable; of_value value

  unfoldable pub invite_to_url : InviteBundle → Text
  invite_to_url b = url_prefix ++ b64encode (to_bytes b)

  unfoldable pub invite_from_url : Text → Result InviteError InviteBundle
  invite_from_url url = do
    encoded ← or_raise (after_prefix url_prefix url) invalid_url
    payload ← or_raise (b64decode encoded) unreadable
    from_bytes payload

  module _ (k : Crypto) (q : PqSigner) where
    -- The invite without its signatures and keys for hybrid pairings.
    draft : ℕ → Bytes → Identity → Text → Bytes → ℕ → Text → List Text → InviteBundle
    draft now secret i hint pin ttl_ms protocol capabilities = record {
      protocol = protocol;
      inviter_name = i.name;
      signing_public = k.ed25519_public i.signing_private;
      agreement_public = k.x25519_public i.agreement_private;
      invite_secret = secret;
      rendezvous_hint = hint;
      expires_at = now + ttl_ms;
      capabilities = capabilities;
      signature = [];
      kem_public = [];
      pq_signing_public = [];
      pq_signature = [];
      rendezvous_tls_spki_sha256 = pin;
    }

    -- The signature that is made without a key of ML-DSA; `kem_public` is no part of what it signs.
    signed_once : Identity → InviteBundle → Bytes → InviteBundle
    signed_once i b kem_public =
        let payload = c.dumps (
          dict (
            base_fields b
              (optional (codes "rendezvous_tls_spki_sha256") b.rendezvous_tls_spki_sha256 end))) in
        record b { signature = k.ed25519_sign i.signing_private payload; kem_public = kem_public }

    -- Both signatures, of a dict that has both keys.
    signed_twice : Identity → InviteBundle → InviteBundle
    signed_twice i b =
        let payload = c.dumps (
          dict (
            base_fields b (
              field (codes "kem_public") (bytes i.kem_public) (
                field (codes "pq_signing_public") (bytes i.pq_signing_public) (
                  optional (codes "rendezvous_tls_spki_sha256") b.rendezvous_tls_spki_sha256
                    end))))) in
        record b {
          signature = k.ed25519_sign i.signing_private payload;
          kem_public = i.kem_public;
          pq_signing_public = i.pq_signing_public;
          pq_signature = q.sign i.pq_signing_private payload;
        }

    -- `secret` is the 32 random bytes; `pin` is empty for None.
    unfoldable pub create_invite :
        ℕ → Bytes → Identity → Text → Bytes → ℕ → Bool → Result InviteError InviteBundle
    unfolding draft signed_once signed_twice
    create_invite now secret i hint pin ttl_ms hybrid_pq =
        let plain = draft now secret i hint pin ttl_ms protocol_v4 base_capabilities in
        let hybrid =
          draft now secret i hint pin ttl_ms protocol_v6
            (base_capabilities ++ hybrid_pq_capability ∷ []) in
        if not hybrid_pq then ok (signed_once i plain []) else (do
          raise_if (null i.kem_public) missing_kem
          ok (
              if null i.pq_signing_private
              then signed_once i hybrid i.kem_public
              else signed_twice i hybrid))

    verify_pq : InviteBundle → Result InviteError (Unit {0})
    verify_pq b = if null b.pq_signature then ok tt else (do
      raise_if (null b.pq_signing_public) missing_pq_public
      raise_if (not (q.verify b.pq_signing_public (unsigned_payload b) b.pq_signature))
          bad_pq_signature)

    unfoldable pub verify_invite : ℕ → InviteBundle → Result InviteError (Unit {0})
    unfolding verify_pq
    verify_invite now b = do
      raise_if (not (eqb b.protocol protocol_v4 || eqb b.protocol protocol_v6)) unsupported_invite
      raise_if (leb b.expires_at now) invite_expired
      raise_if (not (k.ed25519_verify b.signing_public b.signature (unsigned_payload b)))
          bad_invite_signature
      verify_pq b

-- The digits of the code in groups of four, four and two.
unfoldable pub safety_code : Crypto → InviteBundle → Text
safety_code k b =
    let digits =
      map (λ byte. byte % 10 + b'0')
        (take 10 (k.sha256 (b.signing_public ++ b.agreement_public))) in
    take 4 digits ++ b' ' ∷ (take 4 (drop 4 digits) ++ b' ' ∷ take 2 (drop 8 digits))
