-- ===== src/Relay/Auth/Replay.antt =====
-- relay/app.py `_check_capability` against a captured request that is sent again.
use yakr.Prelude.{
  ℕ, ◌+◌, ◌%◌, ◌≤◌, ◌≡◌, ◌≢◌, refl, ap, ◌∙◌, true, false, ◌++◌, Option, none, some, [], ◌∷◌, ok,
  arith, null, length, Bytes, Text, lookup, insert, select, sym,
}
use yakr.Base64.{b64decode, padding}
use yakr.Base64.RoundTrip.{b64decode-append-padding, append-padding-ne}
use yakr.Codec.{Codec, text}
use yakr.Crypto.{Crypto}
use yakr.Capability.{Signed, timestamp_skew_ms, verify_capability_request}
use yakr.Capability.Payload.{CapabilityGrant}
use yakr.Relay.CapabilityStore.{CapabilityGrantStore, is_fresh, is_registered, consume_nonce}
use yakr.Relay.CapabilityStore.Nonces.{
  Reach, Reach-Remembers, consume_nonce-Remembers, consume_nonce-replay, consume_nonce-unused,
  consume_nonce-ne, consume_nonce-active,
}
use yakr.Relay.Auth.{RelayRuntime, Request, given, check_capability}
use yakr.Relay.Auth.Guard.{IsAuthorized, check_capability-IsAuthorized}

given-padded :
    (h : Option Text) (t : Text)
    → given h ≡ some t
    → given (some (t ++ padding t)) ≡ some (t ++ padding t)
given-padded none t e = cc
given-padded (some []) t e = cc
given-padded (some (x ∷ xs)) [] e = cc
given-padded (some (x ∷ xs)) (y ∷ t) e = refl

module _ (c : Codec) (k : Crypto) where
  -- An accepted timestamp is within the skew of the clock.
  timestamp_in_range :
      (now : ℕ) (g : CapabilityGrant) (key signature : Bytes) (r : Signed)
      → verify_capability_request c k now g key signature r ≡ ok tt
      → (r.timestamp_ms ≤ now + timestamp_skew_ms) × (now ≤ r.timestamp_ms + timestamp_skew_ms)
  unfolding verify_capability_request
  timestamp_in_range now g key signature r e = ground arith

  pub is_registered-active :
      (now : ℕ) (g : CapabilityGrant) (s s' : CapabilityGrantStore)
      → s'.active ≡ s.active
      → is_registered c k now g s' ≡ is_registered c k now g s
  unfolding is_registered
  is_registered-active now g s s' e = rw e refl

  module _ (runtime : RelayRuntime) (required : runtime.require_capabilities ≡ true)
      (keyed : null runtime.relay_issuance_public ≡ false) where
    -- Once a request was accepted, no request with the same nonce and timestamp headers is accepted at any
    -- later time, whatever its other parts and whatever calls the registry served in between: the nonce is
    -- remembered at least as long as the timestamp stays within the skew.
    pub replay_refused :
        (now later : ℕ) (request again : Request) (permission permission' : Text)
        (s s₁ s₂ s₃ : CapabilityGrantStore)
        → check_capability c k now runtime request permission s ≡ ok s₁
        → Reach c k now s₁ later s₂
        → again.nonce_header ≡ request.nonce_header
        → again.timestamp_header ≡ request.timestamp_header
        → check_capability c k later runtime again permission' s₂ ≢ ok s₃
    replay_refused now later request again permission permission' s s₁ s₂ s₃ e r same_nonce
          same_time e' =
        let a =
          (check_capability-IsAuthorized c k now runtime request permission s s₁ required keyed).0
            e in
        let b =
          (check_capability-IsAuthorized c k later runtime again permission' s₂ s₃ required keyed).0
            e' in
        let nonces : b.nonce_b64 ≡ a.nonce_b64 =
          cc (a.nonce_given, b.nonce_given, ap given same_nonce) in
        let raws : b.timestamp_raw ≡ a.timestamp_raw =
          cc (a.timestamp_given, b.timestamp_given, ap given same_time) in
        let times : b.timestamp_ms ≡ a.timestamp_ms =
          cc (a.timestamp_read, b.timestamp_read, ap (λ (t : Text). c.int_of (text t)) raws) in
        let sent = timestamp_in_range now a.grant _ a.signature _ a.signed in
        let resent = timestamp_in_range later b.grant _ b.signature _ b.signed in
        let remembered =
          Reach-Remembers c k a.nonce_b64 now r
            (consume_nonce-Remembers now a.nonce_b64 s s₁ a.consumed) in
        consume_nonce-replay later now a.nonce_b64 s₂ s₃ remembered (omega (arith, times))
          (rw nonces at b.consumed)

    -- The nonce is remembered by the text of its header and not by the bytes that are signed: after an accepted
    -- request, the same request whose nonce header has its base64 padding written out is accepted too, at
    -- the same instant, whenever that text was not used before.
    pub padded_nonce_replays :
        (now : ℕ) (request : Request) (permission nonce_b64 : Text) (s s₁ : CapabilityGrantStore)
        → given request.nonce_header ≡ some nonce_b64
        → length nonce_b64 % 4 ≢ 0
        → lookup (nonce_b64 ++ padding nonce_b64) s.seen_nonces ≡ none
        → check_capability c k now runtime request permission s ≡ ok s₁
        → (s₂ : CapabilityGrantStore) × (check_capability c k now runtime
              (record request { nonce_header = some (nonce_b64 ++ padding nonce_b64) })
              permission
              s₁
            ≡ ok s₂)
    padded_nonce_replays now request permission nonce_b64 s s₁ given_nonce odd unused e =
        let a =
          (check_capability-IsAuthorized c k now runtime request permission s s₁ required keyed).0
            e in
        let same : nonce_b64 ≡ a.nonce_b64 = cc (a.nonce_given, given_nonce) in
        let padded = nonce_b64 ++ padding nonce_b64 in
        let first : consume_nonce now nonce_b64 s ≡ ok s₁ = rw same a.consumed in
        let second = consume_nonce-unused now padded s₁ (
          consume_nonce-ne now nonce_b64 padded s s₁ first
            (λ p. append-padding-ne nonce_b64 odd (sym p)) unused) in
        let active = consume_nonce-active now nonce_b64 s s₁ first in
        let request' : Request = record request { nonce_header = some padded } in
        let s₂ : CapabilityGrantStore = record s₁ {
          seen_nonces = insert padded now (select (is_fresh now) s₁.seen_nonces);
        } in
        let b : IsAuthorized c k now runtime request' permission s₁ s₂ = record {
          grant_b64 = a.grant_b64;
          timestamp_raw = a.timestamp_raw;
          nonce_b64 = padded;
          signature_b64 = a.signature_b64;
          grant = a.grant;
          signature = a.signature;
          timestamp_ms = a.timestamp_ms;
          nonce = a.nonce;
          timestamp_given = a.timestamp_given;
          nonce_given = given-padded request.nonce_header nonce_b64 given_nonce;
          grant_given = a.grant_given;
          signature_given = a.signature_given;
          grant_read = a.grant_read;
          signature_read = a.signature_read;
          timestamp_read = a.timestamp_read;
          nonce_read = b64decode-append-padding nonce_b64 ∙ ap b64decode same ∙ a.nonce_read;
          granted = a.granted;
          registered = is_registered-active now a.grant s s₁ active ∙ a.registered;
          allowed = a.allowed;
          signed = a.signed;
          consumed = second;
        } in
        (
          s₂,
          (check_capability-IsAuthorized c k now runtime request' permission s₁ s₂ required keyed).1
              b,
        )
