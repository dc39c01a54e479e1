-- ===== src/Relay/Auth/Entitled.antt =====
-- relay/app.py `_check_capability`, capability_grant.py and capability_store.py: what the guard demands of a request,
-- with none of the functions that check it.
use yakr.Prelude.{
  ℕ, ◌+◌, ◌-◌, ◌≤◌, ◌<◌, ◌≡◌, ◌↔◌, ◌⊎◌, inl, inr, true, false, Option, none, some, Option-cases,
  List, ◌∷◌, ◌++◌, Result-cases, ok, null, leb, ◌==◌, not, if◌then◌else◌, ok-injective, ap, length,
  select, lookup, insert, contains, Bytes, Text, codes, decimal, eqb, eqb_iff, arith,
}
use yakr.Base64.{b64encode, b64decode}
use yakr.Codec.{Codec, text}
use yakr.Crypto.{Crypto}
use yakr.Capability.Payload.{CapabilityGrant, from_b64, unsigned_payload}
use yakr.Capability.{
  Signed, timestamp_skew_ms, upper, normalize_permission, grant_allows_permission,
  verify_capability_grant, verify_capability_request, is_skewed, capability_request_signing_input,
}
use yakr.Relay.CapabilityStore.{
  CapabilityGrantStore, Entry, nonce_ttl_ms, is_fresh, is_registered, consume_nonce,
}
use yakr.Relay.Auth.{RelayRuntime, Request, given, check_capability}
use yakr.Relay.Auth.Guard.{IsAuthorized, signed_part, check_capability-IsAuthorized}

-- An entry that was not revoked, or whose overlap window is not over.
abbrev InForce : ℕ → Option ℕ → Type 0
InForce now none = Unit
InForce now (some until) = now < until

-- A grant to `post` is one to `store`.
abbrev pub Allows : Text → List Text → Type 0
Allows permission granted =
    (contains permission granted ≡ true)
    ⊎ ((eqb permission (codes "store") ≡ true) × (contains (codes "post") granted ≡ true))

-- The registry at `now`: the nonces older than ten minutes are dropped, and this one is added.
abbrev pub recorded : ℕ → Text → CapabilityGrantStore → CapabilityGrantStore
recorded now nonce s = record s {
  seen_nonces = insert nonce now (select (λ (key, at). leb (now - at) nonce_ttl_ms) s.seen_nonces);
}

module _ (c : Codec) (k : Crypto) where
  -- What a request and the grant that it carries must be.
  pub record IsEntitled (now : ℕ) (runtime : RelayRuntime) (request : Request) (permission : Text)
      (s s' : CapabilityGrantStore) : Type 0 where
    pub grant_b64 : Text
    pub timestamp_raw : Text
    pub nonce_b64 : Text
    pub signature_b64 : Text
    pub grant : CapabilityGrant
    pub signature : Bytes
    pub timestamp_ms : ℕ
    pub nonce : Bytes
    pub entry : Entry
    pub stored : CapabilityGrant
    pub timestamp_given : given request.timestamp_header ≡ some timestamp_raw
    pub nonce_given : given request.nonce_header ≡ some nonce_b64
    pub grant_given : given request.grant_header ≡ some grant_b64
    pub signature_given : given request.signature_header ≡ some signature_b64
    pub grant_read : from_b64 c grant_b64 ≡ ok grant
    pub signature_read : b64decode signature_b64 ≡ some signature
    pub timestamp_read : c.int_of (text timestamp_raw) ≡ some timestamp_ms
    pub nonce_read : b64decode nonce_b64 ≡ some nonce
    pub alive : now < grant.expires_at
    pub for_relay : grant.relay_name ≡ runtime.name
    pub for_certificate : grant.relay_tls_spki_sha256 ≡ runtime.relay_tls_spki_sha256
    pub relay_signed :
        k.ed25519_verify runtime.relay_issuance_public grant.relay_signature
          (unsigned_payload c grant)
        ≡ true
    pub entry_found : lookup (b64encode grant.capability_id) s.active ≡ some entry
    pub stored_read : from_b64 c entry.grant_b64 ≡ ok stored
    pub generation : stored.capability_generation ≡ grant.capability_generation
    pub in_force : InForce now entry.overlap_until_ms
    pub allowed : Allows permission grant.permissions
    pub not_early : timestamp_ms ≤ now + timestamp_skew_ms
    pub not_late : now ≤ timestamp_ms + timestamp_skew_ms
    pub nonce_size : length nonce ≡ 16
    pub client_signed :
        k.ed25519_verify grant.auth_public signature (
          upper request.method
          ++ b'\n'
            ∷ (request.path
                ++ b'\n'
                  ∷ (k.sha256 request.body ++ b'\n' ∷ (decimal timestamp_ms ++ b'\n' ∷ nonce))))
        ≡ true
    pub unused :
        lookup nonce_b64 (select (λ (key, at). leb (now - at) nonce_ttl_ms) s.seen_nonces) ≡ none
    pub after : s' ≡ recorded now nonce_b64 s

  verify_capability_grant_iff :
      (now : ℕ) (relay_public : Bytes) (name : Text) (pin : Bytes) (g : CapabilityGrant)
      → (verify_capability_grant c k now relay_public name pin g ≡ ok tt) ↔ (
          (now < g.expires_at)
          × (g.relay_name ≡ name)
          × (g.relay_tls_spki_sha256 ≡ pin)
          × (k.ed25519_verify relay_public g.relay_signature (unsigned_payload c g) ≡ true))
  unfolding verify_capability_grant
  verify_capability_grant_iff now relay_public name pin g =
      ground (arith, eqb_iff g.relay_name name, eqb_iff g.relay_tls_spki_sha256 pin)

  verify_capability_request_iff :
      (now : ℕ) (g : CapabilityGrant) (signature : Bytes) (r : Signed)
      → (verify_capability_request c k now g g.auth_public signature r ≡ ok tt) ↔ (
          (r.timestamp_ms ≤ now + timestamp_skew_ms)
          × (now ≤ r.timestamp_ms + timestamp_skew_ms)
          × (length r.nonce ≡ 16)
          × (k.ed25519_verify g.auth_public signature (capability_request_signing_input c k r)
              ≡ true))
  unfolding verify_capability_request is_skewed
  verify_capability_request_iff now g signature r =
      ground (arith, eqb_iff g.auth_public g.auth_public)

  pub grant_allows_permission-Allows :
      (g : CapabilityGrant) (permission : Text)
      → (grant_allows_permission g permission ≡ true) ↔ Allows permission g.permissions
  unfolding grant_allows_permission normalize_permission
  grant_allows_permission-Allows g permission = ground (arith, eqb_iff permission (codes "forward"))

  consume_nonce-recorded :
      (now : ℕ) (nonce : Text) (s s' : CapabilityGrantStore)
      → (consume_nonce now nonce s ≡ ok s') ↔ (
          (lookup nonce (select (λ (key, at). leb (now - at) nonce_ttl_ms) s.seen_nonces) ≡ none)
          × (s' ≡ recorded now nonce s))
  unfolding consume_nonce is_fresh
  consume_nonce-recorded now nonce s s' =
      elim (Option-cases (lookup nonce (select (is_fresh now) s.seen_nonces))) [
        | inl absent ↦ ((λ e. (absent, ground arith)), (λ (u, after). ground (arith, after)))
        | inr (at, seen) ↦ ((λ e. absurd (ground arith)), (λ (u, after). absurd (cc (seen, u))))
      ]

  is_registered-InForce :
      (now stored own : ℕ) (o : Option ℕ)
      → ((if stored == own
            then not (elim o [ none ↦ false | some until ↦ leb until now ])
            else false)
          ≡ true)
        ↔ ((stored ≡ own) × InForce now o)
  is_registered-InForce now stored own none = ground arith
  is_registered-InForce now stored own (some until) = ground arith

  -- The entry under the grant's id has its generation and is in force.
  IsKnown : ℕ → CapabilityGrant → CapabilityGrantStore → Type 0
  IsKnown now g s =
      (entry : Entry) × (stored : CapabilityGrant) × (lookup (b64encode g.capability_id) s.active
        ≡ some entry)
      × (from_b64 c entry.grant_b64 ≡ ok stored)
      × (stored.capability_generation ≡ g.capability_generation)
      × InForce now entry.overlap_until_ms

  is_registered-IsKnown :
      (now : ℕ) (g : CapabilityGrant) (s : CapabilityGrantStore)
      → is_registered c k now g s ≡ ok true
      → IsKnown now g s
  unfolding is_registered IsKnown
  is_registered-IsKnown now g s e =
      elim (Option-cases (lookup (b64encode g.capability_id) s.active)) [
        | inl absent ↦ absurd (ground (arith, rw absent at e))
        | inr (entry, found) ↦ elim (Result-cases (from_b64 c entry.grant_b64)) [
          | inr (err_, bad) ↦ absurd (ground arith)
          | inl (stored, read) ↦
              let (same, force) =
                (is_registered-InForce now stored.capability_generation g.capability_generation
                    entry.overlap_until_ms).0
                  (ok-injective (rw (found, read) at e)) in
              (entry, stored, found, read, same, force)
        ]
      ]

  IsKnown-is_registered :
      (now : ℕ) (g : CapabilityGrant) (s : CapabilityGrantStore)
      → IsKnown now g s
      → is_registered c k now g s ≡ ok true
  unfolding is_registered IsKnown
  IsKnown-is_registered now g s h =
      let (entry, stored, found, read, generation, force) = h in
      rw (found, read)
        (ap ok (
          (is_registered-InForce now stored.capability_generation g.capability_generation
              entry.overlap_until_ms).1
            (generation, force)))

  IsAuthorized-IsEntitled :
      (now : ℕ) (runtime : RelayRuntime) (request : Request) (permission : Text)
      (s s' : CapabilityGrantStore)
      → IsAuthorized c k now runtime request permission s s'
      → IsEntitled now runtime request permission s s'
  unfolding IsKnown capability_request_signing_input
  IsAuthorized-IsEntitled now runtime request permission s s' a =
      let (alive, name, pin, relay_signed) =
        (verify_capability_grant_iff now runtime.relay_issuance_public runtime.name
            runtime.relay_tls_spki_sha256 a.grant).0
          a.granted in
      let (entry, stored, found, read, generation, force) =
        is_registered-IsKnown now a.grant s a.registered in
      let (early, late, size, client_signed) =
        (verify_capability_request_iff now a.grant a.signature
            (signed_part request a.timestamp_ms a.nonce)).0
          a.signed in
      let (unused, after) = (consume_nonce-recorded now a.nonce_b64 s s').0 a.consumed in
      record {
        grant_b64 = a.grant_b64;
        timestamp_raw = a.timestamp_raw;
        nonce_b64 = a.nonce_b64;
        signature_b64 = a.signature_b64;
        grant = a.grant;
        signature = a.signature;
        timestamp_ms = a.timestamp_ms;
        nonce = a.nonce;
        entry = entry;
        stored = stored;
        timestamp_given = a.timestamp_given;
        nonce_given = a.nonce_given;
        grant_given = a.grant_given;
        signature_given = a.signature_given;
        grant_read = a.grant_read;
        signature_read = a.signature_read;
        timestamp_read = a.timestamp_read;
        nonce_read = a.nonce_read;
        alive = alive;
        for_relay = name;
        for_certificate = pin;
        relay_signed = relay_signed;
        entry_found = found;
        stored_read = read;
        generation = generation;
        in_force = force;
        allowed = (grant_allows_permission-Allows a.grant permission).0 a.allowed;
        not_early = early;
        not_late = late;
        nonce_size = size;
        client_signed = client_signed;
        unused = unused;
        after = after;
      }

  IsEntitled-IsAuthorized :
      (now : ℕ) (runtime : RelayRuntime) (request : Request) (permission : Text)
      (s s' : CapabilityGrantStore)
      → IsEntitled now runtime request permission s s'
      → IsAuthorized c k now runtime request permission s s'
  unfolding IsKnown capability_request_signing_input
  IsEntitled-IsAuthorized now runtime request permission s s' a = record {
    grant_b64 = a.grant_b64;
    timestamp_raw = a.timestamp_raw;
    nonce_b64 = a.nonce_b64;
    signature_b64 = a.signature_b64;
    grant = a.grant;
    signature = a.signature;
    timestamp_ms = a.timestamp_ms;
    nonce = a.nonce;
    timestamp_given = a.timestamp_given;
    nonce_given = a.nonce_given;
    grant_given = a.grant_given;
    signature_given = a.signature_given;
    grant_read = a.grant_read;
    signature_read = a.signature_read;
    timestamp_read = a.timestamp_read;
    nonce_read = a.nonce_read;
    granted =
        (verify_capability_grant_iff now runtime.relay_issuance_public runtime.name
            runtime.relay_tls_spki_sha256 a.grant).1
          (a.alive, a.for_relay, a.for_certificate, a.relay_signed);
    registered =
        IsKnown-is_registered now a.grant s
          (a.entry, a.stored, a.entry_found, a.stored_read, a.generation, a.in_force);
    allowed = (grant_allows_permission-Allows a.grant permission).1 a.allowed;
    signed =
        (verify_capability_request_iff now a.grant a.signature
            (signed_part request a.timestamp_ms a.nonce)).1
          (a.not_early, a.not_late, a.nonce_size, a.client_signed);
    consumed = (consume_nonce-recorded now a.nonce_b64 s s').1 (a.unused, a.after);
  }

  -- On a relay that requires capabilities and has its issuance key, a request passes exactly when it carries what
  -- `IsEntitled` lists: a grant that the relay signed for its own name and certificate, that has not expired, whose
  -- id has an entry of the same generation that is in force, and that allows the operation; and a signature of the
  -- grant's key over the request, with a timestamp within five minutes of the relay's clock and a nonce of 16
  -- bytes that was not used in the last ten minutes. Then the registry has that nonce, without the nonces that are older
  -- than ten minutes, and is otherwise as it was.
  pub check_capability_iff :
      (now : ℕ) (runtime : RelayRuntime) (request : Request) (permission : Text)
      (s s' : CapabilityGrantStore)
      → runtime.require_capabilities ≡ true
      → null runtime.relay_issuance_public ≡ false
      → (check_capability c k now runtime request permission s ≡ ok s')
        ↔ IsEntitled now runtime request permission s s'
  check_capability_iff now runtime request permission s s' required keyed =
      let steps =
        check_capability-IsAuthorized c k now runtime request permission s s' required keyed in
      (
        λ e. IsAuthorized-IsEntitled now runtime request permission s s' (steps.0 e),
        λ a. steps.1 (IsEntitled-IsAuthorized now runtime request permission s s' a),
      )
