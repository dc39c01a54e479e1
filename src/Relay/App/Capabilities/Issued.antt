-- ===== src/Relay/App/Capabilities/Issued.antt =====
-- relay/app.py: what `issue_capability` leaves behind.
use yakr.Prelude.{
  ℕ, ◌+◌, ◌≤◌, ◌≡◌, refl, ap, sym, subst, ok-injective, inl, inr, true, false, not, none, some, ok,
  err, bind-eq-ok, Result-cases, raise_if-then-eq-ok, on_error-eq-ok, or_raise, or_raise-eq-ok,
  Text, length, null, ◌==◌, arith, ltb,
}
use yakr.Base64.{b64decode}
use yakr.Codec.{Codec}
use yakr.Crypto.{Crypto}
use yakr.Capability.Payload.{CapabilityGrant, GrantError, id_length, pin_length, to_b64, from_b64}
use yakr.Capability.{verify_capability_grant, issue_capability_grant, default_capability_ttl_ms}
use yakr.Capability.RoundTrip.{from_b64-to_b64}
use yakr.Relay.CapabilityStore.{CapabilityGrantStore, register, is_registered, revoke_with_overlap}
use yakr.Relay.CapabilityStore.Registration.{register-eq-ok, register-is_registered}
use yakr.Relay.CapabilityStore.Revocation.{is_registered-revoke_with_overlap}
use yakr.Relay.Auth.{RelayRuntime, check_bootstrap_ticket, given}
use yakr.Relay.App.Capabilities.{
  CapabilityIssueRequest, supersede, supersede_given, signed_grant, register_here, issue_capability,
}

module _ (c : Codec) (k : Crypto) where
  -- What the relay put in a grant that it signed.
  pub record IsAsked (now : ℕ) (runtime : RelayRuntime) (request : CapabilityIssueRequest)
      (grant : CapabilityGrant) : Type 0 where
    pub ticket : check_bootstrap_ticket c k now runtime request.ticket ≡ ok tt
    pub permissions : grant.permissions ≡ request.permissions
    pub auth_public : b64decode request.auth_public ≡ some grant.auth_public
    pub expires_at : grant.expires_at ≡ now + default_capability_ttl_ms

  signed_grant-IsAsked :
      (now : ℕ) (runtime : RelayRuntime) (request : CapabilityIssueRequest)
      (grant : CapabilityGrant)
      → signed_grant c k now runtime request ≡ ok grant
      → IsAsked now runtime request grant
  unfolding signed_grant issue_capability_grant
  signed_grant-IsAsked now runtime request grant e =
      let (e1, r1) = raise_if-then-eq-ok (null runtime.relay_issuance_private) 500 _ e in
      let (u, e2, r2) = bind-eq-ok (check_bootstrap_ticket c k now runtime request.ticket) _ r1 in
      let (auth_public, e3, r3) = bind-eq-ok (or_raise (b64decode request.auth_public) 400) _ r2 in
      let (capability_id, e4, r4) =
        bind-eq-ok (or_raise (b64decode request.capability_id) 400) _ r3 in
      let (salt, e5, r5) = bind-eq-ok (or_raise (b64decode request.issuance_salt) 400) _ r4 in
      let (e6, r6) = raise_if-then-eq-ok (not (length capability_id == 16)) 400 _ r5 in
      let (e7, r7) = raise_if-then-eq-ok (not (length salt == 16)) 400 _ r6 in
      let (e8, r8) =
        raise_if-then-eq-ok (not (length runtime.relay_issuance_private == 32)) 400 _ r7 in
      let issued = on_error-eq-ok (λ _. 400) _ r8 in
      let (e9, r9) = raise_if-then-eq-ok (not (length capability_id == 16)) id_length _ issued in
      let (e10, r10) =
        raise_if-then-eq-ok (not (length runtime.relay_tls_spki_sha256 == 32)) pin_length _ r9 in
      let made = sym (ok-injective r10) in
      record {
        ticket = e2;
        permissions = ap (λ (g : CapabilityGrant). g.permissions) made;
        auth_public =
            subst (λ (g : CapabilityGrant). b64decode request.auth_public ≡ some g.auth_public)
              (sym made) (or_raise-eq-ok _ 400 e3);
        expires_at = ap (λ (g : CapabilityGrant). g.expires_at) made;
      }

  -- A grant that was returned: as it was asked for, verified and registered.
  pub record IsIssued (now : ℕ) (runtime : RelayRuntime) (request : CapabilityIssueRequest)
      (reply : Text) (s' : CapabilityGrantStore) (grant : CapabilityGrant) : Type 0 where
    pub asked : IsAsked now runtime request grant
    pub read : from_b64 c reply ≡ ok grant
    pub verified :
        verify_capability_grant c k now runtime.relay_issuance_public runtime.name
          runtime.relay_tls_spki_sha256 grant
        ≡ ok tt
    pub registered : (later : ℕ) → is_registered c k later grant s' ≡ ok true

  pub issue_capability-IsIssued :
      (now : ℕ) (runtime : RelayRuntime) (request : CapabilityIssueRequest)
      (s s' : CapabilityGrantStore) (reply : Text)
      → issue_capability c k now runtime request s ≡ (ok reply, s')
      → (grant : CapabilityGrant) × IsIssued now runtime request reply s' grant
  unfolding issue_capability register_here
  issue_capability-IsIssued now runtime request s s' reply e =
      elim (Result-cases (signed_grant c k now runtime request)) [
        | inr (status, failed) ↦ absurd (ground arith)
        | inl (grant, signed) ↦
            elim (Result-cases (supersede now request.supersedes_capability_id s)) [
              | inr (status, failed) ↦ absurd (ground arith)
              | inl (revoked, did) ↦
                  elim (Result-cases (register_here c k now runtime grant revoked)) [
                    | inr (status, failed) ↦ absurd (ground arith)
                    | inl (s₂, done) ↦
                        let (verified, checked, inserted) =
                          register-eq-ok c k now runtime.relay_issuance_public runtime.name
                            runtime.relay_tls_spki_sha256 grant revoked s₂ done in
                        let text : to_b64 c grant ≡ reply = ground arith in
                        let left : s₂ ≡ s' = ground arith in
                        (
                          grant,
                          record {
                            asked = signed_grant-IsAsked now runtime request grant signed;
                            read =
                                subst (λ t. from_b64 c t ≡ ok grant) text (from_b64-to_b64 c grant);
                            verified = verified;
                            registered = λ later.
                                subst (λ x. is_registered c k later grant x ≡ ok true) left
                                  (register-is_registered c k now later
                                    runtime.relay_issuance_public runtime.name
                                    runtime.relay_tls_spki_sha256 grant revoked s₂ done);
                          },
                        )
                  ]
            ]
      ]

  -- A grant that `issue_capability` returns can be read back, was asked for with a valid ticket, is accepted by the
  -- relay's own verification, and is registered from then on.
  pub issued_grant_is_registered :
      (now later : ℕ) (runtime : RelayRuntime) (request : CapabilityIssueRequest)
      (s s' : CapabilityGrantStore) (reply : Text)
      → issue_capability c k now runtime request s ≡ (ok reply, s')
      → (grant : CapabilityGrant) × (from_b64 c reply ≡ ok grant)
        × (check_bootstrap_ticket c k now runtime request.ticket ≡ ok tt)
        × (grant.permissions ≡ request.permissions)
        × (verify_capability_grant c k now runtime.relay_issuance_public runtime.name
              runtime.relay_tls_spki_sha256 grant
            ≡ ok tt)
        × (is_registered c k later grant s' ≡ ok true)
  issued_grant_is_registered now later runtime request s s' reply e =
      let (grant, i) = issue_capability-IsIssued now runtime request s s' reply e in
      (grant, i.read, i.asked.ticket, i.asked.permissions, i.verified, i.registered later)

  -- A rotation that is refused with 400 because the new grant cannot be registered has revoked the old one all the
  -- same: it stops passing when the overlap window of the store ends.
  pub failed_rotation_revokes :
      (now at later : ℕ) (runtime : RelayRuntime) (request : CapabilityIssueRequest)
      (s : CapabilityGrantStore) (grant old : CapabilityGrant) (id_b64 : Text) (e : GrantError)
      → signed_grant c k now runtime request ≡ ok grant
      → given request.supersedes_capability_id ≡ some id_b64
      → b64decode id_b64 ≡ some old.capability_id
      → is_registered c k at old s ≡ ok true
      → register c k now runtime.relay_issuance_public runtime.name runtime.relay_tls_spki_sha256
          grant
          (revoke_with_overlap now none old.capability_id s)
        ≡ err e
      → now + s.overlap_window_ms ≤ later
      → (s' : CapabilityGrantStore) × (issue_capability c k now runtime request s ≡ (err 400, s'))
        × (is_registered c k later old s' ≡ ok false)
  unfolding issue_capability supersede supersede_given register_here revoke_with_overlap
  failed_rotation_revokes now at later runtime request s grant old id_b64 e signed named read known
        failed late =
      let over : ltb later (now + s.overlap_window_ms) ≡ false = ground arith in
      let revoked =
        is_registered-revoke_with_overlap c k now at later s.overlap_window_ms old s known in
      (
        revoke_with_overlap now none old.capability_id s,
        rw (signed, named, read, failed) refl,
        rw over at revoked,
      )
