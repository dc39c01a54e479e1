-- ===== src/Invite/Accepted.antt =====
-- invite.py: an invite is read from its URL as it was made, and accepted until it expires.
use yakr.Prelude.{
  ℕ, ◌+◌, ◌≡◌, refl, ◌∙◌, Bool, true, false, none, some, [], ◌∷◌, ◌++◌, ok, err, arith, ltb, leb,
  ◌||◌, if◌then◌else◌, Bool-cases, inl, inr, null, Bytes, Text, codes, eqb, eqb_refl, contains,
}
use yakr.Base64.{b64encode}
use yakr.Base64.RoundTrip.{b64decode-b64encode}
use yakr.Codec.{
  Codec, bytes, map as dict, Fields, end, field, get, bytes_field, bytes_field_or_empty,
  strs_of-texts,
}
use yakr.Crypto.{Crypto, IsSignature}
use yakr.Invite.{
  Identity, InviteBundle, PqSigner, invite_expired, optional, base_fields, unsigned_dict,
  signed_dict, after_prefix, url_prefix, invite_supports_hybrid, protocol_v4, protocol_v6,
  base_capabilities, hybrid_pq_capability, unsigned_payload, to_bytes, from_bytes, of_value,
  invite_to_url, invite_from_url, draft, signed_once, signed_twice, create_invite, verify_pq,
  verify_invite,
}

after_prefix-append : (p t : Text) → after_prefix p (p ++ t) ≡ some t
unfolding after_prefix
after_prefix-append [] t = refl
after_prefix-append (p ∷ ps) t = ground (arith, after_prefix-append ps t)

-- An entry with another key is passed over.
get-optional_other :
    (key other : Text) (v : Bytes) (rest : Fields)
    → eqb other key ≡ false
    → get key (optional other v rest) ≡ get key rest
unfolding optional
get-optional_other key other [] rest h = refl
get-optional_other key other (b ∷ bs) rest h = rw h refl

optional-filled :
    (key : Text) (v : Bytes) (rest : Fields)
    → null v ≡ false
    → optional key v rest ≡ field key (bytes v) rest
unfolding optional
optional-filled key [] rest h = absurd cc
optional-filled key (b ∷ bs) rest h = refl

module _ (c : Codec) where
  -- An entry that is left out when it is empty is read as it was.
  read-optional :
      (key : Text) (v : Bytes) (rest : Fields)
      → get key rest ≡ none
      → bytes_field_or_empty c key (optional key v rest) ≡ some v
  unfolding optional
  read-optional key [] rest h = rw (bytes_field_or_empty, h) refl
  read-optional key (b ∷ bs) rest h =
      rw (bytes_field_or_empty, eqb_refl key) (c.bytes_of_bytes (b ∷ bs))

  -- The dict of an invite from its last entries on.
  module _ (b : InviteBundle) where
    abbrev last_entries : Fields
    last_entries =
        field (codes "signature") (bytes b.signature)
          (optional (codes "pq_signature") b.pq_signature end)

    abbrev pin_on : Fields
    pin_on = optional (codes "rendezvous_tls_spki_sha256") b.rendezvous_tls_spki_sha256 last_entries

    abbrev pq_on : Fields
    pq_on = optional (codes "pq_signing_public") b.pq_signing_public pin_on

    abbrev kem_on : Fields
    kem_on = optional (codes "kem_public") b.kem_public pq_on

    past_pin :
        (key : Text)
        → eqb (codes "rendezvous_tls_spki_sha256") key ≡ false
        → get key pin_on ≡ get key last_entries
    past_pin key = get-optional_other key _ b.rendezvous_tls_spki_sha256 last_entries

    past_pq :
        (key : Text) → eqb (codes "pq_signing_public") key ≡ false → get key pq_on ≡ get key pin_on
    past_pq key = get-optional_other key _ b.pq_signing_public pin_on

    past_kem : (key : Text) → eqb (codes "kem_public") key ≡ false → get key kem_on ≡ get key pq_on
    past_kem key = get-optional_other key _ b.kem_public pq_on

    no_more :
        (key : Text)
        → eqb (codes "signature") key ≡ false
        → eqb (codes "pq_signature") key ≡ false
        → get key last_entries ≡ none
    no_more key other pq = rw (other, get-optional_other key _ b.pq_signature end pq)

    read_signature : bytes_field c (codes "signature") kem_on ≡ some b.signature
    unfolding eqb
    read_signature =
        rw (bytes_field, past_kem (codes "signature") refl ∙ past_pq _ refl ∙ past_pin _ refl)
          (c.bytes_of_bytes b.signature)

    read_kem : bytes_field_or_empty c (codes "kem_public") kem_on ≡ some b.kem_public
    unfolding eqb
    read_kem =
        read-optional _ b.kem_public pq_on
          (past_pq _ refl ∙ past_pin _ refl ∙ no_more (codes "kem_public") refl refl)

    read_pq_public :
        bytes_field_or_empty c (codes "pq_signing_public") kem_on ≡ some b.pq_signing_public
    unfolding eqb
    read_pq_public =
        rw (bytes_field_or_empty, past_kem (codes "pq_signing_public") refl)
          (read-optional _ b.pq_signing_public pin_on
            (past_pin _ refl ∙ no_more (codes "pq_signing_public") refl refl))

    read_pin :
        bytes_field_or_empty c (codes "rendezvous_tls_spki_sha256") kem_on
        ≡ some b.rendezvous_tls_spki_sha256
    unfolding eqb
    read_pin =
        rw
          (
            bytes_field_or_empty,
            past_kem (codes "rendezvous_tls_spki_sha256") refl ∙ past_pq _ refl,
          )
          (read-optional _ b.rendezvous_tls_spki_sha256 last_entries
            (no_more (codes "rendezvous_tls_spki_sha256") refl refl))

    read_pq_signature : bytes_field_or_empty c (codes "pq_signature") kem_on ≡ some b.pq_signature
    unfolding eqb
    read_pq_signature =
        rw
          (
            bytes_field_or_empty,
            past_kem (codes "pq_signature") refl ∙ past_pq _ refl ∙ past_pin _ refl,
          )
          (read-optional _ b.pq_signature end refl)

    from_bytes-to_bytes : from_bytes c (to_bytes c b) ≡ ok b
    unfolding from_bytes to_bytes of_value signed_dict unsigned_dict base_fields eqb
    from_bytes-to_bytes = rw c.loads-dumps (
        simp
          (
            read_signature, read_kem, read_pq_public, read_pin, read_pq_signature, c.bytes_of_bytes,
            c.str_of_text, c.int_of_int, c.items_of_list, strs_of-texts,
          )
          refl)

    invite_from_url-to_url : invite_from_url c (invite_to_url c b) ≡ ok b
    unfolding invite_from_url invite_to_url
    invite_from_url-to_url = rw (
      after_prefix-append url_prefix (b64encode (to_bytes c b)),
      b64decode-b64encode (to_bytes c b) (unfold to_bytes in c.dumps-IsBytes _),
      from_bytes-to_bytes,
    )

  module _ (k : Crypto) (q : PqSigner) where
    -- What a hybrid invite needs of the identity: its keys, and a key pair of ML-DSA that works.
    pub record IsHybridReady (i : Identity) : Type 0 where
      pub has_kem : null i.kem_public ≡ false
      pub has_private : null i.pq_signing_private ≡ false
      pub has_public : null i.pq_signing_public ≡ false
      pub pq_verifies :
          (message : Bytes)
          → q.verify i.pq_signing_public message (q.sign i.pq_signing_private message) ≡ true

    verify_invite-signed :
        (later : ℕ) (b : InviteBundle)
        → (eqb b.protocol protocol_v4 || eqb b.protocol protocol_v6) ≡ true
        → k.ed25519_verify b.signing_public b.signature (unsigned_payload c b) ≡ true
        → verify_pq c k q b ≡ ok tt
        → verify_invite c k q later b
          ≡ (if ltb later b.expires_at then ok tt else err invite_expired)
    unfolding verify_invite
    verify_invite-signed later b known signed pq = elim (Bool-cases (ltb later b.expires_at)) [
      | inl early ↦
          let current : leb b.expires_at later ≡ false = ground arith in
          rw (known, current, signed, early) pq
      | inr over ↦
          let expired : leb b.expires_at later ≡ true = ground arith in
          rw (known, expired, over) refl
    ]

    -- An identity that can make both signatures makes an invite whose signatures verify.
    signed_twice-verifies :
        (l : IsSignature k) (i : Identity) (r : IsHybridReady i) (b : InviteBundle)
        → (let invite = signed_twice c k q i b in
            k.ed25519_verify
                (k.ed25519_public i.signing_private)
                invite.signature
                (unsigned_payload c invite)
              ≡ true
            × (verify_pq c k q invite ≡ ok tt))
    unfolding signed_twice verify_pq unsigned_payload unsigned_dict
    signed_twice-verifies l i r b =
        let pin_on =
          optional (codes "rendezvous_tls_spki_sha256") b.rendezvous_tls_spki_sha256 end in
        let pq_on = field (codes "pq_signing_public") (bytes i.pq_signing_public) pin_on in
        let payload =
          c.dumps (dict (base_fields b (field (codes "kem_public") (bytes i.kem_public) pq_on))) in
        let same : unsigned_payload c (signed_twice c k q i b) ≡ payload =
          rw
            (
              unsigned_payload,
              optional-filled _ i.pq_signing_public pin_on r.has_public,
              optional-filled _ i.kem_public pq_on r.has_kem,
            )
            refl in
        (
          rw same (l.verifies i.signing_private payload),
          elim (Bool-cases (null (q.sign i.pq_signing_private payload))) [
            | inl empty ↦ rw (verify_pq, empty) refl
            | inr filled ↦ rw (verify_pq, filled, r.has_public, same, r.pq_verifies payload) refl
          ],
        )

    -- An invite is made, read from its URL as it was made, and accepted until it expires; it carries the
    -- secret, and supports hybrid pairings exactly if that was asked for. A hybrid invite needs an identity with
    -- a key of ML-KEM and a pair of keys of ML-DSA that works.
    pub created_invite_is_accepted :
        (l : IsSignature k) (now later ttl_ms : ℕ) (secret pin : Bytes) (hint : Text)
        (hybrid : Bool) (i : Identity)
        → (hybrid ≡ true → IsHybridReady i)
        → (b : InviteBundle) × (create_invite c k q now secret i hint pin ttl_ms hybrid ≡ ok b)
          × (invite_from_url c (invite_to_url c b) ≡ ok b)
          × (verify_invite c k q later b
              ≡ (if ltb later (now + ttl_ms) then ok tt else err invite_expired))
          × (invite_supports_hybrid b ≡ hybrid)
          × (b.invite_secret ≡ secret)
    unfolding create_invite invite_supports_hybrid draft signed_once signed_twice unsigned_payload
        unsigned_dict optional verify_pq eqb contains
    created_invite_is_accepted l now later ttl_ms secret pin hint false i ready = (
      _,
      refl,
      invite_from_url-to_url _,
      verify_invite-signed later _ refl (l.verifies i.signing_private _) refl,
      refl,
      refl,
    )
    created_invite_is_accepted l now later ttl_ms secret pin hint true i ready =
        let r = ready refl in
        let hybrid =
          draft c k q now secret i hint pin ttl_ms protocol_v6
            (base_capabilities ++ hybrid_pq_capability ∷ []) in
        let (ed, pq) = signed_twice-verifies l i r hybrid in
        (
          signed_twice c k q i hybrid,
          rw (r.has_kem, r.has_private) refl,
          invite_from_url-to_url _,
          verify_invite-signed later _ refl ed pq,
          rw r.has_kem refl,
          refl,
        )
