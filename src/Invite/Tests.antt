-- ===== src/Invite/Tests.antt =====
-- invite.py: an example, a hybrid invite and its URL.
use yakr.Prelude.{
  ◌+◌, ◌≡◌, refl, true, [], ◌∷◌, ◌++◌, ok, err, ltb, if◌then◌else◌, codes, eqb, eqb_refl,
}
use yakr.Codec.Sample.Laws.{sample}
use yakr.Crypto.{signing_crypto, signing_crypto-IsSignature}
use yakr.Invite.{
  Identity, InviteBundle, PqSigner, invite_expired, create_invite, invite_to_url, invite_from_url,
  verify_invite, invite_supports_hybrid,
}
use yakr.Invite.Accepted.{IsHybridReady, created_invite_is_accepted}

abbrev alice : Identity
alice = record {
  name = codes "Alice";
  signing_private = 1 ∷ [];
  agreement_private = 2 ∷ [];
  kem_public = 3 ∷ [];
  pq_signing_public = 4 ∷ [];
  pq_signing_private = 4 ∷ [];
}

-- A signature is the key before the message.
abbrev signer : PqSigner
signer = record {
  sign = λ private message. private ++ message;
  verify = λ public message signature. eqb signature (public ++ message);
}

alice-IsHybridReady : IsHybridReady sample signing_crypto signer alice
alice-IsHybridReady = record {
  has_kem = refl;
  has_private = refl;
  has_public = refl;
  pq_verifies = λ message. eqb_refl (4 ∷ message);
}

created_invite_is_accepted_example :
    (b : InviteBundle) × (create_invite sample signing_crypto signer 1000
        (5 ∷ [])
        alice
        (codes "https://relay")
        (6 ∷ [])
        500
        true
      ≡ ok b)
    × (invite_from_url sample (invite_to_url sample b) ≡ ok b)
    × (verify_invite sample signing_crypto signer 1200 b
        ≡ (if ltb 1200 (1000 + 500) then ok tt else err invite_expired))
    × (invite_supports_hybrid b ≡ true)
    × (b.invite_secret ≡ 5 ∷ [])
created_invite_is_accepted_example =
    created_invite_is_accepted sample signing_crypto signer signing_crypto-IsSignature 1000 1200 500
      (5 ∷ []) (6 ∷ []) (codes "https://relay") true alice (λ _. alice-IsHybridReady)
