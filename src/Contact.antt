-- ===== src/Contact.antt =====
-- packages/yakr-core/src/yakr_core/identity.py: a paired contact and the dict that it is saved as.
pub mod RoundTrip
use yakr.Prelude.{
  ℕ, ◌≡◌, Bool, true, false, not, Option, none, some, List, [], ◌∷◌, ◌++◌, Result, ok, err, ◌>>=◌,
  or_raise, ltb, ◌==◌, if◌then◌else◌, null, Bytes, Text, codes, eqb, on_error,
}
use yakr.Base64.{b64encode, b64decode}
use yakr.Codec.{Codec}
use yakr.DeliveryProfile.Payload.{DeliveryProfile, to_b64, from_b64}
use yakr.Names.{join_names, split_names}
use yakr.Privacy.{PrivacyMode, fast, balanced, high}
use yakr.Ratchet.State.{RatchetState, SavedRatchet, to_dict, from_dict}

-- `ratchet` is there: a `Session` refuses a contact without one.
pub record Contact : Type 0 where
  pub name : Text
  pub signing_public : Bytes
  pub agreement_public : Bytes
  pub master_secret : Bytes
  pub conversation_id : Text
  pub next_send_seq : ℕ
  pub last_recv_seq : ℕ
  pub contact_id : Option Bytes
  pub transcript_hash : Option Bytes
  pub ratchet : RatchetState
  pub delivery_profile : Option DeliveryProfile
  pub peer_acked_my_profile_version : ℕ
  pub peer_acked_my_relay_names : List Text
  pub hybrid_pq : Bool
  pub session_started_at : ℕ
  pub privacy_mode : PrivacyMode

-- The dict that `to_dict` makes; `none` is a key that is not there. JSON reads it as it was written.
pub record SavedContact : Type 0 where
  pub name : Text
  pub signing_public : Text
  pub agreement_public : Text
  pub master_secret : Text
  pub conversation_id : Text
  pub next_send_seq : ℕ
  pub last_recv_seq : ℕ
  pub contact_id : Option Text
  pub transcript_hash : Option Text
  pub ratchet : SavedRatchet
  pub delivery_profile : Option Text
  pub peer_acked_my_profile_version : Option ℕ
  pub peer_acked_my_relay_names : Option Text
  pub hybrid_pq : Option ℕ
  pub session_started_at : Option ℕ
  pub privacy_mode : Option Text

-- What `from_dict` raises; a mode that is no `PrivacyMode` is refused here, and by its first use in the source.
pub data ContactError : Type 0 where
  bad_base64 bad_ratchet bad_profile unknown_mode : ContactError

abbrev encoded : Option Bytes → Option Text
encoded none = none
encoded (some bs) = some (b64encode bs)

-- `if value:`
abbrev unless_zero : ℕ → Option ℕ
unless_zero n = if n == 0 then none else some n

abbrev joined : List Text → Option Text
joined [] = none
joined (n ∷ ns) = some (join_names (n ∷ ns))

abbrev saved_mode : PrivacyMode → Option Text
saved_mode fast = none
saved_mode balanced = some (codes "balanced")
saved_mode high = some (codes "high")

abbrev number_or : ℕ → Option ℕ → ℕ
number_or default_value none = default_value
number_or default_value (some n) = n

abbrev names_of : Option Text → List Text
names_of none = []
names_of (some t) = split_names t

abbrev decoded : Option Text → Result ContactError (Option Bytes)
decoded none = ok none
decoded (some t) = do bs ← or_raise (b64decode t) bad_base64; ok (some bs)

mode_of : Option Text → Result ContactError PrivacyMode
mode_of none = ok fast
mode_of (some t) =
    if eqb t (codes "fast")
    then ok fast
    else if eqb t (codes "balanced")
    then ok balanced
    else if eqb t (codes "high")
    then ok high
    else err unknown_mode

-- `a < b` on texts.
unfoldable pub text_ltb : Text → Text → Bool
text_ltb [] [] = false
text_ltb [] (b ∷ bs) = true
text_ltb (a ∷ as') [] = false
text_ltb (a ∷ as') (b ∷ bs) = if ltb a b then true else if a == b then text_ltb as' bs else false

-- `left, right = sorted([a, b])`
unfoldable pub conversation_id_for : Text → Text → Text
conversation_id_for a b =
    if text_ltb b a
    then codes "pairwise_" ++ (b ++ b'_' ∷ a)
    else codes "pairwise_" ++ (a ++ b'_' ∷ b)

module _ (c : Codec) where
  abbrev saved_profile : Option DeliveryProfile → Option Text
  saved_profile none = none
  saved_profile (some p) = some (to_b64 c p)

  abbrev profile_of : Option Text → Result ContactError (Option DeliveryProfile)
  profile_of none = ok none
  profile_of (some t) = on_error (λ _. bad_profile) (do p ← from_b64 c t; ok (some p))

  unfoldable pub contact_to_dict : Contact → SavedContact
  contact_to_dict x = record {
    name = x.name;
    signing_public = b64encode x.signing_public;
    agreement_public = b64encode x.agreement_public;
    master_secret = b64encode x.master_secret;
    conversation_id = x.conversation_id;
    next_send_seq = x.next_send_seq;
    last_recv_seq = x.last_recv_seq;
    contact_id = encoded x.contact_id;
    transcript_hash = encoded x.transcript_hash;
    ratchet = to_dict x.ratchet;
    delivery_profile = saved_profile x.delivery_profile;
    peer_acked_my_profile_version = unless_zero x.peer_acked_my_profile_version;
    peer_acked_my_relay_names = joined x.peer_acked_my_relay_names;
    hybrid_pq = if x.hybrid_pq then some 1 else none;
    session_started_at = unless_zero x.session_started_at;
    privacy_mode = saved_mode x.privacy_mode;
  }

  unfoldable pub contact_from_dict : SavedContact → Result ContactError Contact
  unfolding mode_of
  contact_from_dict d = do
    ratchet ← on_error (λ _. bad_ratchet) (from_dict d.ratchet)
    profile ← profile_of d.delivery_profile
    contact_id ← decoded d.contact_id
    transcript_hash ← decoded d.transcript_hash
    signing ← or_raise (b64decode d.signing_public) bad_base64
    agreement ← or_raise (b64decode d.agreement_public) bad_base64
    master ← or_raise (b64decode d.master_secret) bad_base64
    mode ← mode_of d.privacy_mode
    ok (record {
      name = d.name;
      signing_public = signing;
      agreement_public = agreement;
      master_secret = master;
      conversation_id = d.conversation_id;
      next_send_seq = d.next_send_seq;
      last_recv_seq = d.last_recv_seq;
      contact_id = contact_id;
      transcript_hash = transcript_hash;
      ratchet = ratchet;
      delivery_profile = profile;
      peer_acked_my_profile_version = number_or 0 d.peer_acked_my_profile_version;
      peer_acked_my_relay_names = names_of d.peer_acked_my_relay_names;
      hybrid_pq = not (number_or 0 d.hybrid_pq == 0);
      session_started_at = number_or 0 d.session_started_at;
      privacy_mode = mode;
    })
