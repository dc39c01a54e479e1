-- ===== src/Contact/RoundTrip.antt =====
-- identity.py: a contact is read as it was saved, and both sides name their conversation alike.
use yakr.Prelude.{
  ℕ, ◌≡◌, refl, Bool, true, false, not, Bool-cases, inl, inr, Option, none, some, List, [], ◌∷◌, ok,
  ◌==◌, if◌then◌else◌, Bytes, Text, IsBytes, All, eqb, arith,
}
use yakr.Base64.RoundTrip.{b64decode-b64encode}
use yakr.Codec.{Codec}
use yakr.DeliveryProfile.Payload.{DeliveryProfile}
use yakr.DeliveryProfile.RoundTrip.{IsNormal, profile_from_b64-to_b64}
use yakr.Names.{IsPlain, split_names-join_names}
use yakr.Privacy.{PrivacyMode, fast, balanced, high}
use yakr.Ratchet.Forgery.{IsWellFormed, from_dict-to_dict}
use yakr.Ratchet.State.{to_dict, from_dict}
use yakr.Contact.{
  Contact, text_ltb, conversation_id_for, contact_to_dict, contact_from_dict, encoded, decoded,
  saved_mode, mode_of, joined, names_of, unless_zero, number_or, saved_profile, profile_of,
}

abbrev pub IsBytes? : Option Bytes → Type 0
IsBytes? none = Unit
IsBytes? (some bs) = IsBytes bs

abbrev pub IsNormal? : Option DeliveryProfile → Type 0
IsNormal? none = Unit
IsNormal? (some p) = All IsNormal p.relay_descriptors

-- The fields of a contact that the program makes.
pub record IsSavable (x : Contact) : Type 0 where
  pub signing : IsBytes x.signing_public
  pub agreement : IsBytes x.agreement_public
  pub master : IsBytes x.master_secret
  pub id : IsBytes? x.contact_id
  pub transcript : IsBytes? x.transcript_hash
  pub ratchet : IsWellFormed x.ratchet
  pub profile : IsNormal? x.delivery_profile
  pub names : All IsPlain x.peer_acked_my_relay_names

decoded-encoded : (o : Option Bytes) → IsBytes? o → decoded (encoded o) ≡ ok o
decoded-encoded none h = refl
decoded-encoded (some bs) h = rw (b64decode-b64encode bs h) refl

mode_of-saved_mode : (m : PrivacyMode) → mode_of (saved_mode m) ≡ ok m
unfolding mode_of eqb
mode_of-saved_mode fast = refl
mode_of-saved_mode balanced = refl
mode_of-saved_mode high = refl

names_of-joined : (ns : List Text) → All IsPlain ns → names_of (joined ns) ≡ ns
names_of-joined [] h = refl
names_of-joined (n ∷ ns) h = split_names-join_names (n ∷ ns) h

number_or-unless_zero : (n : ℕ) → number_or 0 (unless_zero n) ≡ n
number_or-unless_zero n = ground arith

profile_of-saved_profile :
    (c : Codec) (o : Option DeliveryProfile) → IsNormal? o → profile_of c (saved_profile c o) ≡ ok o
profile_of-saved_profile c none h = refl
profile_of-saved_profile c (some p) h = rw (profile_from_b64-to_b64 c p h) refl

from_dict-to_dict_self :
    (x : Contact) → IsWellFormed x.ratchet → from_dict (to_dict x.ratchet) ≡ ok x.ratchet
unfolding to_dict
from_dict-to_dict_self x w = from_dict-to_dict x.ratchet x.ratchet.skipped_keys w

number_of_flag : (b : Bool) → not (number_or 0 (if b then some 1 else none) == 0) ≡ b
number_of_flag true = refl
number_of_flag false = refl

-- A contact is read as it was saved, if its byte strings are bytes and the names of its relays have no commas
-- and no spaces at their ends.
pub contact_from_dict-to_dict :
    (c : Codec) (x : Contact) → IsSavable x → contact_from_dict c (contact_to_dict c x) ≡ ok x
unfolding contact_from_dict contact_to_dict
contact_from_dict-to_dict c x h =
    rw
      (
        from_dict-to_dict_self x h.ratchet,
        profile_of-saved_profile c x.delivery_profile h.profile,
        decoded-encoded x.contact_id h.id,
        decoded-encoded x.transcript_hash h.transcript,
        b64decode-b64encode x.signing_public h.signing,
        b64decode-b64encode x.agreement_public h.agreement,
        b64decode-b64encode x.master_secret h.master,
        mode_of-saved_mode x.privacy_mode,
        number_or-unless_zero x.peer_acked_my_profile_version,
        number_or-unless_zero x.session_started_at,
        number_of_flag x.hybrid_pq,
        names_of-joined x.peer_acked_my_relay_names h.names,
      )
      refl

-- Of two texts one is less than the other, or they are equal.
text_ltb_total : (a b : Text) → text_ltb a b ≡ false → text_ltb b a ≡ false → a ≡ b
unfolding text_ltb
text_ltb_total [] [] h g = refl
text_ltb_total [] (b ∷ bs) h g = cc
text_ltb_total (a ∷ as') [] h g = cc
text_ltb_total (a ∷ as') (b ∷ bs) h g = ground (arith, text_ltb_total as' bs)

text_ltb_asym : (a b : Text) → text_ltb a b ≡ true → text_ltb b a ≡ false
unfolding text_ltb
text_ltb_asym [] [] h = refl
text_ltb_asym [] (b ∷ bs) h = refl
text_ltb_asym (a ∷ as') [] h = cc
text_ltb_asym (a ∷ as') (b ∷ bs) h = ground (arith, text_ltb_asym as' bs)

-- Both sides of a pairing name their conversation alike.
pub conversation_id_for_comm : (a b : Text) → conversation_id_for a b ≡ conversation_id_for b a
unfolding conversation_id_for
conversation_id_for_comm a b = elim (Bool-cases (text_ltb b a)) [
  | inl less ↦ rw (less, text_ltb_asym b a less) refl
  | inr not_less ↦ elim (Bool-cases (text_ltb a b)) [
    | inl less ↦ rw (not_less, less) refl
    | inr neither ↦ rw (text_ltb_total a b neither not_less) refl
  ]
]
