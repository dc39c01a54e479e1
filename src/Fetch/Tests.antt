-- ===== src/Fetch/Tests.antt =====
-- fetch_cmds.py: an example, a relay that returns one text twice and some junk.
use yakr.Prelude.{ℕ, ◌+◌, ◌≤◌, ◌≡◌, false, none, some, [], ◌∷◌, List, replicate, codes}
use yakr.Codec.Sample.Laws.{sample}
use yakr.Crypto.{toy_crypto}
use yakr.Message.RelayJson.{to_relay_json}
use yakr.Receipts.{Surroundings, delivered}
use yakr.Sample.{toy_json, contact, bob_device, sealed}
use yakr.LocalStore.{empty_database}
use yakr.Fetch.{Item, Encounter, Fetching, Ended, fetch_answers}
use yakr.Fetch.Ending.{fetch_ends}
use yakr.Fetch.Counting.{fetched_counts_once}

abbrev reached : Surroundings
reached = record {
  now = 210;
  fresh = [];
  nonce = replicate 24 0;
  fails = λ n. false;
  fails_again = λ n. false;
  delivers = λ m x s. (delivered, x, s);
}

abbrev encounters : ℕ → Encounter
encounters n = record {
  now = 200;
  fresh = [];
  nonce = replicate 24 0;
  fails = λ m. false;
  route = none;
  receipt = reached;
}

abbrev item : Item
item = record { blob = to_relay_json sealed; stored_at = 5 }

abbrev junk_item : Item
junk_item = record { blob = to_relay_json (record sealed { ciphertext = 1 ∷ [] }); stored_at = 4 }

abbrev start : Fetching
start = record {
  store = record {
    test_fault = none;
    db = empty_database;
    contact_files = [];
    local_profile = none;
  };
  contact = contact;
  fetched = 0;
  turn = 0;
}

abbrev answers : List (List Item)
answers = (item ∷ junk_item ∷ item ∷ []) ∷ (item ∷ []) ∷ []

fetch_ends_example :
    (e : Ended) × (fetch_answers sample toy_json toy_crypto bob_device
        (codes "Bob")
        encounters
        answers
        start
      ≡ some e)
fetch_ends_example =
    fetch_ends sample toy_json toy_crypto bob_device (codes "Bob") encounters answers start

abbrev ended : Ended
ended = (fetch_ends sample toy_json toy_crypto bob_device (codes "Bob") encounters answers start).0

fetched_counts_once_example :
    ended.1.fetched + start.contact.last_recv_seq ≤ start.fetched + ended.1.contact.last_recv_seq
fetched_counts_once_example =
    fetched_counts_once sample toy_json toy_crypto bob_device (codes "Bob") encounters answers start
      ended.1 ended.0
      (fetch_ends sample toy_json toy_crypto bob_device (codes "Bob") encounters answers start).1
