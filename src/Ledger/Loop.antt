-- ===== src/Ledger/Loop.antt =====
-- The loop of `Ledger._record_observation` of src/privacy_hud/ledger.py over the events of a batch.
-- `uuid n` is the n-th random identifier.
use codex_privacy_hud.Prelude.{
  ℕ, ◌+◌, String, not, ◌&&◌, ◌||◌, List, [], ◌∷◌, ◌++◌, any, length, string_key, nat_key, pair_key,
  if◌then◌else◌, Dict,
}
use codex_privacy_hud.Prelude.Results.{Result, returned, and_then}
use codex_privacy_hud.Accounting.Vocabulary.{
  DataType, DestinationKind, SubjectKind, data_type_key, subject_kind_key, destination_kind_key,
  event_kind_key, action_kind_key,
}
use codex_privacy_hud.Accounting.Records.{OpaqueId, SubjectInput, RecipientInput, EventRecord}
use codex_privacy_hud.Checks.{chargeable}
use codex_privacy_hud.Ledger.Tables.{
  LedgerError, next_disclosure_delta, AccountedSession, DisclosureRow, Db, is_open, is_pair,
  group_size,
}
use codex_privacy_hud.Ledger.Identities.{Known, Descriptor, identity_id}

abbrev pub subject_descriptor : SubjectInput → Descriptor SubjectKind
subject_descriptor s = record {
  kind = s.subject_kind;
  identity_hash = s.identity_hash;
  unresolved_token = s.unresolved_token;
}

abbrev pub recipient_descriptor : RecipientInput → Descriptor DestinationKind
recipient_descriptor r = record {
  kind = r.destination_kind;
  identity_hash = r.identity_hash;
  unresolved_token = r.unresolved_token;
}

-- The loop's variables beside the tables
pub record Progress : Type 0 where
  pub db : Db
  pub local_subjects : Dict (SubjectKind × String) OpaqueId
  pub local_recipients : Dict (DestinationKind × String) OpaqueId
  pub event_ids : List ℕ
  pub disclosure_ids : List ℕ
  pub deltas : List ℕ

abbrev pub subjects_known : Progress → Known SubjectKind
subjects_known p = record { rows = p.db.subjects; local = p.local_subjects; drawn = p.db.drawn }

abbrev pub recipients_known : Progress → Known DestinationKind
recipients_known p = record {
  rows = p.db.recipients;
  local = p.local_recipients;
  drawn = p.db.drawn;
}

abbrev pub with_subjects : Progress → Known SubjectKind → Progress
with_subjects p k = record p {
  db = record p.db { subjects = k.rows; drawn = k.drawn };
  local_subjects = k.local;
}

abbrev pub with_recipients : Progress → Known DestinationKind → Progress
with_recipients p k = record p {
  db = record p.db { recipients = k.rows; drawn = k.drawn };
  local_recipients = k.local;
}

unfoldable pub add_event :
    String → OpaqueId → OpaqueId → OpaqueId → EventRecord → Progress → Progress
add_event session_id observation_id subject_id recipient_id e p =
    let id = length p.db.events + 1 in
    record p {
      db = record p.db {
        events =
            p.db.events
            ++ (record {
              id = id;
              session_id = session_id;
              observation_id = observation_id;
              subject_id = subject_id;
              recipient_id = recipient_id;
              event = e;
            })
              ∷ [];
      };
      event_ids = p.event_ids ++ id ∷ [];
    }

unfoldable pub add_disclosure : DisclosureRow → Progress → Progress
add_disclosure d p = record p {
  db = record p.db { disclosures = p.db.disclosures ++ d ∷ [] };
  disclosure_ids = p.disclosure_ids ++ d.disclosure_id ∷ [];
  deltas = p.deltas ++ d.budget_delta ∷ [];
}

-- The disclosure that an event is charged for
abbrev pub disclosure : String → OpaqueId → OpaqueId → DataType → Progress → ℕ → DisclosureRow
disclosure session_id subject_id recipient_id data_type p delta = record {
  disclosure_id = length p.db.disclosures + 1;
  session_id = session_id;
  subject_id = subject_id;
  recipient_id = recipient_id;
  first_event_id = length p.db.events;
  charged_data_type = data_type;
  group_n = group_size session_id data_type recipient_id p.db.disclosures + 1;
  budget_delta = delta;
}

-- What the loop does after the event is inserted
unfoldable pub charge :
    AccountedSession → OpaqueId → OpaqueId → EventRecord → Progress → Result LedgerError Progress
charge s subject_id recipient_id e p =
    if not (is_open s && chargeable e s.profile.destination_boundary)
      || any (is_pair s.session_id subject_id recipient_id) p.db.disclosures
    then returned p
    else and_then
        (next_disclosure_delta s.profile e.data_type e.recipient.destination_kind
          (group_size s.session_id e.data_type recipient_id p.db.disclosures))
        (λ delta.
          returned (
            add_disclosure (disclosure s.session_id subject_id recipient_id e.data_type p delta) p))

module _ (uuid : ℕ → OpaqueId) where
  -- The body of the loop over the batch
  unfoldable pub record_event :
      AccountedSession → OpaqueId → EventRecord → Progress → Result LedgerError Progress
  record_event s observation_id e p =
      let (subjects, subject_id) =
        identity_id uuid s.session_id observation_id (subject_descriptor e.subject)
          (subjects_known p) in
      let q = with_subjects p subjects in
      let (recipients, recipient_id) =
        identity_id uuid s.session_id observation_id (recipient_descriptor e.recipient)
          (recipients_known q) in
      charge s subject_id recipient_id e (
        add_event s.session_id observation_id subject_id recipient_id e
          (with_recipients q recipients))

  unfoldable pub record_events :
      AccountedSession → OpaqueId → List EventRecord → Progress → Result LedgerError Progress
  record_events s observation_id [] p = returned p
  record_events s observation_id (e ∷ es) p =
      and_then (record_event s observation_id e p) (record_events s observation_id es)
