-- ===== src/Ledger/Batch.antt =====
-- The checks of `Ledger._record_observation` of src/privacy_hud/ledger.py on a batch of events.
use codex_privacy_hud.Prelude.{
  String, Bool, not, ◌&&◌, ◌||◌, Option, none, some, List, [], ◌∷◌, all, ◌==◌, string_key, nat_key,
  pair_key, or_else, is_some, member,
}
use codex_privacy_hud.Prelude.Results.{Result, returned, raise_if}
use codex_privacy_hud.Accounting.Vocabulary.{
  DestinationKind, SubjectKind, EventKind, data_type_key, subject_kind_key, destination_kind_key,
  event_kind_key, action_kind_key,
}
use codex_privacy_hud.Accounting.Records.{OpaqueId, Digest, ObservationRecord, EventRecord}
use codex_privacy_hud.Checks.{Formats, check_event}
use codex_privacy_hud.Ledger.Tables.{
  LedgerError, AccountedSession, ObservationRow, EventRow, is_open,
}

-- `_descriptor_key`, without the kind
abbrev identity_key : Option Digest → Option String → String × String
identity_key (some h) token = ("resolved", h)
identity_key none token = ("unresolved", or_else token "")

abbrev pub EventKey : Type 0
EventKey = (SubjectKind × (String × String)) × ((DestinationKind × (String × String)) × EventKind)

unfoldable pub event_key : EventRecord → EventKey
event_key e = (
  (e.subject.subject_kind, identity_key e.subject.identity_hash e.subject.unresolved_token),
  (
    (
      e.recipient.destination_kind,
      identity_key e.recipient.identity_hash e.recipient.unresolved_token,
    ),
    e.kind,
  ),
)

-- An identity that a closed session does not take
abbrev pub has_identity : EventRecord → Bool
has_identity e = is_some e.subject.identity_hash || is_some e.recipient.identity_hash

-- The checks of the batch, before anything is written
unfoldable pub check_batch :
    Formats
    → ObservationRecord
    → AccountedSession
    → List EventKey
    → List EventRecord
    → Result LedgerError (List EventKey)
check_batch fm o s keys [] = returned keys
check_batch fm o s keys (e ∷ es) =
    raise_if (not (check_event fm e o s.profile.destination_boundary)) LedgerError.invalid_event (
      raise_if (not (is_open s) && has_identity e) LedgerError.invalid_event (
        raise_if (member (event_key e) keys) LedgerError.invalid_event
          (check_batch fm o s (event_key e ∷ keys) es)))

-- The rows of a session, and of one of its observations
abbrev pub is_delivery : String → OpaqueId → ObservationRow → Bool
is_delivery session_id delivery_key r =
    r.observed.session_id == session_id && r.observed.delivery_key == delivery_key

abbrev pub is_event_of : String → OpaqueId → EventRow → Bool
is_event_of session_id observation_id e =
    e.session_id == session_id && e.observation_id == observation_id

-- Whether every earlier observation of the action is of the same kind
unfoldable pub same_action_kind : ObservationRecord → List ObservationRow → Bool
same_action_kind o = all (λ r.
    not (r.observed.session_id == o.session_id && r.observed.action_id == o.action_id)
    || r.observed.action_kind == o.action_kind)
