-- ===== src/Ledger/Sessions.antt =====
-- The life of a version-2 session of src/privacy_hud/ledger.py: `start_accounted_session`,
-- `_end_v2_session` and `mark_accounting_unavailable`. The schema's generations, which
-- `start_accounted_session` rebuilds and marks, are left out, and so is the row of `coverage`.
use codex_privacy_hud.Prelude.{
  ℕ, String, Bool, true, false, not, Option, none, some, [], ◌∷◌, ◌++◌, map, ◌==◌, string_key,
  if◌then◌else◌, is_some,
}
use codex_privacy_hud.Prelude.Results.{Result, raised, returned, raise_if, and_then}
use codex_privacy_hud.Accounting.Records.{OpaqueId, ObservationRecord}
use codex_privacy_hud.Checks.{Formats, check_start_observation}
use codex_privacy_hud.Ledger.Tables.{
  LedgerError, Profile, AccountedSession, IdentityRow, Db, find_session, update_session,
}
use codex_privacy_hud.Ledger.Recording.{record_core}

abbrev pub new_session : String → Profile → AccountedSession
new_session session_id profile = record {
  session_id = session_id;
  ended_at = none;
  available = true;
  budget_score = 0;
  profile = profile;
}

abbrev pub insert_session : AccountedSession → Db → Db
insert_session s db = record db { sessions = db.sessions ++ s ∷ [] }

module _ (uuid : ℕ → OpaqueId) (fm : Formats) where
  unfoldable pub activate :
      String → Profile → ObservationRecord → Db → Result LedgerError (Db × Bool)
  activate session_id profile o db =
      raise_if (not (check_start_observation fm o session_id)) LedgerError.invalid_observation (
        and_then (record_core uuid fm o [] (insert_session (new_session session_id profile) db))
          (λ r. returned (r.0, true)))

  unfoldable pub start_at :
      Option AccountedSession
      → String
      → Profile
      → ObservationRecord
      → Db
      → Result LedgerError (Db × Bool)
  start_at (some s) session_id profile o db = returned (db, false)
  start_at none session_id profile o db = activate session_id profile o db

  -- `start_accounted_session`: false where the session is there already
  unfoldable pub start_accounted_session :
      String → Profile → ObservationRecord → Db → Result LedgerError (Db × Bool)
  start_accounted_session session_id profile o db =
      raise_if (session_id == "") LedgerError.invalid_session
        (start_at (find_session session_id db.sessions) session_id profile o db)

abbrev pub end_at : ℕ → AccountedSession → AccountedSession
end_at now s = if is_some s.ended_at then s else record s { ended_at = some now }

abbrev pub erase : {K : Type 0} → String → IdentityRow K → IdentityRow K
erase session_id r = if r.session_id == session_id then record r { identity_hash = none } else r

abbrev pub ended_tables : String → ℕ → Db → Db
ended_tables session_id now db = record db {
  sessions = update_session session_id (end_at now) db.sessions;
  subjects = map (erase session_id) db.subjects;
  recipients = map (erase session_id) db.recipients;
}

unfoldable pub end_known : Option AccountedSession → String → ℕ → Db → Result LedgerError Db
end_known none session_id now db = raised LedgerError.unsupported_session
end_known (some s) session_id now db = returned (ended_tables session_id now db)

-- `_end_v2_session`
unfoldable pub end_v2_session : String → ℕ → Db → Result LedgerError Db
end_v2_session session_id now db = end_known (find_session session_id db.sessions) session_id now db

abbrev pub withdraw : AccountedSession → AccountedSession
withdraw s = record s { available = false }

abbrev pub withdrawn_tables : String → Db → Db
withdrawn_tables session_id db = record db {
  sessions = update_session session_id withdraw db.sessions;
}

unfoldable pub mark_known : Option AccountedSession → String → Db → Result LedgerError Db
mark_known none session_id db = raised LedgerError.unsupported_session
mark_known (some s) session_id db = returned (withdrawn_tables session_id db)

-- `mark_accounting_unavailable`
unfoldable pub mark_accounting_unavailable : String → Db → Result LedgerError Db
mark_accounting_unavailable session_id db =
    mark_known (find_session session_id db.sessions) session_id db
