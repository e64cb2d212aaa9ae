-- ===== src/Ledger/Identities.antt =====
-- `_subject_id` and `_recipient_id` of src/privacy_hud/ledger.py, which differ only in their table:
-- the row of an identity, found or made. The labels of the rows are texts and are left out. `uuid n`
-- is the n-th random identifier.
use codex_privacy_hud.Prelude.{
  ℕ, ◌+◌, String, Bool, false, ◌&&◌, Option, none, some, List, [], ◌∷◌, ◌++◌, ◌==◌, string_key,
  pair_key, if◌then◌else◌, Dict, lookup, assign, or_else, Comparable, is_some,
}
use codex_privacy_hud.Accounting.Records.{OpaqueId, Digest}
use codex_privacy_hud.Ledger.Tables.{IdentityRow}

-- A table of identities, those that this observation left unresolved, and the number of identifiers
-- that were drawn
pub record Known (K : Type 0) : Type 0 where
  pub rows : List (IdentityRow K)
  pub local : Dict (K × String) OpaqueId
  pub drawn : ℕ

pub record Descriptor (K : Type 0) : Type 0 where
  pub kind : K
  pub identity_hash : Option Digest
  pub unresolved_token : Option String

-- The token of an unresolved descriptor, which `_settle_token` always gives it
abbrev pub token_of : {K : Type 0} → Descriptor K → String
token_of d = or_else d.unresolved_token ""

abbrev pub has_hash : Digest → Option Digest → Bool
has_hash h none = false
has_hash h (some j) = j == h

abbrev unresolved_at : Option Digest → OpaqueId → Option OpaqueId
unresolved_at none observation_id = some observation_id
unresolved_at (some h) observation_id = none

module _ {K : Type 0} ⦃key : Comparable K⦄ where
  abbrev pub is_identity : String → K → Digest → IdentityRow K → Bool
  is_identity session_id kind h r =
      r.session_id == session_id && r.kind == kind && has_hash h r.identity_hash

  -- `SELECT ... WHERE session_id=? AND subject_kind=? AND identity_hash=?`
  unfoldable pub find_identity : String → K → Digest → List (IdentityRow K) → Option OpaqueId
  find_identity session_id kind h [] = none
  find_identity session_id kind h (r ∷ rows) =
      let rest = find_identity session_id kind h rows in
      if is_identity session_id kind h r then some r.identity_id else rest

  -- The row that is there already, if there is one
  unfoldable pub known_identity : String → Descriptor K → Known K → Option OpaqueId
  known_identity session_id d known = elim d.identity_hash [
    | none ↦ lookup (d.kind, token_of d) known.local
    | some h ↦ find_identity session_id d.kind h known.rows
  ]

  abbrev local_with :
      Option Digest
      → K × String
      → OpaqueId
      → Dict (K × String) OpaqueId
      → Dict (K × String) OpaqueId
  local_with none token identity_id local = assign token identity_id local
  local_with (some h) token identity_id local = local

  unfoldable pub add_identity : String → OpaqueId → Descriptor K → OpaqueId → Known K → Known K
  add_identity session_id observation_id d identity_id known = record {
    rows =
        known.rows
        ++ (record {
          identity_id = identity_id;
          session_id = session_id;
          kind = d.kind;
          is_resolved = is_some d.identity_hash;
          identity_hash = d.identity_hash;
          unresolved_observation_id = unresolved_at d.identity_hash observation_id;
        })
          ∷ [];
    local = local_with d.identity_hash (d.kind, token_of d) identity_id known.local;
    drawn = known.drawn + 1;
  }

  unfoldable pub settle :
      Option OpaqueId → String → OpaqueId → Descriptor K → OpaqueId → Known K → Known K × OpaqueId
  settle (some old) session_id observation_id d fresh known = (known, old)
  settle none session_id observation_id d fresh known =
      (add_identity session_id observation_id d fresh known, fresh)

  -- `_subject_id` and `_recipient_id`
  unfoldable pub identity_id :
      (ℕ → OpaqueId) → String → OpaqueId → Descriptor K → Known K → Known K × OpaqueId
  identity_id uuid session_id observation_id d known =
      settle (known_identity session_id d known) session_id observation_id d (uuid known.drawn)
        known
