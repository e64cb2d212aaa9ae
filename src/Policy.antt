-- ===== src/Policy.antt =====
-- Policy rules: the table `policy`, `Ledger.add_policy` and `Ledger.policy_selectors` of
-- src/privacy_hud/ledger.py, and `apply_policy` with its checks of
-- src/privacy_hud/policy_services.py. An error is the constructor of the message it carries.
pub mod Scoped
use Prim.Native.String.{◌++◌ as ◌++ₛ◌}
use codex_privacy_hud.Prelude.{
  ℕ, String, Bool, true, false, not, ◌&&◌, ◌||◌, List, [], ◌∷◌, ◌++◌, map, filter, if◌then◌else◌,
  ◌==◌, string_key, member, Option, none, some,
}

pub record PolicyRow : Type 0 where
  pub scope : String
  pub rule_type : String
  pub selector : String
  pub created_at : ℕ

-- `_session_scope`
unfoldable pub session_scope : String → String
session_scope session_id = "session:" ++ₛ session_id

-- `add_policy`
unfoldable pub add_policy : String → String → String → ℕ → List PolicyRow → List PolicyRow
add_policy session_id rule_type selector now rows =
    rows
    ++ (record {
      scope = session_scope session_id;
      rule_type = rule_type;
      selector = selector;
      created_at = now;
    })
      ∷ []

abbrev pub applies : String → String → PolicyRow → Bool
applies session_id rule_type r = r.rule_type == rule_type && r.scope == session_scope session_id

-- `policy_selectors`
unfoldable pub policy_selectors : String → String → List PolicyRow → List String
policy_selectors session_id rule_type rows =
    map (λ r. r.selector) (filter (applies session_id rule_type) rows)

-- `HARD_BLOCKED_DATA_TYPES` of matrix/loader.py
abbrev pub hard_blocked_data_types : List String
hard_blocked_data_types = "credential" ∷ []

-- `_POLICY_RULE_TYPES`
abbrev pub policy_rule_types : List String
policy_rule_types = "mask" ∷ "block_path" ∷ "block_command" ∷ []

pub data PolicyError : Type 0 where
  block_source_withdrawn allow_dest_withdrawn mask_would_downgrade unknown_rule_type : PolicyError

-- `validate_policy_rule`
pub validate_policy_rule : String → String → Option PolicyError
validate_policy_rule rule_type selector =
    if rule_type == "block_source"
    then some PolicyError.block_source_withdrawn
    else if rule_type == "allow_dest"
    then some PolicyError.allow_dest_withdrawn
    else if rule_type == "mask" && member selector hard_blocked_data_types
    then some PolicyError.mask_would_downgrade
    else if not (member rule_type policy_rule_types)
    then some PolicyError.unknown_rule_type
    else none

pub data Applied : Type 0 where
  refused : PolicyError → Applied
  saved : List PolicyRow → Applied

apply_checked : Option PolicyError → String → String → String → ℕ → List PolicyRow → Applied
apply_checked (some e) session_id rule_type selector now rows = Applied.refused e
apply_checked none session_id rule_type selector now rows =
    Applied.saved (add_policy session_id rule_type selector now rows)

-- `apply_policy`
pub apply_policy : String → String → String → ℕ → List PolicyRow → Applied
apply_policy session_id rule_type selector now rows =
    apply_checked (validate_policy_rule rule_type selector) session_id rule_type selector now rows
