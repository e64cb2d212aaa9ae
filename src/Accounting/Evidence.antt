-- ===== src/Accounting/Evidence.antt =====
-- `Evidence` of src/privacy_hud/accounting.py: an `IntFlag` of eleven bits as a record of Booleans,
-- with the integer that the ledger stores. `b in e` is the field of the bit, `e & m` is `meet`, and
-- a test of `e & m` is `meets`.
pub mod Stored
use codex_privacy_hud.Prelude.{
  ℕ, ◌+◌, ◌*◌, ◌/◌, ◌%◌, ◌≤◌, ◌≡◌, refl, Bool, true, false, ◌&&◌, ◌||◌, not, Option, none, some,
  List, [], ◌∷◌, ◌++◌, arith, nat_eq, leb, if◌then◌else◌, String,
}

pub record Evidence : Type 0 where
  pub permission_issued : Bool
  pub deny_issued : Bool
  pub deny_enforced : Bool
  pub rewrite_issued : Bool
  pub rewrite_enforced : Bool
  pub execution_observed : Bool
  pub crossing_confirmed : Bool
  pub rejected_before_crossing : Bool
  pub local_detection : Bool
  pub persistence_observed : Bool
  pub hook_observed : Bool

-- `Evidence(0)`
abbrev pub no_evidence : Evidence
no_evidence = record {
  permission_issued = false;
  deny_issued = false;
  deny_enforced = false;
  rewrite_issued = false;
  rewrite_enforced = false;
  execution_observed = false;
  crossing_confirmed = false;
  rejected_before_crossing = false;
  local_detection = false;
  persistence_observed = false;
  hook_observed = false;
}

-- `a | b`
abbrev pub join : Evidence → Evidence → Evidence
join a b = record {
  permission_issued = a.permission_issued || b.permission_issued;
  deny_issued = a.deny_issued || b.deny_issued;
  deny_enforced = a.deny_enforced || b.deny_enforced;
  rewrite_issued = a.rewrite_issued || b.rewrite_issued;
  rewrite_enforced = a.rewrite_enforced || b.rewrite_enforced;
  execution_observed = a.execution_observed || b.execution_observed;
  crossing_confirmed = a.crossing_confirmed || b.crossing_confirmed;
  rejected_before_crossing = a.rejected_before_crossing || b.rejected_before_crossing;
  local_detection = a.local_detection || b.local_detection;
  persistence_observed = a.persistence_observed || b.persistence_observed;
  hook_observed = a.hook_observed || b.hook_observed;
}

-- `a & b`
abbrev pub meet : Evidence → Evidence → Evidence
meet a b = record {
  permission_issued = a.permission_issued && b.permission_issued;
  deny_issued = a.deny_issued && b.deny_issued;
  deny_enforced = a.deny_enforced && b.deny_enforced;
  rewrite_issued = a.rewrite_issued && b.rewrite_issued;
  rewrite_enforced = a.rewrite_enforced && b.rewrite_enforced;
  execution_observed = a.execution_observed && b.execution_observed;
  crossing_confirmed = a.crossing_confirmed && b.crossing_confirmed;
  rejected_before_crossing = a.rejected_before_crossing && b.rejected_before_crossing;
  local_detection = a.local_detection && b.local_detection;
  persistence_observed = a.persistence_observed && b.persistence_observed;
  hook_observed = a.hook_observed && b.hook_observed;
}

-- The bits in ascending order.
abbrev pub bits : Evidence → List Bool
bits e =
    e.permission_issued ∷ e.deny_issued ∷ e.deny_enforced ∷ e.rewrite_issued ∷ e.rewrite_enforced
    ∷ e.execution_observed ∷ e.crossing_confirmed ∷ e.rejected_before_crossing ∷ e.local_detection
    ∷ e.persistence_observed ∷ e.hook_observed ∷ []

abbrev pub any_bit : List Bool → Bool
any_bit [] = false
any_bit (b ∷ bs) = b || any_bit bs

-- `bool(a & b)`
abbrev pub meets : Evidence → Evidence → Bool
meets a b = any_bit (bits (meet a b))

-- `a & b == a`
abbrev pub within : Evidence → Evidence → Bool
within a b =
    (not a.permission_issued || b.permission_issued)
    && (not a.deny_issued || b.deny_issued)
    && (not a.deny_enforced || b.deny_enforced)
    && (not a.rewrite_issued || b.rewrite_issued)
    && (not a.rewrite_enforced || b.rewrite_enforced)
    && (not a.execution_observed || b.execution_observed)
    && (not a.crossing_confirmed || b.crossing_confirmed)
    && (not a.rejected_before_crossing || b.rejected_before_crossing)
    && (not a.local_detection || b.local_detection)
    && (not a.persistence_observed || b.persistence_observed)
    && (not a.hook_observed || b.hook_observed)

abbrev bit_value : Bool → ℕ
bit_value true = 1
bit_value false = 0

abbrev int_of_bits : List Bool → ℕ
int_of_bits [] = 0
int_of_bits (b ∷ bs) = bit_value b + 2 * int_of_bits bs

-- `int(e)`
unfoldable pub to_int : Evidence → ℕ
to_int e = int_of_bits (bits e)

abbrev bit_of : ℕ → ℕ → Bool
bit_of place n = nat_eq (n / place % 2) 1

-- `_stored_evidence` of ledger.py: what is not a sum of the eleven bits is refused.
unfoldable pub stored_evidence : ℕ → Option Evidence
stored_evidence n =
    if leb n 2047
    then some (record {
      permission_issued = bit_of 1 n;
      deny_issued = bit_of 2 n;
      deny_enforced = bit_of 4 n;
      rewrite_issued = bit_of 8 n;
      rewrite_enforced = bit_of 16 n;
      execution_observed = bit_of 32 n;
      crossing_confirmed = bit_of 64 n;
      rejected_before_crossing = bit_of 128 n;
      local_detection = bit_of 256 n;
      persistence_observed = bit_of 512 n;
      hook_observed = bit_of 1024 n;
    })
    else none

-- Each mask is written as the source writes it.
abbrev pub only_permission_issued : Evidence
only_permission_issued = record no_evidence { permission_issued = true }

abbrev pub only_deny_issued : Evidence
only_deny_issued = record no_evidence { deny_issued = true }

abbrev pub only_deny_enforced : Evidence
only_deny_enforced = record no_evidence { deny_enforced = true }

abbrev pub only_rewrite_issued : Evidence
only_rewrite_issued = record no_evidence { rewrite_issued = true }

abbrev pub only_rewrite_enforced : Evidence
only_rewrite_enforced = record no_evidence { rewrite_enforced = true }

abbrev pub only_execution_observed : Evidence
only_execution_observed = record no_evidence { execution_observed = true }

abbrev pub only_crossing_confirmed : Evidence
only_crossing_confirmed = record no_evidence { crossing_confirmed = true }

abbrev pub only_rejected_before_crossing : Evidence
only_rejected_before_crossing = record no_evidence { rejected_before_crossing = true }

abbrev pub only_local_detection : Evidence
only_local_detection = record no_evidence { local_detection = true }

abbrev pub only_persistence_observed : Evidence
only_persistence_observed = record no_evidence { persistence_observed = true }

abbrev pub only_hook_observed : Evidence
only_hook_observed = record no_evidence { hook_observed = true }

-- `_STOPPED`
abbrev pub stopped_bits : Evidence
stopped_bits = join only_deny_enforced only_rejected_before_crossing

-- `_EXECUTED`
abbrev pub executed_bits : Evidence
executed_bits = join only_execution_observed only_crossing_confirmed

-- `evidence_names`: the names of the set bits, in bit order.
abbrev name_if : Bool → String → List String
name_if true s = s ∷ []
name_if false s = []

unfoldable pub evidence_names : Evidence → List String
evidence_names e =
    name_if e.permission_issued "permission_issued"
    ++ name_if e.deny_issued "deny_issued"
    ++ name_if e.deny_enforced "deny_enforced"
    ++ name_if e.rewrite_issued "rewrite_issued"
    ++ name_if e.rewrite_enforced "rewrite_enforced"
    ++ name_if e.execution_observed "execution_observed"
    ++ name_if e.crossing_confirmed "crossing_confirmed"
    ++ name_if e.rejected_before_crossing "rejected_before_crossing"
    ++ name_if e.local_detection "local_detection"
    ++ name_if e.persistence_observed "persistence_observed"
    ++ name_if e.hook_observed "hook_observed"
