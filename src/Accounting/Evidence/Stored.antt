-- ===== src/Accounting/Evidence/Stored.antt =====
-- What the ledger stores of `Evidence` reads back as it was.
use codex_privacy_hud.Prelude.{ℕ, ◌/◌, ◌%◌, ◌≤◌, ◌≡◌, ap, Bool, true, some, arith, leb}
use codex_privacy_hud.Accounting.Evidence.{Evidence, bit_value, bit_of, to_int, stored_evidence}

bit_value-le : (b : Bool) → bit_value b ≤ 1
bit_value-le b = ground arith

bit_of-eq : (place n : ℕ) (b : Bool) → n / place % 2 ≡ bit_value b → bit_of place n ≡ b
bit_of-eq place n b h = ground arith

le_leb : (a b : ℕ) → a ≤ b → leb a b ≡ true
le_leb a b h = ground arith

module _ (e : Evidence) where
  -- One bit of the stored integer, under the bounds of all the others.
  permission_issued_bit : bit_of 1 (to_int e) ≡ e.permission_issued
  unfolding to_int
  permission_issued_bit = bit_of-eq 1 _ e.permission_issued (
      omega (
        arith,
        bit_value-le e.permission_issued,
        bit_value-le e.deny_issued,
        bit_value-le e.deny_enforced,
        bit_value-le e.rewrite_issued,
        bit_value-le e.rewrite_enforced,
        bit_value-le e.execution_observed,
        bit_value-le e.crossing_confirmed,
        bit_value-le e.rejected_before_crossing,
        bit_value-le e.local_detection,
        bit_value-le e.persistence_observed,
        bit_value-le e.hook_observed,
      ))

  deny_issued_bit : bit_of 2 (to_int e) ≡ e.deny_issued
  unfolding to_int
  deny_issued_bit = bit_of-eq 2 _ e.deny_issued (
      omega (
        arith,
        bit_value-le e.permission_issued,
        bit_value-le e.deny_issued,
        bit_value-le e.deny_enforced,
        bit_value-le e.rewrite_issued,
        bit_value-le e.rewrite_enforced,
        bit_value-le e.execution_observed,
        bit_value-le e.crossing_confirmed,
        bit_value-le e.rejected_before_crossing,
        bit_value-le e.local_detection,
        bit_value-le e.persistence_observed,
        bit_value-le e.hook_observed,
      ))

  deny_enforced_bit : bit_of 4 (to_int e) ≡ e.deny_enforced
  unfolding to_int
  deny_enforced_bit = bit_of-eq 4 _ e.deny_enforced (
      omega (
        arith,
        bit_value-le e.permission_issued,
        bit_value-le e.deny_issued,
        bit_value-le e.deny_enforced,
        bit_value-le e.rewrite_issued,
        bit_value-le e.rewrite_enforced,
        bit_value-le e.execution_observed,
        bit_value-le e.crossing_confirmed,
        bit_value-le e.rejected_before_crossing,
        bit_value-le e.local_detection,
        bit_value-le e.persistence_observed,
        bit_value-le e.hook_observed,
      ))

  rewrite_issued_bit : bit_of 8 (to_int e) ≡ e.rewrite_issued
  unfolding to_int
  rewrite_issued_bit = bit_of-eq 8 _ e.rewrite_issued (
      omega (
        arith,
        bit_value-le e.permission_issued,
        bit_value-le e.deny_issued,
        bit_value-le e.deny_enforced,
        bit_value-le e.rewrite_issued,
        bit_value-le e.rewrite_enforced,
        bit_value-le e.execution_observed,
        bit_value-le e.crossing_confirmed,
        bit_value-le e.rejected_before_crossing,
        bit_value-le e.local_detection,
        bit_value-le e.persistence_observed,
        bit_value-le e.hook_observed,
      ))

  rewrite_enforced_bit : bit_of 16 (to_int e) ≡ e.rewrite_enforced
  unfolding to_int
  rewrite_enforced_bit = bit_of-eq 16 _ e.rewrite_enforced (
      omega (
        arith,
        bit_value-le e.permission_issued,
        bit_value-le e.deny_issued,
        bit_value-le e.deny_enforced,
        bit_value-le e.rewrite_issued,
        bit_value-le e.rewrite_enforced,
        bit_value-le e.execution_observed,
        bit_value-le e.crossing_confirmed,
        bit_value-le e.rejected_before_crossing,
        bit_value-le e.local_detection,
        bit_value-le e.persistence_observed,
        bit_value-le e.hook_observed,
      ))

  execution_observed_bit : bit_of 32 (to_int e) ≡ e.execution_observed
  unfolding to_int
  execution_observed_bit = bit_of-eq 32 _ e.execution_observed (
      omega (
        arith,
        bit_value-le e.permission_issued,
        bit_value-le e.deny_issued,
        bit_value-le e.deny_enforced,
        bit_value-le e.rewrite_issued,
        bit_value-le e.rewrite_enforced,
        bit_value-le e.execution_observed,
        bit_value-le e.crossing_confirmed,
        bit_value-le e.rejected_before_crossing,
        bit_value-le e.local_detection,
        bit_value-le e.persistence_observed,
        bit_value-le e.hook_observed,
      ))

  crossing_confirmed_bit : bit_of 64 (to_int e) ≡ e.crossing_confirmed
  unfolding to_int
  crossing_confirmed_bit = bit_of-eq 64 _ e.crossing_confirmed (
      omega (
        arith,
        bit_value-le e.permission_issued,
        bit_value-le e.deny_issued,
        bit_value-le e.deny_enforced,
        bit_value-le e.rewrite_issued,
        bit_value-le e.rewrite_enforced,
        bit_value-le e.execution_observed,
        bit_value-le e.crossing_confirmed,
        bit_value-le e.rejected_before_crossing,
        bit_value-le e.local_detection,
        bit_value-le e.persistence_observed,
        bit_value-le e.hook_observed,
      ))

  rejected_before_crossing_bit : bit_of 128 (to_int e) ≡ e.rejected_before_crossing
  unfolding to_int
  rejected_before_crossing_bit = bit_of-eq 128 _ e.rejected_before_crossing (
      omega (
        arith,
        bit_value-le e.permission_issued,
        bit_value-le e.deny_issued,
        bit_value-le e.deny_enforced,
        bit_value-le e.rewrite_issued,
        bit_value-le e.rewrite_enforced,
        bit_value-le e.execution_observed,
        bit_value-le e.crossing_confirmed,
        bit_value-le e.rejected_before_crossing,
        bit_value-le e.local_detection,
        bit_value-le e.persistence_observed,
        bit_value-le e.hook_observed,
      ))

  local_detection_bit : bit_of 256 (to_int e) ≡ e.local_detection
  unfolding to_int
  local_detection_bit = bit_of-eq 256 _ e.local_detection (
      omega (
        arith,
        bit_value-le e.permission_issued,
        bit_value-le e.deny_issued,
        bit_value-le e.deny_enforced,
        bit_value-le e.rewrite_issued,
        bit_value-le e.rewrite_enforced,
        bit_value-le e.execution_observed,
        bit_value-le e.crossing_confirmed,
        bit_value-le e.rejected_before_crossing,
        bit_value-le e.local_detection,
        bit_value-le e.persistence_observed,
        bit_value-le e.hook_observed,
      ))

  persistence_observed_bit : bit_of 512 (to_int e) ≡ e.persistence_observed
  unfolding to_int
  persistence_observed_bit = bit_of-eq 512 _ e.persistence_observed (
      omega (
        arith,
        bit_value-le e.permission_issued,
        bit_value-le e.deny_issued,
        bit_value-le e.deny_enforced,
        bit_value-le e.rewrite_issued,
        bit_value-le e.rewrite_enforced,
        bit_value-le e.execution_observed,
        bit_value-le e.crossing_confirmed,
        bit_value-le e.rejected_before_crossing,
        bit_value-le e.local_detection,
        bit_value-le e.persistence_observed,
        bit_value-le e.hook_observed,
      ))

  hook_observed_bit : bit_of 1024 (to_int e) ≡ e.hook_observed
  unfolding to_int
  hook_observed_bit = bit_of-eq 1024 _ e.hook_observed (
      omega (
        arith,
        bit_value-le e.permission_issued,
        bit_value-le e.deny_issued,
        bit_value-le e.deny_enforced,
        bit_value-le e.rewrite_issued,
        bit_value-le e.rewrite_enforced,
        bit_value-le e.execution_observed,
        bit_value-le e.crossing_confirmed,
        bit_value-le e.rejected_before_crossing,
        bit_value-le e.local_detection,
        bit_value-le e.persistence_observed,
        bit_value-le e.hook_observed,
      ))

  pub to_int-le : to_int e ≤ 2047
  unfolding to_int
  to_int-le = omega (
    arith,
    bit_value-le e.permission_issued,
    bit_value-le e.deny_issued,
    bit_value-le e.deny_enforced,
    bit_value-le e.rewrite_issued,
    bit_value-le e.rewrite_enforced,
    bit_value-le e.execution_observed,
    bit_value-le e.crossing_confirmed,
    bit_value-le e.rejected_before_crossing,
    bit_value-le e.local_detection,
    bit_value-le e.persistence_observed,
    bit_value-le e.hook_observed,
  )

-- The ledger stores an `Evidence` as an integer of at most 2047, and reads that integer back as
-- the same `Evidence`, for every combination of the eleven bits.
pub stored_evidence-to_int :
    (e : Evidence) → (to_int e ≤ 2047) × (stored_evidence (to_int e) ≡ some e)
unfolding stored_evidence
stored_evidence-to_int e = (
  to_int-le e,
  rw (le_leb (to_int e) 2047 (to_int-le e)) (
      ap some (λ i. record {
        permission_issued = permission_issued_bit e i;
        deny_issued = deny_issued_bit e i;
        deny_enforced = deny_enforced_bit e i;
        rewrite_issued = rewrite_issued_bit e i;
        rewrite_enforced = rewrite_enforced_bit e i;
        execution_observed = execution_observed_bit e i;
        crossing_confirmed = crossing_confirmed_bit e i;
        rejected_before_crossing = rejected_before_crossing_bit e i;
        local_detection = local_detection_bit e i;
        persistence_observed = persistence_observed_bit e i;
        hook_observed = hook_observed_bit e i;
      })),
)
