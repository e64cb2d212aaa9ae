-- ===== src/PromptHold/Holds.antt =====
-- What one ruling of the gate does to one credential.

use codex_privacy_hud.Prelude.{
  ℕ, ◌+◌, ◌≤◌, String, Bool, true, false, not, Option, none, some, List, [], ◌∷◌, ◌++◌, ◌≡◌, ◌≢◌,
  ◌⊎◌, refl, sym, ◌∙◌, arith, any, Dict, lookup, lookup-upsert, member, false_at, is_empty,
  is_empty_of_member, is_some, string_key, ◌==◌, ==_refl, ||_true, Bool-cases, inl, inr,
}
use codex_privacy_hud.Accounting.Records.{Digest}
use codex_privacy_hud.PromptHold.{
  PromptGate, Verdict, min_gap, is_pending, too_early, before_gap, Ruling, nothing_new, first_seen,
  early, eligible, ruling, act, deliver, confirm, finish_confirmation, finish_own, snapshot,
  restore,
}

pending_late :
    (submitted_at : ℕ) (o : Option ℕ)
    → not (is_some o) ≡ false
    → before_gap submitted_at o ≡ false
    → (t : ℕ) × (o ≡ some t) × (t + min_gap ≤ submitted_at)
pending_late submitted_at none h k = cc
pending_late submitted_at (some t) h k = (t, refl, ground arith)

any_of_member :
    (q : Digest → Bool) (k : Digest) (ks : List Digest)
    → member k ks ≡ true
    → q k ≡ true
    → any q ks ≡ true
any_of_member q k ks m h = elim (Bool-cases (any q ks)) [
  | inl e ↦ e
  | inr e ↦ cc (sym h ∙ false_at q k ks e m)
]

any-false :
    (q : Digest → Bool) (ks : List Digest)
    → ((k : Digest) → member k ks ≡ true → q k ≡ false)
    → any q ks ≡ false
unfolding any member
any-false q [] h = refl
any-false q (k ∷ ks) h =
    rw (h k (rw (==_refl k) refl), any-false q ks (λ x m. h x (rw m (||_true (x == k))))) refl

-- The branch that a ruling takes, seen from one of its hashes.
module _ (k : Digest) (submitted_at : ℕ) (pending : Dict Digest ℕ) (ks : List Digest)
    (among : member k ks ≡ true) where
  pub eligible_of_ruling :
      ruling submitted_at pending ks ≡ eligible
      → (t : ℕ) × (lookup k pending ≡ some t) × (t + min_gap ≤ submitted_at)
  unfolding ruling
  eligible_of_ruling h =
      let fresh = any (λ x. not (is_pending pending x)) ks in
      let soon = any (too_early submitted_at pending) ks in
      let parts : (fresh ≡ false) × (soon ≡ false) =
        ground (arith, is_empty_of_member k ks among) in
      pending_late submitted_at (lookup k pending) (false_at _ k ks parts.0 among)
        (false_at _ k ks parts.1 among)

  pub ruling-ne-nothing_new : ruling submitted_at pending ks ≢ nothing_new
  unfolding ruling
  ruling-ne-nothing_new h = ground (arith, is_empty_of_member k ks among)

  pub first_seen_of_absent : lookup k pending ≡ none → ruling submitted_at pending ks ≡ first_seen
  unfolding ruling
  first_seen_of_absent h =
      rw
        (
          is_empty_of_member k ks among,
          any_of_member (λ x. not (is_pending pending x)) k ks among (rw h refl),
        )
        refl

-- Every hash of the list is pending and past the gap.
pub ruling_all :
    (submitted_at : ℕ) (pending : Dict Digest ℕ) (ks : List Digest)
    → is_empty ks ≡ false
    → ((k : Digest)
        → member k ks ≡ true
        → (t : ℕ) × (lookup k pending ≡ some t) × (t + min_gap ≤ submitted_at))
    → ruling submitted_at pending ks ≡ eligible
unfolding ruling
ruling_all submitted_at pending ks e h =
    rw
      (
        e,
        any-false (λ x. not (is_pending pending x)) ks
            (λ k m. let (t, found, late) = h k m in rw found refl),
        any-false (too_early submitted_at pending) ks
            (λ k m. let (t, found, late) = h k m in rw found (ground arith)),
      )
      refl

abbrev pub hold_of : Ruling → Bool
hold_of nothing_new = false
hold_of first_seen = true
hold_of early = true
hold_of eligible = false

pub hold-act :
    (r : Ruling) (defer : Bool) (dk : String) (now : ℕ) (labels : Dict Digest String)
    (ks : List Digest) (g : PromptGate)
    → (act r defer dk now labels ks g).1.hold ≡ hold_of r
unfolding act
hold-act nothing_new defer dk now labels ks g = refl
hold-act first_seen defer dk now labels ks g = refl
hold-act early defer dk now labels ks g = refl
hold-act eligible defer dk now labels ks g = refl

pub Ruling-released : (r : Ruling) → hold_of r ≡ false → (r ≡ nothing_new) ⊎ (r ≡ eligible)
Ruling-released r h = ground arith

pub nothing_new_of_empty :
    (submitted_at : ℕ) (pending : Dict Digest ℕ) (ks : List Digest)
    → is_empty ks ≡ true
    → ruling submitted_at pending ks ≡ nothing_new
unfolding ruling
nothing_new_of_empty submitted_at pending ks h = rw h refl

-- What each ruling does to the confirmed hashes.
pub allowed-act :
    (r : Ruling) (dk : String) (now : ℕ) (labels : Dict Digest String) (ks : List Digest)
    (g : PromptGate)
    → r ≡ eligible
    → (act r false dk now labels ks g).0.allowed ≡ g.allowed ++ ks
unfolding act
allowed-act r dk now labels ks g h = rw h refl

pub allowed-act_deferred :
    (r : Ruling) (dk : String) (now : ℕ) (labels : Dict Digest String) (ks : List Digest)
    (g : PromptGate)
    → (act r true dk now labels ks g).0.allowed ≡ g.allowed
unfolding act
allowed-act_deferred nothing_new dk now labels ks g = refl
allowed-act_deferred first_seen dk now labels ks g = refl
allowed-act_deferred early dk now labels ks g = refl
allowed-act_deferred eligible dk now labels ks g = refl

pub allowed-act_clear :
    (r : Ruling) (defer : Bool) (dk : String) (now : ℕ) (labels : Dict Digest String)
    (ks : List Digest) (g : PromptGate)
    → r ≡ nothing_new
    → (act r defer dk now labels ks g).0.allowed ≡ g.allowed
unfolding act
allowed-act_clear r defer dk now labels ks g h = rw h refl

pub allowed-finish_false :
    (g : PromptGate) (dk : String) (v : Verdict)
    → (finish_confirmation g dk v false).0.allowed ≡ g.allowed
unfolding finish_confirmation finish_own
allowed-finish_false g dk v = ground arith

pub restore-act :
    (r : Ruling) (defer : Bool) (dk : String) (now : ℕ) (labels : Dict Digest String)
    (ks : List Digest) (p : Dict Digest ℕ) (g : PromptGate)
    → hold_of r ≡ true
    → restore (act r defer dk now labels ks (record g { pending = p })).0 (snapshot g)
      ≡ record g { built = g.built + 1 }
unfolding act restore snapshot
restore-act nothing_new defer dk now labels ks p g h = cc
restore-act first_seen defer dk now labels ks p g h = refl
restore-act early defer dk now labels ks p g h = refl
restore-act eligible defer dk now labels ks p g h = cc

pub delivered-act :
    (r : Ruling) (defer : Bool) (dk : String) (now : ℕ) (labels : Dict Digest String)
    (ks : List Digest) (g : PromptGate)
    → lookup dk (act r defer dk now labels ks g).0.deliveries
      ≡ some (act r defer dk now labels ks g).1
unfolding act deliver confirm
delivered-act nothing_new defer dk now labels ks g = rw (lookup-upsert dk dk) (rw (==_refl dk) refl)
delivered-act first_seen defer dk now labels ks g = rw (lookup-upsert dk dk) (rw (==_refl dk) refl)
delivered-act early defer dk now labels ks g = rw (lookup-upsert dk dk) (rw (==_refl dk) refl)
delivered-act eligible true dk now labels ks g = rw (lookup-upsert dk dk) (rw (==_refl dk) refl)
delivered-act eligible false dk now labels ks g = rw (lookup-upsert dk dk) (rw (==_refl dk) refl)
