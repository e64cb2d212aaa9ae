-- ===== src/PromptHold.antt =====
-- src/privacy_hud/prompt_hold.py: the confirmation state of one session. A time is a whole number of
-- milliseconds. `hmac` stands for HMAC-SHA256, which the program takes from Python's library.
-- `finish_confirmation` compares verdicts by identity: each `Verdict` that `decide` builds has a
-- number of its own.
pub mod Pending
pub mod Holds
pub mod Gate
pub mod Replays
mod Tests
use Prim.Native.String.{◌++◌ as ◌++ₛ◌}
use mathlib.Core.List.{foldl}
use codex_privacy_hud.Prelude.{
  ℕ, ◌+◌, String, Bool, true, false, not, ◌&&◌, ◌||◌, Option, none, some, List, [], ◌∷◌, ◌++◌, map,
  if◌then◌else◌, ltb, leb, nat_eq, any, filter, Dict, or_else, lookup, assign, remove, member,
  is_empty, string_key, is_some,
}
use codex_privacy_hud.Prelude.Sorting.{sorted_set}
use codex_privacy_hud.Accounting.Records.{Digest}

-- `_DOMAIN`
abbrev domain : String
domain = "privacy-hud/prompt-confirmation/v1\0"

-- `MIN_GAP` and `WINDOW`
abbrev pub min_gap : ℕ
min_gap = 2000

abbrev pub window : ℕ
window = 300000

pub record Verdict : Type 0 where
  pub ident : ℕ
  pub hold : Bool
  pub confirmed : List String

pub record PromptGate : Type 0 where
  pub salt : String
  pub pending : Dict Digest ℕ
  pub allowed : List Digest
  pub deliveries : Dict String Verdict
  pub confirmations : Dict String (List Digest)
  pub built : ℕ

-- `PromptGate(salt=salt)`
abbrev pub new_gate : String → PromptGate
new_gate salt = record {
  salt = salt;
  pending = [];
  allowed = [];
  deliveries = [];
  confirmations = [];
  built = 0;
}

-- `{credential_hash(salt, value): label}`
pub labels_of : (String → Digest) → Dict String String → Dict Digest String
labels_of hash values = foldl (λ d e. assign (hash e.0) e.1 d) [] values

abbrev pub keys : Dict Digest String → List Digest
keys = map (λ e. e.0)

-- `set(labels) - self.allowed`
pub unapproved : Dict Digest String → List Digest → List Digest
unapproved labels allowed = filter (λ k. not (member k allowed)) (keys labels)

-- `for key in unapproved: self.pending[key] = now`
pub hold_all : ℕ → List Digest → Dict Digest ℕ → Dict Digest ℕ
hold_all now ks pending = foldl (λ p k. assign k now p) pending ks

-- `for key in keys: self.pending.pop(key, None)`; in `decide`, where every key is pending, `del`
pub drop_all : List Digest → Dict Digest ℕ → Dict Digest ℕ
drop_all ks pending = foldl (λ p k. remove k p) pending ks

abbrev pub is_over : ℕ → Digest × ℕ → Bool
is_over now e = ltb (e.1 + window) now

-- The loop that forgets the holds whose window is over.
pub purge : ℕ → Dict Digest ℕ → Dict Digest ℕ
purge now pending = drop_all (map (λ e. e.0) (filter (is_over now) pending)) pending

abbrev pub is_pending : Dict Digest ℕ → Digest → Bool
is_pending pending k = is_some (lookup k pending)

abbrev pub before_gap : ℕ → Option ℕ → Bool
before_gap submitted_at none = false
before_gap submitted_at (some t) = ltb submitted_at (t + min_gap)

abbrev pub too_early : ℕ → Dict Digest ℕ → Digest → Bool
too_early submitted_at pending k = before_gap submitted_at (lookup k pending)

-- `self.deliveries[delivery_key] = verdict`, and the verdict
deliver : PromptGate → String → Bool → List String → PromptGate × Verdict
deliver g delivery_key hold confirmed =
    let v : Verdict = record { ident = g.built; hold = hold; confirmed = confirmed } in
    (record g { deliveries = assign delivery_key v g.deliveries; built = g.built + 1 }, v)

-- A confirmation: the hashes leave `pending`, and are allowed, or kept for this delivery.
confirm : Bool → String → Dict Digest String → List Digest → PromptGate → PromptGate
confirm defer delivery_key labels ks g =
    let spent = record g { pending = drop_all ks g.pending } in
    if defer
    then record spent { confirmations = assign delivery_key ks spent.confirmations }
    else record spent { allowed = spent.allowed ++ ks }

-- The four branches of `decide` behind the purge, and what each does.
pub data Ruling : Type 0 where
  nothing_new first_seen early eligible : Ruling

pub ruling : ℕ → Dict Digest ℕ → List Digest → Ruling
ruling submitted_at pending ks =
    if is_empty ks
    then nothing_new
    else if any (λ k. not (is_pending pending k)) ks
    then first_seen
    else if any (too_early submitted_at pending) ks
    then early
    else eligible

pub act :
    Ruling
    → Bool
    → String
    → ℕ
    → Dict Digest String
    → List Digest
    → PromptGate
    → PromptGate × Verdict
unfolding deliver confirm
act nothing_new defer delivery_key now labels ks g = deliver g delivery_key false []
act first_seen defer delivery_key now labels ks g =
    deliver (record g { pending = hold_all now ks g.pending }) delivery_key true []
act early defer delivery_key now labels ks g = deliver g delivery_key true []
act eligible defer delivery_key now labels ks g =
    deliver (confirm defer delivery_key labels ks g) delivery_key false
      (sorted_set (map (λ k. or_else (lookup k labels) "") ks))

pub rule : Bool → String → ℕ → ℕ → Dict Digest String → PromptGate → PromptGate × Verdict
rule defer delivery_key submitted_at now labels g =
    let ks = unapproved labels g.allowed in
    act (ruling submitted_at g.pending ks) defer delivery_key now labels ks g

pub decide_new :
    (String → Digest)
    → Dict String String
    → String
    → ℕ
    → ℕ
    → Bool
    → PromptGate
    → PromptGate × Verdict
decide_new hash values delivery_key submitted_at now defer g =
    rule defer delivery_key submitted_at now (labels_of hash values)
      (record g { pending = purge now g.pending })

module _ (hmac : String → String → Digest) where
  -- `credential_hash`: the domain and the exact value under the salt
  pub credential_hash : String → String → Digest
  credential_hash salt value = hmac salt (domain ++ₛ value)

  -- `decide`
  pub decide : PromptGate → Dict String String → String → ℕ → ℕ → Bool → PromptGate × Verdict
  decide g values delivery_key submitted_at now defer = elim (lookup delivery_key g.deliveries) [
    | some previous ↦ (g, previous)
    | none ↦ decide_new (credential_hash g.salt) values delivery_key submitted_at now defer g
  ]

-- `finish_confirmation`, once the verdict is known to be the delivery's own
pub finish_own : PromptGate → String → Verdict → Bool → PromptGate × List String
finish_own g delivery_key v recorded = elim (lookup delivery_key g.confirmations) [
  | none ↦ (g, if recorded then v.confirmed else [])
  | some ks ↦
      let kept = record g { confirmations = remove delivery_key g.confirmations } in
      if recorded
      then (
        record kept { allowed = kept.allowed ++ ks; pending = drop_all ks kept.pending },
        v.confirmed,
      )
      else (record kept { deliveries = remove delivery_key kept.deliveries }, [])
]

pub is_own : Option Verdict → Verdict → Bool
is_own none v = false
is_own (some w) v = nat_eq w.ident v.ident

pub finish_confirmation : PromptGate → String → Verdict → Bool → PromptGate × List String
finish_confirmation g delivery_key v recorded =
    if is_own (lookup delivery_key g.deliveries) v
    then finish_own g delivery_key v recorded
    else (g, [])

pub record Snapshot : Type 0 where
  pub pending : Dict Digest ℕ
  pub allowed : List Digest
  pub deliveries : Dict String Verdict

unfoldable pub snapshot : PromptGate → Snapshot
snapshot g = record { pending = g.pending; allowed = g.allowed; deliveries = g.deliveries }

unfoldable pub restore : PromptGate → Snapshot → PromptGate
restore g s = record g { pending = s.pending; allowed = s.allowed; deliveries = s.deliveries }

-- `clear`
unfoldable pub clear : PromptGate → PromptGate
clear g = record g { pending = []; allowed = []; deliveries = []; confirmations = []; salt = "" }
