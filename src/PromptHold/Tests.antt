-- ===== src/PromptHold/Tests.antt =====
-- Examples for src/privacy_hud/prompt_hold.py: a prompt with one token in it, sent, and sent again.
use mathlib.Core.List.{mem-cons_self}
use Prim.Native.String.{◌++◌ as ◌++ₛ◌}
use codex_privacy_hud.Prelude.{
  ℕ, ◌+◌, ◌≤◌, String, true, false, some, [], ◌∷◌, ◌≡◌, refl, ◌⊎◌, arith, Dict, lookup, member, any,
  filter, upsert, string_key, ==→eq, ||_false, sym, ◌∙◌, ◌==◌,
}
use codex_privacy_hud.Accounting.Records.{Digest}
use codex_privacy_hud.PromptHold.{
  PromptGate, new_gate, min_gap, window, labels_of, unapproved, drop_all, purge, ruling, act,
  deliver, confirm, rule, decide_new, credential_hash, decide, finish_confirmation, snapshot,
  restore,
}
use codex_privacy_hud.PromptHold.Gate.{
  released_was_confirmed, unseen_is_held, confirmed_is_released, failed_recording_confirms_nothing,
  held_rolls_back,
}
use codex_privacy_hud.PromptHold.Replays.{decide_replays, Between}

-- A hash with no collisions.
abbrev plain : String → String → Digest
plain salt text = salt ++ₛ text

abbrev token : Dict String String
token = ("ghp_1", "GitHub token") ∷ []

abbrev start : PromptGate
start = new_gate "salt"

abbrev held : Digest
held = "saltprivacy-hud/prompt-confirmation/v1\0ghp_1"

-- The gate after the first delivery, at 1000.
abbrev waiting : PromptGate
waiting = record start { pending = (held, 1000) ∷ [] }

unseen_is_held_example :
    ((decide plain start token "k1" 900 1000 false).1.hold ≡ true)
    × (lookup
          (credential_hash plain "salt" "ghp_1")
          (decide plain start token "k1" 900 1000 false).0.pending
        ≡ some 1000)
unfolding credential_hash lookup member
unseen_is_held_example =
    unseen_is_held plain start token "k1" 900 1000 false refl "ghp_1" "GitHub token" mem-cons_self
      refl refl

released_was_confirmed_example :
    (member (credential_hash plain "salt" "ghp_1") waiting.allowed ≡ true)
    ⊎ ((t : ℕ) × (lookup (credential_hash plain "salt" "ghp_1") waiting.pending ≡ some t)
        × (t + min_gap ≤ 4000)
        × (4100 ≤ t + window))
unfolding decide decide_new rule ruling act deliver confirm purge drop_all unapproved labels_of
    credential_hash any filter upsert lookup member
released_was_confirmed_example =
    released_was_confirmed plain waiting token "k2" 4000 4100 false refl "ghp_1" "GitHub token"
      mem-cons_self refl

only_held :
    (k : Digest)
    → member k (unapproved (labels_of (credential_hash plain "salt") token) []) ≡ true
    → (t : ℕ) × (lookup k waiting.pending ≡ some t) × (t + min_gap ≤ 4000) × (4100 ≤ t + window)
unfolding unapproved labels_of credential_hash member any filter upsert lookup
only_held k h =
    rw (==→eq k held (sym (||_false (k == held)) ∙ h)) (1000, refl, omega arith, omega arith)

confirmed_is_released_example :
    ((decide plain waiting token "k2" 4000 4100 false).1.hold ≡ false)
    × (false ≡ false
        → member
            (credential_hash plain "salt" "ghp_1")
            (decide plain waiting token "k2" 4000 4100 false).0.allowed
          ≡ true)
unfolding lookup
confirmed_is_released_example =
    confirmed_is_released plain waiting token "k2" 4000 4100 false refl "ghp_1" "GitHub token"
      mem-cons_self (refl, tt) only_held

failed_recording_confirms_nothing_example :
    (finish_confirmation
      (decide plain waiting token "k2" 4000 4100 true).0
      "k2"
      (decide plain waiting token "k2" 4000 4100 true).1
      false).0.allowed
    ≡ []
unfolding lookup
failed_recording_confirms_nothing_example =
    failed_recording_confirms_nothing plain waiting token "k2" 4000 4100 refl

held_rolls_back_example :
    restore (decide plain start token "k1" 900 1000 false).0 (snapshot start)
    ≡ record start { built = 1 }
unfolding decide decide_new rule ruling act deliver confirm purge drop_all unapproved labels_of
    credential_hash any filter upsert lookup member
held_rolls_back_example = held_rolls_back plain start token "k1" 900 1000 false refl refl

abbrev after_hold : PromptGate
after_hold = (decide plain start token "k1" 900 1000 false).0

-- Another delivery, ruled on before the first one comes again
abbrev busy : PromptGate
busy = (decide plain after_hold [] "k2" 1200 1300 false).0

decide_replays_example :
    decide plain busy [] "k1" 5000 5001 true
    ≡ (busy, (decide plain start token "k1" 900 1000 false).1)
decide_replays_example =
    decide_replays plain start busy token [] "k1" 900 1000 5000 5001 false true
      (Between.and_decides Between.at_once [] "k2" 1200 1300 false)
