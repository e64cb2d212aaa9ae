-- ===== src/PromptHold/Replays.antt =====
-- A delivery that the gate has ruled on comes again.
use codex_privacy_hud.Prelude.{
  ℕ, String, Bool, true, false, not, ◌||◌, arith, Option, none, some, List, ◌≡◌, refl, ap, sym, ◌∙◌,
  Dict, lookup, lookup-upsert, lookup-remove, string_key, ◌==◌, ==→eq, Bool-cases, Option-cases,
  inl, inr,
}
use codex_privacy_hud.Accounting.Records.{Digest}
use codex_privacy_hud.PromptHold.{
  PromptGate, Verdict, Ruling, nothing_new, first_seen, early, eligible, act, deliver, confirm,
  decide, finish_confirmation, finish_own, is_own,
}
use codex_privacy_hud.PromptHold.Holds.{delivered-act}
use codex_privacy_hud.PromptHold.Gate.{decide-act, labels, ruled}

decide_known :
    (hmac : String → String → Digest) (g : PromptGate) (values : Dict String String)
    (delivery_key : String) (submitted_at now : ℕ) (defer : Bool) (v : Verdict)
    → lookup delivery_key g.deliveries ≡ some v
    → decide hmac g values delivery_key submitted_at now defer ≡ (g, v)
unfolding decide
decide_known hmac g values delivery_key submitted_at now defer v h = rw (h, decide) refl

delivered :
    (hmac : String → String → Digest) (g : PromptGate) (values : Dict String String)
    (delivery_key : String) (submitted_at now : ℕ) (defer : Bool)
    → lookup delivery_key (decide hmac g values delivery_key submitted_at now defer).0.deliveries
      ≡ some (decide hmac g values delivery_key submitted_at now defer).1
delivered hmac g values delivery_key submitted_at now defer =
    elim (Option-cases (lookup delivery_key g.deliveries)) [
      | inl fresh ↦
          let act_eq = decide-act hmac g values delivery_key submitted_at now defer fresh in
          ap (λ r. lookup delivery_key r.0.deliveries) act_eq
          ∙ delivered-act (ruled hmac g values delivery_key submitted_at now defer fresh) defer
              delivery_key now (labels hmac g values delivery_key submitted_at now defer fresh) _ _
          ∙ sym (ap (λ r. some r.1) act_eq)
      | inr (v, old) ↦
          let known = decide_known hmac g values delivery_key submitted_at now defer v old in
          ap (λ r. lookup delivery_key r.0.deliveries) known ∙ old ∙ sym (ap (λ r. some r.1) known)
    ]

-- A ruling on one delivery keeps the verdicts on the others.
act-deliveries :
    (r : Ruling) (defer : Bool) (dk k : String) (now : ℕ) (labels : Dict Digest String)
    (ks : List Digest) (g : PromptGate)
    → (dk == k) ≡ false
    → lookup k (act r defer dk now labels ks g).0.deliveries ≡ lookup k g.deliveries
unfolding act deliver confirm
act-deliveries nothing_new defer dk k now labels ks g h = rw (lookup-upsert dk k, h) refl
act-deliveries first_seen defer dk k now labels ks g h = rw (lookup-upsert dk k, h) refl
act-deliveries early defer dk k now labels ks g h = rw (lookup-upsert dk k, h) refl
act-deliveries eligible true dk k now labels ks g h = rw (lookup-upsert dk k, h) refl
act-deliveries eligible false dk k now labels ks g h = rw (lookup-upsert dk k, h) refl

decide-deliveries :
    (hmac : String → String → Digest) (g : PromptGate) (values : Dict String String) (dk : String)
    (submitted_at now : ℕ) (defer : Bool) (k : String) (v : Verdict)
    → lookup k g.deliveries ≡ some v
    → lookup k (decide hmac g values dk submitted_at now defer).0.deliveries ≡ some v
decide-deliveries hmac g values dk submitted_at now defer k v h =
    elim (Option-cases (lookup dk g.deliveries)) [
      | inl fresh ↦ elim (Bool-cases (dk == k)) [
        | inl same ↦
            let missing : lookup k g.deliveries ≡ none =
              ap (λ j. lookup j g.deliveries) (sym (==→eq dk k same)) ∙ fresh in
            cc
        | inr other ↦
            ap (λ r. lookup k r.0.deliveries)
              (decide-act hmac g values dk submitted_at now defer fresh)
            ∙ act-deliveries (ruled hmac g values dk submitted_at now defer fresh) defer dk k now
                (labels hmac g values dk submitted_at now defer fresh) _ _ other
            ∙ h
      ]
      | inr (w, old) ↦
          ap (λ r. lookup k r.0.deliveries)
            (decide_known hmac g values dk submitted_at now defer w old)
          ∙ h
    ]

finish_own-deliveries :
    (g : PromptGate) (dk k : String) (v : Verdict) (recorded : Bool) (own : Option (List Digest))
    → lookup dk g.confirmations ≡ own
    → (recorded || not (dk == k)) ≡ true
    → lookup k (finish_own g dk v recorded).0.deliveries ≡ lookup k g.deliveries
unfolding finish_own
finish_own-deliveries g dk k v recorded none h kept = rw (h, finish_own) refl
finish_own-deliveries g dk k v true (some ks) h kept = rw (h, finish_own) refl
finish_own-deliveries g dk k v false (some ks) h kept =
    let other : (dk == k) ≡ false = ground (arith, kept) in
    rw (h, finish_own, lookup-remove dk k, other) refl

finish_confirmation-deliveries :
    (g : PromptGate) (dk k : String) (v : Verdict) (recorded : Bool)
    → (recorded || not (dk == k)) ≡ true
    → lookup k (finish_confirmation g dk v recorded).0.deliveries ≡ lookup k g.deliveries
unfolding finish_confirmation
finish_confirmation-deliveries g dk k v recorded kept =
    elim (Bool-cases (is_own (lookup dk g.deliveries) v)) [
      | inl own ↦ rw own (finish_own-deliveries g dk k v recorded _ refl kept)
      | inr other ↦ rw other refl
    ]

module _ (hmac : String → String → Digest) (k : String) where
  -- What may happen to the gate before the delivery `k` comes again: rulings, and confirmations that are recorded
  -- or are another delivery's
  pub data Between (start : PromptGate) : PromptGate → Type 0 where
    at_once : Between start start
    and_decides :
        {g : PromptGate}
        → Between start g
        → (values : Dict String String) (dk : String) (submitted_at now : ℕ) (defer : Bool)
        → Between start (decide hmac g values dk submitted_at now defer).0
    and_finishes :
        {g : PromptGate}
        → Between start g
        → (dk : String) (v : Verdict) (recorded : Bool) → (recorded || not (dk == k)) ≡ true
        → Between start (finish_confirmation g dk v recorded).0

  still_known :
      {start g : PromptGate} (v : Verdict)
      → Between start g
      → lookup k start.deliveries ≡ some v
      → lookup k g.deliveries ≡ some v
  still_known v Between.at_once h = h
  still_known v (Between.and_decides before values dk submitted_at now defer) h =
      decide-deliveries hmac _ values dk submitted_at now defer k v (still_known v before h)
  still_known v (Between.and_finishes before dk w recorded kept) h =
      finish_confirmation-deliveries _ dk k w recorded kept ∙ still_known v before h

-- A delivery that comes again, whatever it then contains, gets the verdict that it got, and changes nothing: at
-- once, or after any rulings on deliveries and any confirmations that were recorded or belong to other deliveries.
pub decide_replays :
    (hmac : String → String → Digest) (g later : PromptGate) (values values' : Dict String String)
    (delivery_key : String) (submitted_at now submitted_at' now' : ℕ) (defer defer' : Bool)
    → Between hmac delivery_key (decide hmac g values delivery_key submitted_at now defer).0 later
    → decide hmac later values' delivery_key submitted_at' now' defer'
      ≡ (later, (decide hmac g values delivery_key submitted_at now defer).1)
decide_replays hmac g later values values' delivery_key submitted_at now submitted_at' now' defer
      defer' between =
    decide_known hmac later values' delivery_key submitted_at' now' defer' _ (
      still_known hmac delivery_key _ between
        (delivered hmac g values delivery_key submitted_at now defer))
