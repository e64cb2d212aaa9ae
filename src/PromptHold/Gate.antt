-- ===== src/PromptHold/Gate.antt =====
-- The promises of the gate.
use mathlib.Core.List.{Mem}
use codex_privacy_hud.Prelude.{
  ℕ, ◌+◌, ◌≤◌, String, Bool, true, false, not, none, some, ◌≡◌, ◌⊎◌, refl, ap, sym, ◌∙◌,
  if◌then◌else◌, Dict, lookup, member, member-filter, member-append, is_empty, is_empty_of_member,
  ◌||◌, string_key, Unique, Bool-cases, inl, inr,
}
use codex_privacy_hud.Accounting.Records.{Digest}
use codex_privacy_hud.PromptHold.{
  PromptGate, Ruling, nothing_new, first_seen, eligible, ruling, act, min_gap, window, labels_of,
  keys, unapproved, purge, deliver, rule, decide_new, credential_hash, decide, finish_confirmation,
  snapshot, restore,
}
use codex_privacy_hud.PromptHold.Pending.{
  lookup-hold_all, purge_sound, purge_absent, purge_complete, member-labels_of,
}
use codex_privacy_hud.PromptHold.Holds.{
  eligible_of_ruling, ruling-ne-nothing_new, first_seen_of_absent, ruling_all, hold_of, hold-act,
  Ruling-released, nothing_new_of_empty, allowed-act, allowed-act_deferred, allowed-act_clear,
  allowed-finish_false, restore-act,
}

module _ (hmac : String → String → Digest) (g : PromptGate) (values : Dict String String)
    (delivery_key : String) (submitted_at now : ℕ) (defer : Bool)
    (fresh : lookup delivery_key g.deliveries ≡ none) where
  abbrev pub labels : Dict Digest String
  labels = labels_of (credential_hash hmac g.salt) values

  abbrev pub ruled : Ruling
  ruled = ruling submitted_at (purge now g.pending) (unapproved labels g.allowed)

  pub decide-act :
      decide hmac g values delivery_key submitted_at now defer
      ≡ act ruled defer delivery_key now labels
          (unapproved labels g.allowed)
          (record g { pending = purge now g.pending })
  unfolding decide decide_new rule
  decide-act = rw (fresh, decide) refl

  decide-hold : (decide hmac g values delivery_key submitted_at now defer).1.hold ≡ hold_of ruled
  decide-hold = ap (λ r. r.1.hold) decide-act ∙ hold-act ruled defer delivery_key now labels _ _

  module _ (value label : String) (submitted : Mem (value, label) values) where
    abbrev hashed : Digest
    hashed = credential_hash hmac g.salt value

    among : member hashed g.allowed ≡ false → member hashed (unapproved labels g.allowed) ≡ true
    unfolding unapproved
    among unknown =
        member-filter (λ x. not (member x g.allowed)) hashed (keys labels)
          (member-labels_of (credential_hash hmac g.salt) value label values submitted)
          (ap not unknown)

    -- A new delivery that is not held contains no credential but those that the user confirmed
    -- earlier, and those whose hold began at least the gap before this submission arrived and not
    -- longer ago than the window.
    pub released_was_confirmed :
        (decide hmac g values delivery_key submitted_at now defer).1.hold ≡ false
        → (member (credential_hash hmac g.salt value) g.allowed ≡ true)
          ⊎ ((t : ℕ) × (lookup (credential_hash hmac g.salt value) g.pending ≡ some t)
              × (t + min_gap ≤ submitted_at)
              × (now ≤ t + window))
    released_was_confirmed h = elim (Bool-cases (member hashed g.allowed)) [
      | inl known ↦ inl known
      | inr unknown ↦ elim (Ruling-released ruled (sym decide-hold ∙ h)) [
        | inl nothing ↦ absurd (
            ruling-ne-nothing_new hashed submitted_at (purge now g.pending)
              (unapproved labels g.allowed) (among unknown) nothing)
        | inr ready ↦
            let (t, found, late) =
              eligible_of_ruling hashed submitted_at (purge now g.pending)
                (unapproved labels g.allowed) (among unknown) ready in
            let (there, open_window) = purge_sound now hashed t g.pending found in
            inr (t, there, late, open_window)
      ]
    ]

    -- A new delivery with a credential that is neither confirmed nor pending is held, and a hold of
    -- that credential begins now.
    pub unseen_is_held :
        member (credential_hash hmac g.salt value) g.allowed ≡ false
        → lookup (credential_hash hmac g.salt value) g.pending ≡ none
        → ((decide hmac g values delivery_key submitted_at now defer).1.hold ≡ true)
          × (lookup
                (credential_hash hmac g.salt value)
                (decide hmac g values delivery_key submitted_at now defer).0.pending
              ≡ some now)
    unfolding act deliver
    unseen_is_held unknown absent =
        let gone : lookup hashed (purge now g.pending) ≡ none =
          purge_absent now hashed g.pending absent in
        let first : ruled ≡ first_seen =
          first_seen_of_absent hashed submitted_at (purge now g.pending)
            (unapproved labels g.allowed) (among unknown) gone in
        (
          decide-hold ∙ ap hold_of first,
          ap (λ r. lookup hashed r.0.pending) decide-act
              ∙ ap
                  (λ r.
                    lookup hashed
                      (act r defer delivery_key now labels (unapproved labels g.allowed)
                        (record g { pending = purge now g.pending })).0.pending)
                  first
              ∙ lookup-hold_all hashed now (unapproved labels g.allowed) (purge now g.pending)
              ∙ ap (λ b. if b then some now else lookup hashed (purge now g.pending))
                  (among unknown),
        )

    known_of_nothing :
        is_empty (unapproved labels g.allowed) ≡ true → member hashed g.allowed ≡ true
    known_of_nothing nothing = elim (Bool-cases (member hashed g.allowed)) [
      | inl known ↦ known
      | inr unknown ↦
          cc (sym nothing ∙ is_empty_of_member hashed (unapproved labels g.allowed) (among unknown))
    ]

    known_or_new : (member hashed g.allowed || member hashed (unapproved labels g.allowed)) ≡ true
    known_or_new = elim (Bool-cases (member hashed g.allowed)) [
      | inl known ↦ rw known refl
      | inr unknown ↦ rw (unknown, among unknown) refl
    ]

    -- If every credential of a new delivery is confirmed, or pending with the gap over and the window
    -- open, then the delivery is not held; and unless recording is deferred, its credentials
    -- are confirmed from then on.
    pub confirmed_is_released :
        Unique g.pending
        → ((k : Digest)
            → member k (unapproved (labels_of (credential_hash hmac g.salt) values) g.allowed)
              ≡ true
            → (t : ℕ) × (lookup k g.pending ≡ some t)
              × (t + min_gap ≤ submitted_at)
              × (now ≤ t + window))
        → ((decide hmac g values delivery_key submitted_at now defer).1.hold ≡ false)
          × (defer ≡ false
              → member
                  (credential_hash hmac g.salt value)
                  (decide hmac g values delivery_key submitted_at now defer).0.allowed
                ≡ true)
    confirmed_is_released unique ready =
        let ks = unapproved labels g.allowed in
        elim (Bool-cases (is_empty ks)) [
          | inl nothing ↦
              let calm : ruled ≡ nothing_new =
                nothing_new_of_empty submitted_at (purge now g.pending) ks nothing in
              (
                decide-hold ∙ ap hold_of calm,
                λ _.
                    ap (λ r. member hashed r.0.allowed) decide-act
                    ∙ ap (member hashed)
                        (allowed-act_clear ruled defer delivery_key now labels ks _ calm)
                    ∙ known_of_nothing nothing,
              )
          | inr some_new ↦
              let go : ruled ≡ eligible =
                ruling_all submitted_at (purge now g.pending) ks some_new (λ k m.
                  let (t, found, late, open_window) = ready k m in
                  (t, purge_complete now k t g.pending unique found open_window, late)) in
              (
                decide-hold ∙ ap hold_of go,
                λ plain.
                    ap (λ r. member hashed r.0.allowed) decide-act
                    ∙ ap
                        (λ d.
                          member hashed
                            (act ruled d delivery_key now labels ks
                              (record g { pending = purge now g.pending })).0.allowed)
                        plain
                    ∙ ap (member hashed) (allowed-act ruled delivery_key now labels ks _ go)
                    ∙ member-append hashed g.allowed ks
                    ∙ known_or_new,
              )
        ]

-- A deferred confirmation whose recording fails authorizes nothing: the confirmed credentials are
-- those from before the ruling.
pub failed_recording_confirms_nothing :
    (hmac : String → String → Digest) (g : PromptGate) (values : Dict String String)
    (delivery_key : String) (submitted_at now : ℕ)
    → lookup delivery_key g.deliveries ≡ none
    → (finish_confirmation
        (decide hmac g values delivery_key submitted_at now true).0
        delivery_key
        (decide hmac g values delivery_key submitted_at now true).1
        false).0.allowed
      ≡ g.allowed
failed_recording_confirms_nothing hmac g values delivery_key submitted_at now fresh =
    let act_eq = decide-act hmac g values delivery_key submitted_at now true fresh in
    allowed-finish_false _ delivery_key _
    ∙ ap (λ r. r.0.allowed) act_eq
    ∙ allowed-act_deferred (ruled hmac g values delivery_key submitted_at now true fresh)
        delivery_key now (labels hmac g values delivery_key submitted_at now true fresh) _
        (record g { pending = purge now g.pending })

-- After a new delivery was held, restoring the snapshot taken before it gives back the gate as it
-- was, but for the number of verdicts built.
pub held_rolls_back :
    (hmac : String → String → Digest) (g : PromptGate) (values : Dict String String)
    (delivery_key : String) (submitted_at now : ℕ) (defer : Bool)
    → lookup delivery_key g.deliveries ≡ none
    → (decide hmac g values delivery_key submitted_at now defer).1.hold ≡ true
    → restore (decide hmac g values delivery_key submitted_at now defer).0 (snapshot g)
      ≡ record g { built = g.built + 1 }
held_rolls_back hmac g values delivery_key submitted_at now defer fresh held =
    ap (λ r. restore r.0 (snapshot g))
      (decide-act hmac g values delivery_key submitted_at now defer fresh)
    ∙ restore-act (ruled hmac g values delivery_key submitted_at now defer fresh) defer delivery_key
        now (labels hmac g values delivery_key submitted_at now defer fresh) _ _ g
        (sym (decide-hold hmac g values delivery_key submitted_at now defer fresh) ∙ held)
