-- ===== src/Ledger/Repeats.antt =====
-- A delivery of src/privacy_hud/ledger.py that comes again, whatever happened to it the first time.
use codex_privacy_hud.Prelude.{
  ℕ, ◌+◌, ◌≤◌, String, true, false, List, [], ◌∷◌, ◌++◌, any, any-append, all, filter,
  filter-append, length, length-append, map, leb, member, ◌==◌, string_key, nat_key, pair_key, ◌≡◌,
  refl, ap, arith, inl, inr, ==_refl, &&-true,
}
use codex_privacy_hud.Accounting.Records.{OpaqueId, EventRecord}
use codex_privacy_hud.Accounting.Vocabulary.{
  SubjectKind, DestinationKind, subject_kind_key, destination_kind_key,
}
use codex_privacy_hud.Ledger.Tables.{AccountedSession, DisclosureRow}
use codex_privacy_hud.Ledger.Identities.{Known, identity_id}
use codex_privacy_hud.Ledger.Batch.{is_event_of}
use codex_privacy_hud.Ledger.Loop.{
  Progress, record_event, record_events, charge, add_disclosure, add_event, with_subjects,
  with_recipients, subjects_known, recipients_known, subject_descriptor, recipient_descriptor,
}
use codex_privacy_hud.Ledger.Recording.{recorded_events, observed_events, is_charged_by}
use codex_privacy_hud.Ledger.Charges.{charge_cases, returned_inj}
use codex_privacy_hud.Ledger.Fresh.{
  identity_id-drawn, Bounded, Bounded-event, Bounded-disclosure, Unused, Unused-event, Unused-later,
  Spent, Spent-later,
}
use codex_privacy_hud.Prelude.Results.{returned, and_then-returned}

pub map-append :
    {A B : Type 0} (f : A → B) (xs ys : List A) → map f (xs ++ ys) ≡ map f xs ++ map f ys
map-append f [] ys = refl
map-append f (x ∷ xs) ys = ap (λ r. f x ∷ r) (map-append f xs ys)

-- What is charged by the events of a batch does not change when an event comes that no disclosure has.
charged_by-event :
    (sid : String) (ids : List ℕ) (n : ℕ) (ds : List DisclosureRow)
    → all (λ d. leb d.first_event_id n) ds ≡ true
    → filter (is_charged_by (ids ++ (n + 1) ∷ []) sid) ds ≡ filter (is_charged_by ids sid) ds
unfolding filter all member any
charged_by-event sid ids n [] h = refl
charged_by-event sid ids n (d ∷ ds) h =
    let (one, rest) = &&-true (leb d.first_event_id n) (all (λ x. leb x.first_event_id n) ds) h in
    let ih = charged_by-event sid ids n ds rest in
    let later : (d.first_event_id == n + 1) ≡ false = ground (arith, one) in
    let same : is_charged_by (ids ++ (n + 1) ∷ []) sid d ≡ is_charged_by ids sid d =
      rw (any-append (λ x. d.first_event_id == x) ids ((n + 1) ∷ [])) (rw later (ground arith)) in
    rw (same, ih) refl

module _ (uuid : ℕ → OpaqueId) (s : AccountedSession) (oid : OpaqueId) where
  -- In the course of the loop, what the loop's variables hold is what a repetition would read.
  pub record Ongoing (p : Progress) : Type 0 where
    pub listed : recorded_events s.session_id oid p.db ≡ p.event_ids
    pub observed : observed_events oid p.db ≡ p.event_ids
    pub charged :
        map
          (λ d. d.disclosure_id)
          (filter (is_charged_by p.event_ids s.session_id) p.db.disclosures)
        ≡ p.disclosure_ids
    pub counted :
        map (λ d. d.budget_delta) (filter (is_charged_by p.event_ids s.session_id) p.db.disclosures)
        ≡ p.deltas
    pub bounded : Bounded p.db.events p.db.disclosures
    pub unused : Unused uuid p.db.drawn p.db.events
    pub spent : Spent uuid p.db.drawn oid

  listed_event :
      (sub rec : OpaqueId) (e : EventRecord) (p : Progress)
      → recorded_events s.session_id oid p.db ≡ p.event_ids
      → recorded_events s.session_id oid (add_event s.session_id oid sub rec e p).db
        ≡ (add_event s.session_id oid sub rec e p).event_ids
  unfolding add_event recorded_events filter
  listed_event sub rec e p h =
      rw
        (
          filter-append (is_event_of s.session_id oid) p.db.events,
          ==_refl s.session_id,
          ==_refl oid,
          map-append (λ x. x.id) (filter (is_event_of s.session_id oid) p.db.events),
          h,
        )
        refl

  observed_event :
      (sub rec : OpaqueId) (e : EventRecord) (p : Progress)
      → observed_events oid p.db ≡ p.event_ids
      → observed_events oid (add_event s.session_id oid sub rec e p).db
        ≡ (add_event s.session_id oid sub rec e p).event_ids
  unfolding add_event observed_events filter
  observed_event sub rec e p h =
      rw
        (
          filter-append (λ x. x.observation_id == oid) p.db.events,
          ==_refl oid,
          map-append (λ x. x.id) (filter (λ x. x.observation_id == oid) p.db.events),
          h,
        )
        refl

  add_disclosure-Ongoing :
      (d : DisclosureRow) (p : Progress)
      → d.session_id ≡ s.session_id
      → d.first_event_id ≡ length p.db.events
      → member (length p.db.events) p.event_ids ≡ true
      → Ongoing p
      → Ongoing (add_disclosure d p)
  unfolding add_disclosure recorded_events observed_events filter
  add_disclosure-Ongoing d p ours at_last known h =
      let counts : is_charged_by p.event_ids s.session_id d ≡ true =
        rw (ours, at_last, ==_refl s.session_id, known) refl in
      let more : filter (is_charged_by p.event_ids s.session_id) (p.db.disclosures ++ d ∷ [])
          ≡ filter (is_charged_by p.event_ids s.session_id) p.db.disclosures ++ d ∷ [] =
        rw (filter-append (is_charged_by p.event_ids s.session_id) p.db.disclosures, counts) refl in
      record {
        listed = h.listed;
        observed = h.observed;
        charged =
            rw
              (
                more,
                map-append (λ x. x.disclosure_id)
                    (filter (is_charged_by p.event_ids s.session_id) p.db.disclosures),
                h.charged,
              )
              refl;
        counted =
            rw
              (
                more,
                map-append (λ x. x.budget_delta)
                    (filter (is_charged_by p.event_ids s.session_id) p.db.disclosures),
                h.counted,
              )
              refl;
        bounded = Bounded-disclosure p.db.events d p.db.disclosures at_last h.bounded;
        unused = h.unused;
        spent = h.spent;
      }

  add_event-Ongoing :
      (sub rec : OpaqueId) (e : EventRecord) (p : Progress)
      → Ongoing p
      → Ongoing (add_event s.session_id oid sub rec e p)
  unfolding add_event Bounded
  add_event-Ongoing sub rec e p h =
      let kept =
        charged_by-event s.session_id p.event_ids (length p.db.events) p.db.disclosures h.bounded in
      record {
        listed = listed_event sub rec e p h.listed;
        observed = observed_event sub rec e p h.observed;
        charged = rw kept h.charged;
        counted = rw kept h.counted;
        bounded = Bounded-event p.db.events _ p.db.disclosures h.bounded;
        unused = Unused-event uuid p.db.drawn p.db.events _ h.spent h.unused;
        spent = h.spent;
      }

  last_listed :
      (sub rec : OpaqueId) (e : EventRecord) (p : Progress)
      → member
          (length (add_event s.session_id oid sub rec e p).db.events)
          (add_event s.session_id oid sub rec e p).event_ids
        ≡ true
  unfolding add_event member any
  last_listed sub rec e p =
      rw
        (
          length-append p.db.events (
              record {
                id = length p.db.events + 1;
                session_id = s.session_id;
                observation_id = oid;
                subject_id = sub;
                recipient_id = rec;
                event = e;
              }
              ∷ []),
          any-append (λ x. length p.db.events + 1 == x) p.event_ids ((length p.db.events + 1) ∷ []),
        )
        (ground arith)

  charge-Ongoing :
      (sub rec : OpaqueId) (e : EventRecord) (p q : Progress)
      → charge s sub rec e (add_event s.session_id oid sub rec e p) ≡ returned q
      → Ongoing p
      → Ongoing q
  charge-Ongoing sub rec e p q h good =
      let mid = add_event-Ongoing sub rec e p good in
      elim (charge_cases s sub rec e (add_event s.session_id oid sub rec e p) q h) [
        | inl same ↦ rw (← same) mid
        | inr c ↦
            rw (← c.added) (add_disclosure-Ongoing _ _ refl refl (last_listed sub rec e p) mid)
      ]

  -- New rows for identities do not touch what the loop has listed.
  identities-Ongoing :
      (subjects : Known SubjectKind) (recipients : Known DestinationKind) (p : Progress)
      → p.db.drawn ≤ recipients.drawn
      → Ongoing p
      → Ongoing (with_recipients (with_subjects p subjects) recipients)
  unfolding recorded_events observed_events
  identities-Ongoing subjects recipients p le h = record {
    listed = h.listed;
    observed = h.observed;
    charged = h.charged;
    counted = h.counted;
    bounded = h.bounded;
    unused = Unused-later uuid _ _ p.db.events le h.unused;
    spent = Spent-later uuid _ _ oid le h.spent;
  }

  record_event-Ongoing :
      (e : EventRecord) (p q : Progress)
      → record_event uuid s oid e p ≡ returned q
      → Ongoing p
      → Ongoing q
  unfolding record_event
  record_event-Ongoing e p q h good =
      let first =
        identity_id uuid s.session_id oid (subject_descriptor e.subject) (subjects_known p) in
      let second =
        identity_id uuid s.session_id oid (recipient_descriptor e.recipient)
          (recipients_known (with_subjects p first.0)) in
      let drawn_first =
        identity_id-drawn uuid s.session_id oid (subject_descriptor e.subject) (subjects_known p) in
      let drawn_second =
        identity_id-drawn uuid s.session_id oid (recipient_descriptor e.recipient)
          (recipients_known (with_subjects p first.0)) in
      charge-Ongoing first.1 second.1 e _ q h
        (identities-Ongoing first.0 second.0 p (omega (arith, drawn_first, drawn_second)) good)

  pub record_events-Ongoing :
      (es : List EventRecord) (p q : Progress)
      → record_events uuid s oid es p ≡ returned q
      → Ongoing p
      → Ongoing q
  unfolding record_events
  record_events-Ongoing [] p q h good = let same : p ≡ q = returned_inj h in rw (← same) good
  record_events-Ongoing (e ∷ es) p q h good =
      let (mid, first, rest) = and_then-returned _ _ q h in
      record_events-Ongoing es mid q rest (record_event-Ongoing e p mid first good)
