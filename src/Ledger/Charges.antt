-- ===== src/Ledger/Charges.antt =====
-- Which disclosures a batch of events adds, as a relation between the tables before and after.
use codex_privacy_hud.Prelude.{
  ℕ, ◌+◌, Bool, true, false, not, ◌&&◌, ◌||◌, List, [], ◌∷◌, ◌++◌, any, ◌==◌, ==→eq, string_key,
  ltb, leb, is_some, ◌≡◌, refl, arith, Bool-cases, inl, inr, ◌⊎◌, ||-false, &&-true,
}
use codex_privacy_hud.Prelude.Results.{Result, returned, and_then-returned}
use codex_privacy_hud.Accounting.Vocabulary.{
  Boundary, DataType, DestinationKind, EventKind, data_type_key, boundary_key, event_kind_key,
}
use codex_privacy_hud.Accounting.Records.{OpaqueId, EventRecord}
use codex_privacy_hud.Checks.{chargeable}
use codex_privacy_hud.Ledger.Tables.{
  LedgerError, Profile, next_disclosure_delta, group_score, AccountedSession, DisclosureRow,
  is_open, is_pair, group_size,
}
use codex_privacy_hud.Ledger.Loop.{
  Progress, charge, record_event, record_events, add_disclosure, disclosure, add_event,
}

-- A disclosure that a session is charged, on top of those that it was charged before.
pub record IsCharge (s : AccountedSession) (before : List DisclosureRow) (d : DisclosureRow)
    : Type 0 where
  pub of_session : d.session_id ≡ s.session_id
  pub session_open : is_open s ≡ true
  pub new_pair : any (is_pair s.session_id d.subject_id d.recipient_id) before ≡ false
  pub to : DestinationKind
  pub crosses : (s.profile.destination_boundary to == Boundary.b0) ≡ false
  pub priced :
      d.budget_delta
        + group_score s.profile d.charged_data_type to
            (group_size s.session_id d.charged_data_type d.recipient_id before)
      ≡ group_score s.profile d.charged_data_type to
          (group_size s.session_id d.charged_data_type d.recipient_id before + 1)
  pub numbered : d.group_n ≡ group_size s.session_id d.charged_data_type d.recipient_id before + 1

pub data Charges (s : AccountedSession) (ds : List DisclosureRow) (t : List ℕ)
    : List DisclosureRow → List ℕ → Type 0 where
  done : Charges s ds t ds t
  more :
      {es : List DisclosureRow} {u : List ℕ}
      → Charges s ds t es u
      → (d : DisclosureRow) → IsCharge s es d
      → Charges s ds t (es ++ d ∷ []) (u ++ d.budget_delta ∷ [])

pub Charges-trans :
    {s : AccountedSession} {ds : List DisclosureRow} {t : List ℕ} {es : List DisclosureRow}
    {u : List ℕ} {fs : List DisclosureRow} {v : List ℕ}
    → Charges s ds t es u
    → Charges s es u fs v
    → Charges s ds t fs v
Charges-trans c Charges.done = c
Charges-trans c (Charges.more e d i) = Charges.more (Charges-trans c e) d i

-- Two states of the loop, of which the second has the charges of the first and more.
ChargesTo : AccountedSession → Progress → Progress → Type 0
ChargesTo s p q = Charges s p.db.disclosures p.deltas q.db.disclosures q.deltas

pub returned_inj :
    {A : Type 0} {a b : A} → Path (Result LedgerError A) (returned a) (returned b) → a ≡ b
returned_inj h = cc

delta_facts :
    (p : Profile) (dt : DataType) (to : DestinationKind) (n delta : ℕ)
    → next_disclosure_delta p dt to n ≡ returned delta
    → delta + group_score p dt to n ≡ group_score p dt to (n + 1)
unfolding next_disclosure_delta
delta_facts p dt to n delta h =
    elim (Bool-cases (
      ltb (group_score p dt to n) p.storable_limit
      && ltb (group_score p dt to (n + 1)) p.storable_limit
      && leb (group_score p dt to n) (group_score p dt to (n + 1)))) [
        | inl fits ↦
            let same = returned_inj (rw fits at h) in
            let up =
              &&-true
                (ltb (group_score p dt to n) p.storable_limit
                  && ltb (group_score p dt to (n + 1)) p.storable_limit)
                (leb (group_score p dt to n) (group_score p dt to (n + 1))) fits in
            ground (arith, same, up.1)
        | inr out ↦ cc (rw out at h)
      ]

remote_and_agreed :
    (a b c d f g : Bool)
    → (a && b && not c && d && f && g) ≡ true
    → (c ≡ false) × (d ≡ true) × (g ≡ true)
remote_and_agreed a b c d f g h = ground arith

chargeable_crosses :
    (e : EventRecord) (profile : DestinationKind → Boundary)
    → chargeable e profile ≡ true
    → ((profile e.recipient.destination_kind == Boundary.b0) ≡ false)
      × (is_some e.recipient.identity_hash ≡ true)
unfolding chargeable
chargeable_crosses e profile h =
    let (remote, agreed, identified) =
      remote_and_agreed (e.kind == EventKind.exposed) e.evidence.crossing_confirmed
        (e.boundary == Boundary.b0) (e.boundary == profile e.recipient.destination_kind)
        (is_some e.subject.identity_hash) (is_some e.recipient.identity_hash) h in
    (rw (← ==→eq e.boundary (profile e.recipient.destination_kind) agreed) remote, identified)

-- A row that is written, and the state that it leads to
pub record Charged (s : AccountedSession) (subject_id recipient_id : OpaqueId) (e : EventRecord)
    (p q : Progress) : Type 0 where
  pub delta : ℕ
  pub lawful :
      IsCharge s p.db.disclosures
        (disclosure s.session_id subject_id recipient_id e.data_type p delta)
  pub to_recipient : lawful.to ≡ e.recipient.destination_kind
  pub identified : is_some e.recipient.identity_hash ≡ true
  pub added :
      add_disclosure (disclosure s.session_id subject_id recipient_id e.data_type p delta) p ≡ q

pub charge_cases :
    (s : AccountedSession) (subject_id recipient_id : OpaqueId) (e : EventRecord) (p q : Progress)
    → charge s subject_id recipient_id e p ≡ returned q
    → (p ≡ q) ⊎ Charged s subject_id recipient_id e p q
unfolding charge
charge_cases s subject_id recipient_id e p q h =
    let free = not (is_open s && chargeable e s.profile.destination_boundary) in
    let old = any (is_pair s.session_id subject_id recipient_id) p.db.disclosures in
    elim (Bool-cases (free || old)) [
      | inl nothing ↦ inl (returned_inj (rw nothing at h))
      | inr due ↦
          let (owed, new) = ||-false free old due in
          let (open_now, may) =
            &&-true (is_open s) (chargeable e s.profile.destination_boundary)
              (ground (arith, owed)) in
          let (remote, identified) = chargeable_crosses e s.profile.destination_boundary may in
          let (delta, price, made) = and_then-returned _ _ q (rw due at h) in
          inr (record {
            delta = delta;
            lawful = record {
              of_session = refl;
              session_open = open_now;
              new_pair = new;
              to = e.recipient.destination_kind;
              crosses = remote;
              priced = delta_facts s.profile e.data_type e.recipient.destination_kind _ delta price;
              numbered = refl;
            };
            to_recipient = refl;
            identified = identified;
            added = returned_inj made;
          })
    ]

charge-Charges :
    (s : AccountedSession) (subject_id recipient_id : OpaqueId) (e : EventRecord) (p q : Progress)
    → charge s subject_id recipient_id e p ≡ returned q
    → ChargesTo s p q
unfolding ChargesTo add_disclosure
charge-Charges s subject_id recipient_id e p q h =
    elim (charge_cases s subject_id recipient_id e p q h) [
      | inl same ↦ rw (← same) Charges.done
      | inr c ↦ rw (← c.added) (Charges.more Charges.done _ c.lawful)
    ]

module _ (uuid : ℕ → OpaqueId) where
  record_event-Charges :
      (s : AccountedSession) (observation_id : OpaqueId) (e : EventRecord) (p q : Progress)
      → record_event uuid s observation_id e p ≡ returned q
      → ChargesTo s p q
  unfolding record_event ChargesTo add_event
  record_event-Charges s observation_id e p q h = charge-Charges s _ _ e _ q h

  record_events-Charges :
      (s : AccountedSession) (observation_id : OpaqueId) (es : List EventRecord) (p q : Progress)
      → record_events uuid s observation_id es p ≡ returned q
      → ChargesTo s p q
  unfolding record_events ChargesTo
  record_events-Charges s observation_id [] p q h =
      let same : p ≡ q = returned_inj h in rw (← same) Charges.done
  record_events-Charges s observation_id (e ∷ es) p q h =
      let (mid, first, rest) = and_then-returned _ _ q h in
      Charges-trans (record_event-Charges s observation_id e p mid first)
        (record_events-Charges s observation_id es mid q rest)

  -- The same, with the tables written out
  pub Charges-record_events :
      (s : AccountedSession) (observation_id : OpaqueId) (es : List EventRecord) (p q : Progress)
      → record_events uuid s observation_id es p ≡ returned q
      → Charges s p.db.disclosures p.deltas q.db.disclosures q.deltas
  unfolding ChargesTo
  Charges-record_events = record_events-Charges
