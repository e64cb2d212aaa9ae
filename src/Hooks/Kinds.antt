-- ===== src/Hooks/Kinds.antt =====
-- The kinds that `classify_evidence` gives an event are those that the ledger's check lets pass.
use codex_privacy_hud.Prelude.{
  Bool, true, false, not, ◌&&◌, ◌||◌, ◌==◌, member, is_some, ◌≡◌, refl, sym, ap, ◌∙◌, arith,
  Bool-cases, inl, inr, &&-true, ==→eq,
}
use codex_privacy_hud.Accounting.Vocabulary.{
  Boundary, DestinationKind, EventKind, boundary_key, event_kind_key,
}
use codex_privacy_hud.Accounting.Evidence.{Evidence, meets, within}
use codex_privacy_hud.Accounting.Records.{ObservationRecord, EventRecord}
use codex_privacy_hud.Checks.{
  Formats, kind_evidence, is_supported, is_well_formed_event, check_event, chargeable,
}
use codex_privacy_hud.Hooks.{classify_evidence, prevented_bits}
use codex_privacy_hud.Hooks.Six.{
  six_prevented, six_exposed, six_local_access, six_retention, six_permitted, six_detected,
  classify-six,
}

-- The kind, with this evidence at this boundary, passes the ledger's check.
pub fits : Boundary → Evidence → EventKind → Bool
fits b e k =
    meets e (kind_evidence k)
    && (not (k == EventKind.exposed && b == Boundary.b0)
        && not (k == EventKind.local_access && not (b == Boundary.b0)))

prevented_meets :
    (e : Evidence)
    → meets e prevented_bits ≡ true
    → meets e (kind_evidence EventKind.prevented) ≡ true
unfolding kind_evidence
prevented_meets e h = ground arith

exposed_meets :
    (e : Evidence) → e.crossing_confirmed ≡ true → meets e (kind_evidence EventKind.exposed) ≡ true
unfolding kind_evidence
exposed_meets e h = ground arith

local_access_meets :
    (e : Evidence)
    → e.execution_observed ≡ true
    → meets e (kind_evidence EventKind.local_access) ≡ true
unfolding kind_evidence
local_access_meets e h = ground arith

retention_meets :
    (e : Evidence)
    → e.persistence_observed ≡ true
    → meets e (kind_evidence EventKind.retention) ≡ true
unfolding kind_evidence
retention_meets e h = ground arith

permitted_meets :
    (e : Evidence) → e.permission_issued ≡ true → meets e (kind_evidence EventKind.permitted) ≡ true
unfolding kind_evidence
permitted_meets e h = ground arith

detected_meets :
    (e : Evidence) → e.local_detection ≡ true → meets e (kind_evidence EventKind.detected) ≡ true
unfolding kind_evidence
detected_meets e h = ground arith

prevented_fits :
    (b : Boundary) (e : Evidence)
    → member EventKind.prevented (classify_evidence b e) ≡ true
    → fits b e EventKind.prevented ≡ true
unfolding fits
prevented_fits b e h =
    let found =
      six_prevented _ _ _ _ _ _ (ap (member EventKind.prevented) (sym (classify-six b e)) ∙ h) in
    ap (λ c. c && true) (prevented_meets e found)

exposed_fits :
    (b : Boundary) (e : Evidence)
    → member EventKind.exposed (classify_evidence b e) ≡ true
    → fits b e EventKind.exposed ≡ true
unfolding fits
exposed_fits b e h =
    let found =
      six_exposed _ _ _ _ _ _ (ap (member EventKind.exposed) (sym (classify-six b e)) ∙ h) in
    let (crossed, far) = &&-true e.crossing_confirmed (not (b == Boundary.b0)) found in
    ap (λ c. c && (not (b == Boundary.b0) && true)) (exposed_meets e crossed)
    ∙ ap (λ c. c && true) far

local_access_fits :
    (b : Boundary) (e : Evidence)
    → member EventKind.local_access (classify_evidence b e) ≡ true
    → fits b e EventKind.local_access ≡ true
unfolding fits
local_access_fits b e h =
    let found =
      six_local_access _ _ _ _ _ _
        (ap (member EventKind.local_access) (sym (classify-six b e)) ∙ h) in
    let (ran, near) = &&-true e.execution_observed (b == Boundary.b0) found in
    ap (λ c. c && not (not (b == Boundary.b0))) (local_access_meets e ran)
    ∙ ap (λ c. not (not c)) near

retention_fits :
    (b : Boundary) (e : Evidence)
    → member EventKind.retention (classify_evidence b e) ≡ true
    → fits b e EventKind.retention ≡ true
unfolding fits
retention_fits b e h =
    let found =
      six_retention _ _ _ _ _ _ (ap (member EventKind.retention) (sym (classify-six b e)) ∙ h) in
    ap (λ c. c && true) (retention_meets e found)

permitted_fits :
    (b : Boundary) (e : Evidence)
    → member EventKind.permitted (classify_evidence b e) ≡ true
    → fits b e EventKind.permitted ≡ true
unfolding fits
permitted_fits b e h =
    let found =
      six_permitted _ _ _ _ _ _ (ap (member EventKind.permitted) (sym (classify-six b e)) ∙ h) in
    ap (λ c. c && true) (permitted_meets e found)

detected_fits :
    (b : Boundary) (e : Evidence)
    → member EventKind.detected (classify_evidence b e) ≡ true
    → fits b e EventKind.detected ≡ true
unfolding fits
detected_fits b e h =
    let found =
      six_detected _ _ _ _ _ _ (ap (member EventKind.detected) (sym (classify-six b e)) ∙ h) in
    ap (λ c. c && true) (detected_meets e found)

kinds_fit :
    (b : Boundary) (e : Evidence) (k : EventKind)
    → member k (classify_evidence b e) ≡ true
    → fits b e k ≡ true
kinds_fit b e EventKind.prevented h = prevented_fits b e h
kinds_fit b e EventKind.exposed h = exposed_fits b e h
kinds_fit b e EventKind.local_access h = local_access_fits b e h
kinds_fit b e EventKind.retention h = retention_fits b e h
kinds_fit b e EventKind.permitted h = permitted_fits b e h
kinds_fit b e EventKind.detected h = detected_fits b e h

supported :
    (i s t c x y : Bool)
    → i ≡ true
    → s ≡ true
    → t ≡ true
    → c ≡ true
    → not x ≡ true
    → not y ≡ true
    → not (not i || not s || not t || not c || x || y) ≡ true
supported i s t c x y h1 h2 h3 h4 h5 h6 = ground arith

supported_inv :
    (i s t c x y : Bool)
    → not (not i || not s || not t || not c || x || y) ≡ true
    → (t ≡ true) × (c ≡ true) × (x ≡ false)
supported_inv i s t c x y h = ground arith

crossing_of_exposed :
    (e : Evidence) → meets e (kind_evidence EventKind.exposed) ≡ true → e.crossing_confirmed ≡ true
unfolding kind_evidence
crossing_of_exposed e h = ground arith

exposed_facts :
    (e : EventRecord) (o : ObservationRecord) (profile : DestinationKind → Boundary)
    → (e.kind == EventKind.exposed) ≡ true
    → is_supported e o profile ≡ true
    → (e.evidence.crossing_confirmed ≡ true)
      × ((e.boundary == Boundary.b0) ≡ false)
      × ((e.boundary == profile e.recipient.destination_kind) ≡ true)
unfolding is_supported
exposed_facts e o profile exposed passed =
    let (there, carried, far) =
      supported_inv (within e.evidence o.evidence) (e.boundary == o.boundary)
        (e.boundary == profile e.recipient.destination_kind)
        (meets e.evidence (kind_evidence e.kind))
        (e.kind == EventKind.exposed && e.boundary == Boundary.b0)
        (e.kind == EventKind.local_access && not (e.boundary == Boundary.b0)) passed in
    (
      crossing_of_exposed e.evidence (
          ap (λ k. meets e.evidence (kind_evidence k))
            (sym (==→eq e.kind EventKind.exposed exposed))
          ∙ carried),
      rw exposed at far,
      there,
    )

-- Every event that carries the boundary of its observation, evidence within the observation's, and a kind
-- that `classify_evidence` gives its own evidence there, passes the ledger's check, if its
-- recipient lies across that boundary and its other fields are well formed.
pub classified_event_is_accepted :
    (fm : Formats) (profile : DestinationKind → Boundary) (o : ObservationRecord) (e : EventRecord)
    → member e.kind (classify_evidence e.boundary e.evidence) ≡ true
    → within e.evidence o.evidence ≡ true
    → (e.boundary == o.boundary) ≡ true
    → (e.boundary == profile e.recipient.destination_kind) ≡ true
    → is_well_formed_event fm e ≡ true
    → check_event fm e o profile ≡ true
unfolding check_event is_supported fits
classified_event_is_accepted fm profile o e kind inside same there formed =
    let fit = kinds_fit e.boundary e.evidence e.kind kind in
    let (carried, rest) = &&-true (meets e.evidence (kind_evidence e.kind)) _ fit in
    let (far, near) =
      &&-true (not (e.kind == EventKind.exposed && e.boundary == Boundary.b0)) _ rest in
    rw (formed, supported _ _ _ _ _ _ inside same there carried far near) refl

pub is_some_resolved : EventRecord → Bool
is_some_resolved e = is_some e.subject.identity_hash && is_some e.recipient.identity_hash

-- An event that passes the ledger's check is one that may be charged (which an open session and a new pair
-- are asked for besides) exactly if it is an exposure whose subject and recipient are both identified.
pub chargeable_iff :
    (fm : Formats) (profile : DestinationKind → Boundary) (o : ObservationRecord) (e : EventRecord)
    → check_event fm e o profile ≡ true
    → chargeable e profile ≡ (e.kind == EventKind.exposed && is_some_resolved e)
unfolding check_event chargeable is_some_resolved
chargeable_iff fm profile o e passed = elim (Bool-cases (e.kind == EventKind.exposed)) [
  | inr other ↦ rw other refl
  | inl exposed ↦
      let (crossed, far, there) =
        exposed_facts e o profile exposed (&&-true (is_well_formed_event fm e) _ passed).1 in
      rw (exposed, crossed, far, there) refl
]
