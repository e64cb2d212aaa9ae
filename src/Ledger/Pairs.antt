-- ===== src/Ledger/Pairs.antt =====
-- No pair of a subject and a recipient is charged twice in a session of src/privacy_hud/ledger.py, and the
-- charges of a group are numbered.
use codex_privacy_hud.Prelude.{
  ℕ, ◌+◌, ◌≤◌, String, Bool, true, false, ◌&&◌, List, [], ◌∷◌, ◌++◌, any, count_where, ◌==◌,
  string_key, ◌≡◌, refl, ap, arith, inl, inr, ==→eq, Bool-cases, &&-true,
}
use codex_privacy_hud.Accounting.Vocabulary.{data_type_key}
use codex_privacy_hud.Accounting.Records.{OpaqueId, ObservationRecord, EventRecord}
use codex_privacy_hud.Checks.{Formats}
use codex_privacy_hud.Ledger.Tables.{AccountedSession, DisclosureRow, Db, RecordResult, is_pair}
use codex_privacy_hud.Ledger.Recording.{finish}
use codex_privacy_hud.Ledger.Charges.{Charges, IsCharge, Charges-record_events}
use codex_privacy_hud.Ledger.Outcome.{NewDelivery}
use codex_privacy_hud.Ledger.Calls.{Reached, Reached-kept}

pub count_where-append :
    {A : Type 0} (p : A → Bool) (xs ys : List A)
    → count_where p (xs ++ ys) ≡ count_where p xs + count_where p ys
unfolding count_where
count_where-append p [] ys = omega arith
count_where-append p (x ∷ xs) ys = ground (arith, count_where-append p xs ys)

count_where-none :
    {A : Type 0} (p : A → Bool) (xs : List A) → any p xs ≡ false → count_where p xs ≡ 0
unfolding count_where any
count_where-none p [] h = refl
count_where-none p (x ∷ xs) h = ground (arith, count_where-none p xs)

-- A property of disclosures that every lawful charge keeps
pub record ChargeKept {ℓ} (P : List DisclosureRow → Type ℓ) : Type ℓ where
  pub on_empty : P []
  pub on_charge :
      (s : AccountedSession) (ds : List DisclosureRow) (d : DisclosureRow)
      → IsCharge s ds d
      → P ds
      → P (ds ++ d ∷ [])

module _ {ℓ} {P : List DisclosureRow → Type ℓ} (k : ChargeKept P) where
  pub Charges-kept :
      {s : AccountedSession} {ds : List DisclosureRow} {t : List ℕ} {es : List DisclosureRow}
      {u : List ℕ}
      → Charges s ds t es u
      → P ds
      → P es
  Charges-kept Charges.done good = good
  Charges-kept (Charges.more c d i) good = k.on_charge _ _ d i (Charges-kept c good)

  recorded-kept :
      (uuid : ℕ → OpaqueId) (fm : Formats) (o : ObservationRecord) (es : List EventRecord)
      (db after : Db) (r : RecordResult)
      → NewDelivery uuid fm o es db after r
      → P db.disclosures
      → P after.disclosures
  unfolding finish
  recorded-kept uuid fm o es db after r new good =
      rw (← ap (λ x. x.0) new.made)
        (Charges-kept (Charges-record_events uuid new.session _ es _ new.progress new.looped) good)

  pub Reached-disclosures :
      (uuid : ℕ → OpaqueId) (fm : Formats) (db : Db) → Reached uuid fm db → P db.disclosures
  Reached-disclosures uuid fm db =
      Reached-kept uuid fm {P = λ x. P x.disclosures}
        (record {
          kept_inserted = λ name profile x h good. good;
          kept_recorded = recorded-kept uuid fm;
          kept_target = λ x t fits good. good;
          kept_ended = λ name now x good. good;
          kept_withdrawn = λ name x good. good;
        })
        k.on_empty

unfoldable OncePerPair : List DisclosureRow → Type 0
OncePerPair ds =
    (session_id : String) (subject_id recipient_id : OpaqueId)
    → count_where (is_pair session_id subject_id recipient_id) ds ≤ 1

pair_of :
    (session_id : String) (subject_id recipient_id : OpaqueId) (d : DisclosureRow)
    → is_pair session_id subject_id recipient_id d ≡ true
    → (d.session_id ≡ session_id) × (d.subject_id ≡ subject_id) × (d.recipient_id ≡ recipient_id)
pair_of session_id subject_id recipient_id d h =
    let (a, b) =
      &&-true (d.session_id == session_id && d.subject_id == subject_id)
        (d.recipient_id == recipient_id) h in
    let (c, e) = &&-true (d.session_id == session_id) (d.subject_id == subject_id) a in
    (
      ==→eq d.session_id session_id c,
      ==→eq d.subject_id subject_id e,
      ==→eq d.recipient_id recipient_id b,
    )

once_more :
    (s : AccountedSession) (ds : List DisclosureRow) (d : DisclosureRow)
    → IsCharge s ds d
    → OncePerPair ds
    → OncePerPair (ds ++ d ∷ [])
unfolding OncePerPair count_where
once_more s ds d i good sid sub rec =
    let before = good sid sub rec in
    rw (count_where-append (is_pair sid sub rec) ds (d ∷ []))
      (elim (Bool-cases (is_pair sid sub rec d)) [
        | inl mine ↦
            let (e1, e2, e3) = pair_of sid sub rec d mine in
            let none_yet : count_where (is_pair sid sub rec) ds ≡ 0 =
              count_where-none (is_pair sid sub rec) ds
                (rw (← e1, ← e2, ← e3, i.of_session) i.new_pair) in
            rw (mine, none_yet) (omega arith)
        | inr other ↦ rw other (omega (arith, before))
      ])

-- In all tables that calls lead to, no session has two disclosures of one subject to one recipient.
pub charged_once_per_pair :
    (uuid : ℕ → OpaqueId) (fm : Formats) (db : Db)
    → Reached uuid fm db
    → (session_id : String) (subject_id recipient_id : OpaqueId)
    → count_where (is_pair session_id subject_id recipient_id) db.disclosures ≤ 1
unfolding OncePerPair count_where
charged_once_per_pair =
    Reached-disclosures {P = OncePerPair} (record {
      on_empty = λ session_id subject_id recipient_id. omega arith;
      on_charge = once_more;
    })
