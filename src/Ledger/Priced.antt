-- ===== src/Ledger/Priced.antt =====
-- The points of a group of disclosures of src/privacy_hud/ledger.py (a session's disclosures of one type to one
-- recipient) against the scoring function of src/privacy_hud/budget.py.
use codex_privacy_hud.Prelude.{
  ℕ, ◌+◌, String, true, ◌&&◌, Option, none, some, List, [], ◌∷◌, ◌++◌, count_where, filter,
  filter-append, ◌==◌, string_key, ◌≡◌, refl, sym, ◌∙◌, arith, inl, inr, ==→eq, ==_refl, Bool-cases,
  if◌then◌else◌, &&-true,
}
use codex_privacy_hud.Accounting.Vocabulary.{
  DataType, DestinationKind, data_type_key, destination_kind_key, subject_kind_key,
}
use codex_privacy_hud.Accounting.Records.{OpaqueId}
use codex_privacy_hud.Ledger.Tables.{
  AccountedSession, IdentityRow, DisclosureRow, find_session, in_group, group_size, group_score,
}
use codex_privacy_hud.Ledger.Charges.{IsCharge}
use codex_privacy_hud.Ledger.Pairs.{count_where-append}
use mathlib.Core.Option.{map as option_map}
use codex_privacy_hud.Ledger.Kinds.{kind_of}

-- The exact sum, which is not rounded
abbrev pub sum_deltas : List DisclosureRow → ℕ
sum_deltas [] = 0
sum_deltas (d ∷ ds) = d.budget_delta + sum_deltas ds

sum_deltas-append :
    (ds es : List DisclosureRow) → sum_deltas (ds ++ es) ≡ sum_deltas ds + sum_deltas es
sum_deltas-append [] es = omega arith
sum_deltas-append (d ∷ ds) es = omega (arith, sum_deltas-append ds es)

unfoldable pub group_points : String → DataType → OpaqueId → List DisclosureRow → ℕ
group_points sid dt rec ds = sum_deltas (filter (in_group sid dt rec) ds)

-- The points and the size of a group, against the profile of its session and the kind of its recipient
abbrev pub IsPriced : Option AccountedSession → Option DestinationKind → DataType → ℕ → ℕ → Type 0
IsPriced none to dt points n = (points ≡ 0) × (n ≡ 0)
IsPriced (some s) none dt points n = (points ≡ 0) × (n ≡ 0)
IsPriced (some s) (some to) dt points n =
    points + group_score s.profile dt to 0 ≡ group_score s.profile dt to n

IsPriced-empty :
    (s : Option AccountedSession) (to : Option DestinationKind) (dt : DataType) (points n : ℕ)
    → points ≡ 0
    → n ≡ 0
    → IsPriced s to dt points n
IsPriced-empty none to dt points n p q = (p, q)
IsPriced-empty (some s) none dt points n p q = (p, q)
IsPriced-empty (some s) (some to) dt points n p q = rw (p, q) (omega arith)

-- A kind that was not known becomes known.
pub IsPriced-kind :
    (s : Option AccountedSession) (old new : Option DestinationKind) (dt : DataType) (points n : ℕ)
    → ((to : DestinationKind) → old ≡ some to → new ≡ some to)
    → IsPriced s old dt points n
    → IsPriced s new dt points n
IsPriced-kind none old new dt points n keeps h = h
IsPriced-kind (some s) none new dt points n keeps h =
    IsPriced-empty (some s) new dt points n h.0 h.1
IsPriced-kind (some s) (some to) new dt points n keeps h = rw (keeps to refl) h

-- A session that was not there is inserted.
pub IsPriced-session :
    (new : Option AccountedSession) (to : Option DestinationKind) (dt : DataType) (points n : ℕ)
    → IsPriced none to dt points n
    → IsPriced new to dt points n
IsPriced-session new to dt points n h = IsPriced-empty new to dt points n h.0 h.1

-- A session's row is written, but for its profile.
pub IsPriced-row :
    (s : Option AccountedSession) (f : AccountedSession → AccountedSession)
    (to : Option DestinationKind) (dt : DataType) (points n : ℕ)
    → ((x : AccountedSession) → (f x).profile ≡ x.profile)
    → IsPriced s to dt points n
    → IsPriced (option_map f s) to dt points n
IsPriced-row none f to dt points n keeps h = h
IsPriced-row (some s) f none dt points n keeps h = h
IsPriced-row (some s) f (some to) dt points n keeps h = rw (keeps s) h

unfoldable pub AllPriced :
    List AccountedSession → List (IdentityRow DestinationKind) → List DisclosureRow → Type 0
AllPriced sessions recipients ds =
    (sid : String) (dt : DataType) (rec : OpaqueId)
    → IsPriced (find_session sid sessions) (kind_of rec recipients) dt (group_points sid dt rec ds)
        (group_size sid dt rec ds)

group_of :
    (sid : String) (dt : DataType) (rec : OpaqueId) (d : DisclosureRow)
    → in_group sid dt rec d ≡ true
    → (d.session_id ≡ sid) × (d.charged_data_type ≡ dt) × (d.recipient_id ≡ rec)
group_of sid dt rec d h =
    let (a, b) =
      &&-true (d.session_id == sid && d.charged_data_type == dt) (d.recipient_id == rec) h in
    let (c, e) = &&-true (d.session_id == sid) (d.charged_data_type == dt) a in
    (==→eq d.session_id sid c, ==→eq d.charged_data_type dt e, ==→eq d.recipient_id rec b)

-- The group of a new disclosure, and every other
grown :
    (sid : String) (dt : DataType) (rec : OpaqueId) (ds : List DisclosureRow) (d : DisclosureRow)
    → (group_points sid dt rec (ds ++ d ∷ [])
        ≡ group_points sid dt rec ds + (if in_group sid dt rec d then d.budget_delta else 0))
      × (group_size sid dt rec (ds ++ d ∷ [])
          ≡ group_size sid dt rec ds + (if in_group sid dt rec d then 1 else 0))
unfolding group_points group_size filter count_where
grown sid dt rec ds d = (
  rw
      (
        filter-append (in_group sid dt rec) ds (d ∷ []),
        sum_deltas-append (filter (in_group sid dt rec) ds),
      )
      (ground arith),
  rw (count_where-append (in_group sid dt rec) ds (d ∷ [])) (omega arith),
)

IsPriced-≡ :
    (s : Option AccountedSession) (to : Option DestinationKind) (dt : DataType) (p n q m : ℕ)
    → q ≡ p
    → m ≡ n
    → IsPriced s to dt p n
    → IsPriced s to dt q m
IsPriced-≡ s to dt p n q m e f h = rw (e, f) h

-- The group that a charge goes to
own-IsPriced :
    (s : AccountedSession) (ds : List DisclosureRow) (d : DisclosureRow)
    → (i : IsCharge s ds d)
    → IsPriced
        (some s)
        (some i.to)
        d.charged_data_type
        (group_points s.session_id d.charged_data_type d.recipient_id ds)
        (group_size s.session_id d.charged_data_type d.recipient_id ds)
    → IsPriced
        (some s)
        (some i.to)
        d.charged_data_type
        (group_points s.session_id d.charged_data_type d.recipient_id (ds ++ d ∷ []))
        (group_size s.session_id d.charged_data_type d.recipient_id (ds ++ d ∷ []))
own-IsPriced s ds d i before =
    let (points, size) = grown s.session_id d.charged_data_type d.recipient_id ds d in
    let mine : in_group s.session_id d.charged_data_type d.recipient_id d ≡ true =
      rw (i.of_session, ==_refl s.session_id, ==_refl d.charged_data_type, ==_refl d.recipient_id)
        refl in
    rw (points, size, mine) (omega (arith, before, i.priced))

pub charged_priced :
    (s : AccountedSession) (sessions : List AccountedSession)
    (recipients : List (IdentityRow DestinationKind)) (ds : List DisclosureRow) (d : DisclosureRow)
    → find_session s.session_id sessions ≡ some s
    → (i : IsCharge s ds d) → kind_of d.recipient_id recipients ≡ some i.to
    → AllPriced sessions recipients ds
    → AllPriced sessions recipients (ds ++ d ∷ [])
unfolding AllPriced
charged_priced s sessions recipients ds d found i kind good sid dt rec =
    let (points, size) = grown sid dt rec ds d in
    elim (Bool-cases (in_group sid dt rec d)) [
      | inl mine ↦
          let (e1, e2, e3) = group_of sid dt rec d mine in
          let own : IsPriced (find_session s.session_id sessions)
              (kind_of d.recipient_id recipients) d.charged_data_type
              (group_points s.session_id d.charged_data_type d.recipient_id (ds ++ d ∷ []))
              (group_size s.session_id d.charged_data_type d.recipient_id (ds ++ d ∷ [])) =
            rw (found, kind)
              (own-IsPriced s ds d i
                (rw (found, kind) at (good s.session_id d.charged_data_type d.recipient_id))) in
          let ours : s.session_id ≡ sid = sym i.of_session ∙ e1 in rw (← ours, ← e2, ← e3) own
      | inr other ↦
          IsPriced-≡ _ _ dt _ _ _ _ (rw (points, other) (omega arith))
            (rw (size, other) (omega arith)) (good sid dt rec)
    ]
