-- ===== src/Ledger/Fresh.antt =====
-- The identifiers that the tables of src/privacy_hud/ledger.py hold: those of the observations are ones
-- that were drawn, and those of the first events are ones that were given.
use codex_privacy_hud.Prelude.{
  ℕ, ◌+◌, ◌≤◌, String, Bool, true, false, ◌&&◌, Option, none, some, List, [], ◌∷◌, ◌++◌, any,
  any-append, all, length, length-append, leb, ◌==◌, string_key, nat_key, Comparable, pair_key, ◌≡◌,
  refl, arith, inl, inr, ==→eq, Bool-cases, &&-true,
}
use codex_privacy_hud.Accounting.Records.{OpaqueId}
use codex_privacy_hud.Ledger.Tables.{DisclosureRow, EventRow}
use codex_privacy_hud.Ledger.Identities.{Known, Descriptor, identity_id, settle, add_identity}

-- An identity takes at most one identifier.
pub settle-drawn :
    {K : Type 0} ⦃key : Comparable K⦄ (k : Option OpaqueId) (sid : String) (oid : OpaqueId)
    (d : Descriptor K) (fresh : OpaqueId) (known : Known K)
    → known.drawn ≤ (settle k sid oid d fresh known).0.drawn
unfolding settle add_identity
settle-drawn (some old) sid oid d fresh known = omega arith
settle-drawn none sid oid d fresh known = omega arith

pub identity_id-drawn :
    {K : Type 0} ⦃key : Comparable K⦄ (uuid : ℕ → OpaqueId) (sid : String) (oid : OpaqueId)
    (d : Descriptor K) (known : Known K)
    → known.drawn ≤ (identity_id uuid sid oid d known).0.drawn
unfolding identity_id
identity_id-drawn uuid sid oid d known = settle-drawn _ sid oid d _ known

unfoldable pub Bounded : List EventRow → List DisclosureRow → Type 0
Bounded events ds = all (λ d. leb d.first_event_id (length events)) ds ≡ true

pub all-append :
    {A : Type 0} (p : A → Bool) (xs ys : List A) → all p (xs ++ ys) ≡ (all p xs && all p ys)
unfolding all
all-append p [] ys = refl
all-append p (x ∷ xs) ys = ground (arith, all-append p xs ys)

pub Bounded-event :
    (events : List EventRow) (e : EventRow) (ds : List DisclosureRow)
    → Bounded events ds
    → Bounded (events ++ e ∷ []) ds
unfolding Bounded all
Bounded-event events e [] h = refl
Bounded-event events e (d ∷ ds) h =
    let (one, rest) =
      &&-true (leb d.first_event_id (length events))
        (all (λ x. leb x.first_event_id (length events)) ds) h in
    let ih = Bounded-event events e ds rest in
    rw (ih, length-append events (e ∷ [])) (ground (arith, one))

pub Bounded-disclosure :
    (events : List EventRow) (d : DisclosureRow) (ds : List DisclosureRow)
    → d.first_event_id ≡ length events
    → Bounded events ds
    → Bounded events (ds ++ d ∷ [])
unfolding Bounded all
Bounded-disclosure events d ds at_last h =
    rw (all-append (λ x. leb x.first_event_id (length events)) ds (d ∷ []), h, at_last)
      (ground arith)

module _ (uuid : ℕ → OpaqueId) where
  -- No event belongs to an observation whose identifier is still to be drawn.
  unfoldable pub Unused : ℕ → List EventRow → Type 0
  Unused drawn events = (j : ℕ) → drawn ≤ j → any (λ e. e.observation_id == uuid j) events ≡ false

  unfoldable pub Spent : ℕ → OpaqueId → Type 0
  Spent drawn observation_id = (j : ℕ) → drawn ≤ j → (observation_id == uuid j) ≡ false

  pub Unused-event :
      (drawn : ℕ) (events : List EventRow) (e : EventRow)
      → Spent drawn e.observation_id
      → Unused drawn events
      → Unused drawn (events ++ e ∷ [])
  unfolding Unused Spent any
  Unused-event drawn events e spent h j above =
      rw (any-append (λ x. x.observation_id == uuid j) events (e ∷ []), h j above, spent j above)
        refl

  pub Unused-later : (n m : ℕ) (events : List EventRow) → n ≤ m → Unused n events → Unused m events
  unfolding Unused
  Unused-later n m events le h j above = h j (omega (arith, le, above))

  pub Spent-later : (n m : ℕ) (id : OpaqueId) → n ≤ m → Spent n id → Spent m id
  unfolding Spent
  Spent-later n m id le h j above = h j (omega (arith, le, above))

  pub Spent-uuid : ((i j : ℕ) → uuid i ≡ uuid j → i ≡ j) → (n : ℕ) → Spent (n + 1) (uuid n)
  unfolding Spent
  Spent-uuid inj n j above = elim (Bool-cases (uuid n == uuid j)) [
    | inl same ↦ let eq = inj n j (==→eq (uuid n) (uuid j) same) in grind (arith, eq, above)
    | inr other ↦ other
  ]
