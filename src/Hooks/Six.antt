-- ===== src/Hooks/Six.antt =====
-- `classify_evidence` of src/privacy_hud/hook_evidence.py as a function of the six tests that it makes.
use codex_privacy_hud.Prelude.{
  Bool, true, false, not, ◌&&◌, List, [], ◌∷◌, ◌++◌, ◌==◌, member, any, if◌then◌else◌, is_empty,
  ◌≡◌, refl, arith,
}
use codex_privacy_hud.Accounting.Vocabulary.{Boundary, EventKind, boundary_key, event_kind_key}
use codex_privacy_hud.Accounting.Evidence.{Evidence, meets}
use codex_privacy_hud.Hooks.{classify_evidence, kind_if, terminal_kinds, prevented_bits}

-- `classify_evidence` of the six tests that it makes
pub six : Bool → Bool → Bool → Bool → Bool → Bool → List EventKind
six p x l r m d =
    let kinds =
      (if p then EventKind.prevented ∷ [] else [])
      ++ (if x then EventKind.exposed ∷ [] else [])
      ++ (if l then EventKind.local_access ∷ [] else [])
      ++ (if r then EventKind.retention ∷ [] else []) in
    if not (is_empty kinds)
    then kinds
    else if m
    then EventKind.permitted ∷ []
    else if d
    then EventKind.detected ∷ []
    else []

pub six_prevented :
    (p x l r m d : Bool) → member EventKind.prevented (six p x l r m d) ≡ true → p ≡ true
unfolding six member any
six_prevented p x l r m d h = ground arith

pub six_exposed :
    (p x l r m d : Bool) → member EventKind.exposed (six p x l r m d) ≡ true → x ≡ true
unfolding six member any
six_exposed p x l r m d h = ground arith

pub six_local_access :
    (p x l r m d : Bool) → member EventKind.local_access (six p x l r m d) ≡ true → l ≡ true
unfolding six member any
six_local_access p x l r m d h = ground arith

pub six_retention :
    (p x l r m d : Bool) → member EventKind.retention (six p x l r m d) ≡ true → r ≡ true
unfolding six member any
six_retention p x l r m d h = ground arith

pub six_permitted :
    (p x l r m d : Bool) → member EventKind.permitted (six p x l r m d) ≡ true → m ≡ true
unfolding six member any
six_permitted p x l r m d h = ground arith

pub six_detected :
    (p x l r m d : Bool) → member EventKind.detected (six p x l r m d) ≡ true → d ≡ true
unfolding six member any
six_detected p x l r m d h = ground arith

pub kind_if_eq : (b : Bool) (k : EventKind) → kind_if b k ≡ (if b then k ∷ [] else [])
kind_if_eq true k = refl
kind_if_eq false k = refl

pub classify-six :
    (b : Boundary) (e : Evidence)
    → classify_evidence b e
      ≡ six
          (meets e prevented_bits)
          (e.crossing_confirmed && not (b == Boundary.b0))
          (e.execution_observed && b == Boundary.b0)
          e.persistence_observed
          e.permission_issued
          e.local_detection
unfolding classify_evidence terminal_kinds six
classify-six b e =
    rw
      (
        kind_if_eq (meets e prevented_bits) EventKind.prevented,
        kind_if_eq (e.crossing_confirmed && not (b == Boundary.b0)) EventKind.exposed,
        kind_if_eq (e.execution_observed && b == Boundary.b0) EventKind.local_access,
        kind_if_eq e.persistence_observed EventKind.retention,
      )
      refl
