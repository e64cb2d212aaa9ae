-- ===== src/Ledger/Kinds.antt =====
-- The kind that a row of `subjects` or `recipients` in src/privacy_hud/ledger.py gives to an identifier, and
-- that the look-up of an identity answers with an identifier of the kind that was asked for.
use codex_privacy_hud.Prelude.{
  ℕ, ◌≤◌, String, true, false, ◌&&◌, Option, none, some, List, [], ◌∷◌, ◌++◌, map, ◌==◌, string_key,
  Comparable, pair_key, ◌≡◌, refl, ap, ◌∙◌, arith, inl, inr, ◌⊎◌, ==→eq, ==_refl, ==_sym_false,
  Bool-cases, if◌then◌else◌, is_some, &&-true,
}
use codex_privacy_hud.Accounting.Records.{OpaqueId, Digest}
use codex_privacy_hud.Ledger.Tables.{IdentityRow}
use codex_privacy_hud.Ledger.Identities.{
  Known, Descriptor, identity_id, settle, add_identity, known_identity, find_identity, is_identity,
  has_hash,
}
use codex_privacy_hud.Ledger.Sessions.{erase}
use codex_privacy_hud.Ledger.Fresh.{Spent, Spent-uuid}

module _ {K : Type 0} where
  unfoldable pub kind_of : OpaqueId → List (IdentityRow K) → Option K
  kind_of id [] = none
  kind_of id (r ∷ rows) =
      let rest = kind_of id rows in if r.identity_id == id then some r.kind else rest

  pub kind_of-append :
      (id : OpaqueId) (rows : List (IdentityRow K)) (r : IdentityRow K) (k : K)
      → kind_of id rows ≡ some k
      → kind_of id (rows ++ r ∷ []) ≡ some k
  unfolding kind_of
  kind_of-append id [] r k h = cc
  kind_of-append id (x ∷ rows) r k h = elim (Bool-cases (x.identity_id == id)) [
    | inl same ↦ rw same (rw same at h)
    | inr other ↦ rw other (kind_of-append id rows r k (rw other at h))
  ]

  pub kind_of-append_new :
      (id : OpaqueId) (rows : List (IdentityRow K)) (r : IdentityRow K)
      → kind_of id rows ≡ none
      → kind_of id (rows ++ r ∷ []) ≡ (if r.identity_id == id then some r.kind else none)
  unfolding kind_of
  kind_of-append_new id [] r h = refl
  kind_of-append_new id (x ∷ rows) r h = elim (Bool-cases (x.identity_id == id)) [
    | inl same ↦ cc (rw same at h)
    | inr other ↦ rw other (kind_of-append_new id rows r (rw other at h))
  ]

  erase-id : (sid : String) (r : IdentityRow K) → (erase sid r).identity_id ≡ r.identity_id
  erase-id sid r = ground arith

  erase-kind : (sid : String) (r : IdentityRow K) → (erase sid r).kind ≡ r.kind
  erase-kind sid r = ground arith

  pub kind_of-erase :
      (id : OpaqueId) (sid : String) (rows : List (IdentityRow K))
      → kind_of id (map (erase sid) rows) ≡ kind_of id rows
  unfolding kind_of
  kind_of-erase id sid [] = refl
  kind_of-erase id sid (r ∷ rows) =
      rw (erase-id sid r, erase-kind sid r, kind_of-erase id sid rows) refl

module _ {K : Type 0} ⦃key : Comparable K⦄ where
  unfoldable pub Coherent : List (IdentityRow K) → Type 0
  Coherent rows =
      (sid : String) (kind : K) (h : Digest) (id : OpaqueId)
      → find_identity sid kind h rows ≡ some id
      → kind_of id rows ≡ some kind

  find_identity-append :
      (sid : String) (kind : K) (h : Digest) (rows : List (IdentityRow K)) (r : IdentityRow K)
      (id : OpaqueId)
      → find_identity sid kind h (rows ++ r ∷ []) ≡ some id
      → (find_identity sid kind h rows ≡ some id)
        ⊎ ((is_identity sid kind h r ≡ true) × (r.identity_id ≡ id))
  unfolding find_identity
  find_identity-append sid kind h [] r id found = elim (Bool-cases (is_identity sid kind h r)) [
    | inl same ↦ let it : some r.identity_id ≡ some id = rw same at found in inr (same, cc)
    | inr other ↦ cc (rw other at found)
  ]
  find_identity-append sid kind h (x ∷ rows) r id found =
      elim (Bool-cases (is_identity sid kind h x)) [
        | inl same ↦ inl (rw same (rw same at found))
        | inr other ↦ rw other (find_identity-append sid kind h rows r id (rw other at found))
      ]

  pub Coherent-append :
      (rows : List (IdentityRow K)) (r : IdentityRow K)
      → kind_of r.identity_id rows ≡ none
      → Coherent rows
      → Coherent (rows ++ r ∷ [])
  unfolding Coherent
  Coherent-append rows r new good sid kind h id found =
      elim (find_identity-append sid kind h rows r id found) [
        | inl old ↦ kind_of-append id rows r kind (good sid kind h id old)
        | inr here ↦
            let both =
              (&&-true (r.session_id == sid && r.kind == kind) (has_hash h r.identity_hash)
                here.0).0 in
            let (ours, kinds) = &&-true (r.session_id == sid) (r.kind == kind) both in
            let one : (r.identity_id == id) ≡ true = rw here.1 (==_refl id) in
            kind_of-append_new id rows r (rw (← here.1) new)
            ∙ rw one (ap some (==→eq r.kind kind kinds))
      ]

  -- Erasing leaves a session with no identity, and the other sessions as they were.
  is_identity-erase_own :
      (name : String) (kind : K) (h : Digest) (r : IdentityRow K)
      → is_identity name kind h (erase name r) ≡ false
  is_identity-erase_own name kind h r = elim (Bool-cases (r.session_id == name)) [
    | inl same ↦ rw same (ground arith)
    | inr other ↦ rw other (rw other refl)
  ]

  is_identity-erase_other :
      (name sid : String) (kind : K) (h : Digest) (r : IdentityRow K)
      → (sid == name) ≡ false
      → is_identity sid kind h (erase name r) ≡ is_identity sid kind h r
  is_identity-erase_other name sid kind h r apart = elim (Bool-cases (r.session_id == name)) [
    | inl same ↦
        let off : (r.session_id == sid) ≡ false =
          rw (==→eq r.session_id name same) (==_sym_false sid name apart) in
        rw (same, off) refl
    | inr other ↦ rw other refl
  ]

  pub find_identity-erase_own :
      (name : String) (kind : K) (h : Digest) (rows : List (IdentityRow K))
      → find_identity name kind h (map (erase name) rows) ≡ none
  unfolding find_identity
  find_identity-erase_own name kind h [] = refl
  find_identity-erase_own name kind h (r ∷ rows) =
      rw (is_identity-erase_own name kind h r, find_identity-erase_own name kind h rows) refl

  find_identity-erase_other :
      (name sid : String) (kind : K) (h : Digest) (rows : List (IdentityRow K))
      → (sid == name) ≡ false
      → find_identity sid kind h (map (erase name) rows) ≡ find_identity sid kind h rows
  unfolding find_identity
  find_identity-erase_other name sid kind h [] apart = refl
  find_identity-erase_other name sid kind h (r ∷ rows) apart =
      rw
        (
          is_identity-erase_other name sid kind h r apart,
          erase-id name r,
          find_identity-erase_other name sid kind h rows apart,
        )
        refl

  pub Coherent-erase :
      (name : String) (rows : List (IdentityRow K))
      → Coherent rows
      → Coherent (map (erase name) rows)
  unfolding Coherent
  Coherent-erase name rows good sid kind h id found = elim (Bool-cases (sid == name)) [
    | inl same ↦ cc (rw (==→eq sid name same, find_identity-erase_own name kind h rows) at found)
    | inr apart ↦
        rw (kind_of-erase id name rows)
          (good sid kind h id (rw (find_identity-erase_other name sid kind h rows apart) at found))
  ]

module _ {K : Type 0} ⦃key : Comparable K⦄ (uuid : ℕ → OpaqueId) where
  -- No row has an identifier that is still to be drawn.
  unfoldable pub Undrawn : ℕ → List (IdentityRow K) → Type 0
  Undrawn drawn rows = (j : ℕ) → drawn ≤ j → kind_of (uuid j) rows ≡ none

  pub Undrawn-later :
      (n m : ℕ) (rows : List (IdentityRow K)) → n ≤ m → Undrawn n rows → Undrawn m rows
  unfolding Undrawn
  Undrawn-later n m rows le h j above = h j (omega (arith, le, above))

  pub Undrawn-erase :
      (name : String) (n : ℕ) (rows : List (IdentityRow K))
      → Undrawn n rows
      → Undrawn n (map (erase name) rows)
  unfolding Undrawn
  Undrawn-erase name n rows h j above = kind_of-erase (uuid j) name rows ∙ h j above

  -- What holds of a table of identities between two look-ups
  pub record Sound (known : Known K) : Type 0 where
    pub coherent : Coherent known.rows
    pub undrawn : Undrawn known.drawn known.rows

  module _ (distinct : (i j : ℕ) → uuid i ≡ uuid j → i ≡ j) where
    add_identity-Sound :
        (sid : String) (oid : OpaqueId) (d : Descriptor K) (known : Known K)
        → Sound known
        → Sound (add_identity sid oid d (uuid known.drawn) known)
    unfolding add_identity Undrawn Spent
    add_identity-Sound sid oid d known good = record {
      coherent =
          Coherent-append known.rows _ (good.undrawn known.drawn (omega arith)) good.coherent;
      undrawn = λ j above.
          kind_of-append_new (uuid j) known.rows _ (good.undrawn j (omega (arith, above)))
          ∙ rw (Spent-uuid uuid distinct known.drawn j above) refl;
    }

    settle-Sound :
        (k : Option OpaqueId) (sid : String) (oid : OpaqueId) (d : Descriptor K) (known : Known K)
        → Sound known
        → Sound (settle k sid oid d (uuid known.drawn) known).0
    unfolding settle
    settle-Sound (some old) sid oid d known good = good
    settle-Sound none sid oid d known good = add_identity-Sound sid oid d known good

    pub identity_id-Sound :
        (sid : String) (oid : OpaqueId) (d : Descriptor K) (known : Known K)
        → Sound known
        → Sound (identity_id uuid sid oid d known).0
    unfolding identity_id
    identity_id-Sound sid oid d known good = settle-Sound _ sid oid d known good

  -- Rows of identities are only added, so a kind that is known stays.
  settle-kept :
      (k : Option OpaqueId) (sid : String) (oid : OpaqueId) (d : Descriptor K) (fresh : OpaqueId)
      (known : Known K) (id : OpaqueId) (kind : K)
      → kind_of id known.rows ≡ some kind
      → kind_of id (settle k sid oid d fresh known).0.rows ≡ some kind
  unfolding settle add_identity
  settle-kept (some old) sid oid d fresh known id kind h = h
  settle-kept none sid oid d fresh known id kind h = kind_of-append id known.rows _ kind h

  pub identity_id-kept :
      (sid : String) (oid : OpaqueId) (d : Descriptor K) (known : Known K) (id : OpaqueId)
      (kind : K)
      → kind_of id known.rows ≡ some kind
      → kind_of id (identity_id uuid sid oid d known).0.rows ≡ some kind
  unfolding identity_id
  identity_id-kept sid oid d known id kind h = settle-kept _ sid oid d _ known id kind h

  -- A resolved descriptor gets an identifier of its kind.
  settle-kind :
      (k : Option OpaqueId) (sid : String) (oid : OpaqueId) (d : Descriptor K) (h : Digest)
      (known : Known K)
      → Sound known
      → find_identity sid d.kind h known.rows ≡ k
      → kind_of
          (settle k sid oid d (uuid known.drawn) known).1
          (settle k sid oid d (uuid known.drawn) known).0.rows
        ≡ some d.kind
  unfolding settle add_identity Coherent Undrawn
  settle-kind (some old) sid oid d h known good found = good.coherent sid d.kind h old found
  settle-kind none sid oid d h known good found =
      kind_of-append_new (uuid known.drawn) known.rows _ (good.undrawn known.drawn (omega arith))
      ∙ rw (==_refl (uuid known.drawn)) refl

  hashed_kind :
      (hash : Option Digest) (sid : String) (oid : OpaqueId) (d : Descriptor K) (known : Known K)
      → Sound known
      → is_some hash ≡ true
      → d.identity_hash ≡ hash
      → kind_of (identity_id uuid sid oid d known).1 (identity_id uuid sid oid d known).0.rows
        ≡ some d.kind
  unfolding identity_id known_identity
  hashed_kind none sid oid d known good resolved e = cc
  hashed_kind (some h) sid oid d known good resolved e =
      settle-kind _ sid oid d h known good (rw e refl)

  pub identity_id-kind :
      (sid : String) (oid : OpaqueId) (d : Descriptor K) (known : Known K)
      → Sound known
      → is_some d.identity_hash ≡ true
      → kind_of (identity_id uuid sid oid d known).1 (identity_id uuid sid oid d known).0.rows
        ≡ some d.kind
  identity_id-kind sid oid d known good resolved = hashed_kind _ sid oid d known good resolved refl
