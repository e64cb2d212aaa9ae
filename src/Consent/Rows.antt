-- ===== src/Consent/Rows.antt =====
-- Rows of the token table: which row is the latest, and how many a test counts.
use codex_privacy_hud.Prelude.{
  ◌+◌, ◌≤◌, Bool, true, not, ◌&&◌, some, List, [], ◌∷◌, ◌++◌, ◌≡◌, refl, sym, ap, ◌∙◌, arith,
  filter, count_where, ltb, string_key, pair_key, Bool-cases, Option-cases, some_inj, inl, inr,
}
use codex_privacy_hud.Consent.{TokenRow, newer, latest}

pub latest-filter :
    (p q : TokenRow → Bool) (rows : List TokenRow) (r : TokenRow)
    → latest (filter q rows) ≡ some r
    → p r ≡ true
    → (q r ≡ true) × (1 ≤ count_where p rows)
unfolding latest newer filter count_where
latest-filter p q [] r h k = cc
latest-filter p q (x ∷ rows) r h k = elim (Bool-cases (q x)) [
  | inr out ↦
      let later = latest-filter p q rows r (rw out at h) k in (later.0, ground (arith, later.1))
  | inl kept ↦ elim (Option-cases (latest (filter q rows))) [
    | inl last ↦
        let same : x ≡ r = some_inj (rw (kept, last) at h) in
        (ap q (sym same) ∙ kept, rw (ap p same ∙ k) (ground arith))
    | inr (s, found) ↦ elim (Bool-cases (ltb x.expires_at s.expires_at)) [
      | inl older ↦
          let same : s ≡ r = some_inj (rw (kept, found, older) at h) in
          let later = latest-filter p q rows r (found ∙ ap some same) k in
          (later.0, ground (arith, later.1))
      | inr newest ↦
          let same : x ≡ r = some_inj (rw (kept, found, newest) at h) in
          (ap q (sym same) ∙ kept, rw (ap p same ∙ k) (ground arith))
    ]
  ]
]

pub count_where-split :
    (p k : TokenRow → Bool) (rows : List TokenRow)
    → count_where p rows
      ≡ count_where (λ x. p x && k x) rows + count_where p (filter (λ x. not (k x)) rows)
unfolding count_where filter
count_where-split p k [] = refl
count_where-split p k (x ∷ rows) = ground (arith, count_where-split p k rows)

pub filter_none :
    (p q : TokenRow → Bool) (rows : List TokenRow)
    → count_where p rows ≡ 0
    → ((x : TokenRow) → q x ≡ true → p x ≡ true)
    → filter q rows ≡ []
unfolding count_where filter
filter_none p q [] h k = refl
filter_none p q (x ∷ rows) h k = let later = filter_none p q rows in ground (arith, k x, later)

pub count_where-filter-not :
    (p : TokenRow → Bool) (rows : List TokenRow) → count_where p (filter (λ x. not (p x)) rows) ≡ 0
unfolding count_where filter
count_where-filter-not p [] = refl
count_where-filter-not p (x ∷ rows) = ground (arith, count_where-filter-not p rows)

pub count_where-filter :
    (p q : TokenRow → Bool) (rows : List TokenRow)
    → count_where p (filter q rows) ≤ count_where p rows
unfolding count_where filter
count_where-filter p q [] = omega arith
count_where-filter p q (x ∷ rows) = ground (arith, count_where-filter p q rows)

pub count_where-append :
    (p : TokenRow → Bool) (xs ys : List TokenRow)
    → count_where p (xs ++ ys) ≡ count_where p xs + count_where p ys
unfolding count_where
count_where-append p [] ys = omega arith
count_where-append p (x ∷ xs) ys = ground (arith, count_where-append p xs ys)
