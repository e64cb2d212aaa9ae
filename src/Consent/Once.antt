-- ===== src/Consent/Once.antt =====
-- What a consent token grants: one pass of one call, in time.
use codex_privacy_hud.Prelude.{
  ℕ, ◌+◌, ◌≤◌, String, Bool, true, false, not, ◌&&◌, Option, none, some, List, [], ◌∷◌, ◌++◌, ◌≡◌,
  refl, sym, ap, ◌∙◌, arith, any, filter, filter-append, count_where, if◌then◌else◌, ltb, ◌==◌,
  ==_refl, ==→eq, string_key, pair_key, Bool-cases, Option-cases, some_inj, inl, inr, &&-true,
}
use codex_privacy_hud.Consent.{
  Call, TokenRow, for_call, mint_row, mint_token, is_live, newer, latest, find_token, spend,
  consume_token,
}
use codex_privacy_hud.Consent.Rows.{
  latest-filter, count_where-split, filter_none, count_where-filter-not, count_where-filter,
  count_where-append,
}

-- At most one row of the table is bound to the call.
abbrev pub AtMostOne : Call → List TokenRow → Type 0
AtMostOne c rows = count_where (for_call c) rows ≤ 1

live_for : (c : Call) (now : ℕ) (x : TokenRow) → is_live c now x ≡ true → for_call c x ≡ true
live_for c now x h = (&&-true (for_call c x) (ltb now x.expires_at) h).0

consume_none :
    (c : Call) (now : ℕ) (rows : List TokenRow)
    → count_where (for_call c) rows ≡ 0
    → (consume_token c now rows).1 ≡ none
unfolding consume_token find_token spend latest
consume_none c now rows h =
    rw (filter_none (for_call c) (is_live c now) rows h (live_for c now)) refl

consume_none_0 :
    (c : Call) (now : ℕ) (rows : List TokenRow)
    → (consume_token c now rows).1 ≡ none
    → (consume_token c now rows).0 ≡ rows
unfolding consume_token spend
consume_none_0 c now rows h = elim (Option-cases (find_token c now rows)) [
  | inl nothing ↦ rw nothing refl
  | inr (r, found) ↦ cc (sym h ∙ ap (λ o. (spend o rows).1) found)
]

-- While at most one token is bound to a call, a consent that was spent on the call is gone: until
-- another is minted, every later attempt at the call finds none.
pub consume_token_once :
    (c : Call) (now now' : ℕ) (rows : List TokenRow) (mode : String)
    → AtMostOne c rows
    → (consume_token c now rows).1 ≡ some mode
    → (consume_token c now' (consume_token c now rows).0).1 ≡ none
unfolding consume_token spend find_token
consume_token_once c now now' rows mode single h = elim (Option-cases (find_token c now rows)) [
  | inl nothing ↦ cc (sym h ∙ ap (λ o. (spend o rows).1) nothing)
  | inr (r, found) ↦
      let mine = live_for c now r (latest-filter (λ _. true) (is_live c now) rows r found refl).0 in
      let this : TokenRow → Bool = λ x. x.token == r.token in
      let counted =
        (latest-filter (λ x. for_call c x && this x) (is_live c now) rows r found
          (rw (mine, ==_refl r.token) refl)).1 in
      let parts = count_where-split (for_call c) this rows in
      ap (λ o. (consume_token c now' (spend o rows).0).1) found
      ∙ consume_none c now' (filter (λ x. not (this x)) rows)
          (omega (arith, counted, parts, single))
]

minted_rows :
    (r : TokenRow) (rows rows' : List TokenRow)
    → mint_row r rows ≡ some rows'
    → filter (λ x. not (for_call r.call x)) rows ++ r ∷ [] ≡ rows'
unfolding mint_row
minted_rows r rows rows' h =
    let kept : List TokenRow = filter (λ x. not (for_call r.call x)) rows in
    elim (Bool-cases (any (λ x. x.token == r.token) kept)) [
      | inl taken ↦ cc (rw taken at h)
      | inr free ↦ some_inj (rw free at h)
    ]

count_where_one :
    (c : Call) (r : TokenRow) → count_where (for_call c) (r ∷ []) ≡ (if r.call == c then 1 else 0)
unfolding count_where
count_where_one c r = omega arith

AtMostOne-mint :
    (c : Call) (r : TokenRow) (rows : List TokenRow)
    → AtMostOne c rows
    → AtMostOne c (filter (λ x. not (for_call r.call x)) rows ++ r ∷ [])
AtMostOne-mint c r rows single =
    let kept : List TokenRow = filter (λ x. not (for_call r.call x)) rows in
    let sum = count_where-append (for_call c) kept (r ∷ []) in
    let last = count_where_one c r in
    elim (Bool-cases (r.call == c)) [
      | inl same ↦
          let none_left : count_where (for_call c) kept ≡ 0 =
            rw (← ==→eq r.call c same) (count_where-filter-not (for_call r.call) rows) in
          let one : count_where (for_call c) (r ∷ []) ≡ 1 =
            last ∙ ap (λ b. if b then 1 else 0) same in
          omega (arith, sum, none_left, one)
      | inr other ↦
          let fewer = count_where-filter (for_call c) (λ x. not (for_call r.call x)) rows in
          let zero : count_where (for_call c) (r ∷ []) ≡ 0 =
            last ∙ ap (λ b. if b then 1 else 0) other in
          omega (arith, sum, fewer, zero, single)
    ]

AtMostOne-spend :
    (c : Call) (o : Option TokenRow) (rows : List TokenRow)
    → AtMostOne c rows
    → AtMostOne c (spend o rows).0
unfolding spend
AtMostOne-spend c none rows single = single
AtMostOne-spend c (some r) rows single =
    omega (arith, count_where-filter (for_call c) (λ x. not (x.token == r.token)) rows, single)

-- Minting keeps, for every call, at most one token in the table, and so does spending.
pub AtMostOne-kept :
    (c d : Call) (rows rows' : List TokenRow) (token mode : String) (ttl_seconds now : ℕ)
    → AtMostOne c rows
    → mint_token token d mode ttl_seconds now rows ≡ some rows'
    → AtMostOne c (consume_token d now rows).0 × AtMostOne c rows'
unfolding consume_token mint_token
AtMostOne-kept c d rows rows' token mode ttl_seconds now single h =
    let r : TokenRow = record {
      token = token;
      call = d;
      mode = mode;
      expires_at = now + ttl_seconds;
    } in
    (
      AtMostOne-spend c (find_token d now rows) rows single,
      rw (← minted_rows r rows rows' h) (AtMostOne-mint c r rows single),
    )

find-mint :
    (r : TokenRow) (now : ℕ) (rows : List TokenRow)
    → find_token r.call now (filter (λ x. not (for_call r.call x)) rows ++ r ∷ [])
      ≡ (if ltb now r.expires_at then some r else none)
unfolding find_token latest newer filter
find-mint r now rows =
    let kept : List TokenRow = filter (λ x. not (for_call r.call x)) rows in
    ap latest (filter-append (is_live r.call now) kept (r ∷ []))
    ∙ ap (λ l. latest (l ++ filter (is_live r.call now) (r ∷ [])))
        (filter_none (for_call r.call) (is_live r.call now) kept
          (count_where-filter-not (for_call r.call) rows) (live_for r.call now))
    ∙ rw (==_refl r.call) (ground arith)

drop_others :
    (d : Call) (r x : TokenRow)
    → (r.call == d) ≡ false
    → for_call r.call x ≡ true
    → for_call d x ≡ false
drop_others d r x other mine = rw (==→eq x.call r.call mine) other

live_mint :
    (d : Call) (r : TokenRow) (now : ℕ) (rows : List TokenRow)
    → (r.call == d) ≡ false
    → filter (is_live d now) (filter (λ x. not (for_call r.call x)) rows ++ r ∷ [])
      ≡ filter (is_live d now) rows
unfolding filter
live_mint d r now [] other = rw other refl
live_mint d r now (x ∷ rows) other = elim (Bool-cases (for_call r.call x)) [
  | inl mine ↦ rw (mine, drop_others d r x other mine) (live_mint d r now rows other)
  | inr theirs ↦
      let later = live_mint d r now rows other in
      rw theirs (ap (λ l. if is_live d now x then x ∷ l else l) later)
]

find-mint_other :
    (d : Call) (r : TokenRow) (now : ℕ) (rows : List TokenRow)
    → (r.call == d) ≡ false
    → find_token d now (filter (λ x. not (for_call r.call x)) rows ++ r ∷ [])
      ≡ find_token d now rows
unfolding find_token
find-mint_other d r now rows other = ap latest (live_mint d r now rows other)

spend-mode :
    (o o' : Option TokenRow) (rows rows' : List TokenRow)
    → o ≡ o'
    → (spend o rows).1 ≡ (spend o' rows').1
unfolding spend
spend-mode none o' rows rows' h = rw (← h) refl
spend-mode (some r) o' rows rows' h = rw (← h) refl

spend_if :
    (b : Bool) (r : TokenRow) (rows : List TokenRow)
    → (spend (if b then some r else none) rows).1 ≡ (if b then some r.mode else none)
unfolding spend
spend_if true r rows = refl
spend_if false r rows = refl

-- After a consent is minted for a call, the call's next attempt gets its mode before the time to live
-- is over and nothing from then on, whatever the table held; and every other call gets what it
-- would have got without it.
pub consume-mint :
    (c d : Call) (rows rows' : List TokenRow) (token mode : String) (ttl_seconds now now' : ℕ)
    → mint_token token c mode ttl_seconds now rows ≡ some rows'
    → ((consume_token c now' rows').1 ≡ (if ltb now' (now + ttl_seconds) then some mode else none))
      × ((c == d) ≡ false → (consume_token d now' rows').1 ≡ (consume_token d now' rows).1)
unfolding mint_token consume_token
consume-mint c d rows rows' token mode ttl_seconds now now' h =
    let r : TokenRow = record {
      token = token;
      call = c;
      mode = mode;
      expires_at = now + ttl_seconds;
    } in
    let eq = minted_rows r rows rows' h in
    (
      rw (← eq) (
          ap (λ o. (spend o (filter (λ x. not (for_call c x)) rows ++ r ∷ [])).1)
            (find-mint r now' rows)
          ∙ spend_if (ltb now' (now + ttl_seconds)) r _),
      λ other. rw (← eq) (spend-mode _ _ _ rows (find-mint_other d r now' rows other)),
    )
