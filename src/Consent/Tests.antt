-- ===== src/Consent/Tests.antt =====
-- Examples for the consent tokens: one pass of one shell call.
use codex_privacy_hud.Prelude.{
  ◌+◌, false, none, some, [], ◌∷◌, ◌≡◌, refl, arith, any, filter, count_where, if◌then◌else◌, ltb,
  ◌==◌, string_key, pair_key,
}
use codex_privacy_hud.Consent.{
  Call, TokenRow, mint_row, mint_token, latest, find_token, spend, consume_token, token_ttl_seconds,
}
use codex_privacy_hud.Consent.Once.{AtMostOne, AtMostOne-kept, consume_token_once, consume-mint}

abbrev call : Call
call = ("s", ("Bash", "h1"))

abbrev other : Call
other = ("s", ("Bash", "h2"))

abbrev row : TokenRow
row = record { token = "t1"; call = call; mode = "allow_once"; expires_at = 220 }

consume_token_once_example : (consume_token call 102 (consume_token call 101 (row ∷ [])).0).1 ≡ none
unfolding consume_token find_token latest spend filter count_where
consume_token_once_example =
    consume_token_once call 101 102 (row ∷ []) "allow_once" (omega arith) refl

AtMostOne-kept_example :
    AtMostOne call (consume_token other 100 (row ∷ [])).0
    × AtMostOne call (row ∷ record row { token = "t2"; call = other } ∷ [])
unfolding mint_token mint_row filter any count_where
AtMostOne-kept_example =
    AtMostOne-kept call other (row ∷ []) (row ∷ record row { token = "t2"; call = other } ∷ []) "t2"
      "allow_once" 120 100 (omega arith) refl

consume-mint_example :
    ((consume_token call 219 (row ∷ [])).1
      ≡ (if ltb 219 (100 + token_ttl_seconds) then some "allow_once" else none))
    × ((call == other) ≡ false
        → (consume_token other 219 (row ∷ [])).1 ≡ (consume_token other 219 []).1)
unfolding mint_token mint_row filter any
consume-mint_example =
    consume-mint call other [] (row ∷ []) "t1" "allow_once" token_ttl_seconds 100 219 refl
