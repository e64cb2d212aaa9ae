-- ===== src/Consent.antt =====
-- One-shot consent tokens: the table `policy_tokens` of src/privacy_hud/ledger_schema.py, with
-- `Ledger.mint_token` and `Ledger.consume_token` of src/privacy_hud/ledger.py, and their callers in
-- src/privacy_hud/minimize.py. The random token and the time in seconds are arguments, and
-- `args_hash` (SHA-256 of the canonical JSON of the arguments) is a parameter.
mod Rows
pub mod Once
mod Tests
use codex_privacy_hud.Prelude.{
  ℕ, ◌+◌, String, Bool, not, ◌&&◌, Option, none, some, List, [], ◌∷◌, ◌++◌, any, filter,
  if◌then◌else◌, ltb, ◌==◌, string_key, pair_key,
}
use codex_privacy_hud.Accounting.Records.{Digest}

-- A session, a tool and the hash of the arguments: what a token is bound to.
abbrev pub Call : Type 0
Call = String × (String × Digest)

pub record TokenRow : Type 0 where
  pub token : String
  pub call : Call
  pub mode : String
  pub expires_at : ℕ

-- `TOKEN_TTL_SECONDS`
abbrev pub token_ttl_seconds : ℕ
token_ttl_seconds = 120

abbrev pub for_call : Call → TokenRow → Bool
for_call c r = r.call == c

-- `mint_token`: an earlier token for the call goes, and the new row is inserted. `none` is the
-- error of a token that stands in the table already (it is the primary key).
pub mint_row : TokenRow → List TokenRow → Option (List TokenRow)
mint_row r rows =
    let kept = filter (λ x. not (for_call r.call x)) rows in
    if any (λ x. x.token == r.token) kept then none else some (kept ++ r ∷ [])

pub mint_token : String → Call → String → ℕ → ℕ → List TokenRow → Option (List TokenRow)
unfolding mint_row
mint_token token c mode ttl_seconds now rows =
    mint_row (record { token = token; call = c; mode = mode; expires_at = now + ttl_seconds }) rows

-- `WHERE session_id=? AND tool_name=? AND args_hash=? AND expires_at>?`
abbrev pub is_live : Call → ℕ → TokenRow → Bool
is_live c now r = for_call c r && ltb now r.expires_at

unfoldable pub newer : TokenRow → Option TokenRow → Option TokenRow
newer r none = some r
newer r (some s) = if ltb r.expires_at s.expires_at then some s else some r

-- `ORDER BY expires_at DESC LIMIT 1`
unfoldable pub latest : List TokenRow → Option TokenRow
unfolding newer
latest [] = none
latest (r ∷ rs) = newer r (latest rs)

unfoldable pub find_token : Call → ℕ → List TokenRow → Option TokenRow
find_token c now rows = latest (filter (is_live c now) rows)

unfoldable pub spend : Option TokenRow → List TokenRow → List TokenRow × Option String
spend none rows = (rows, none)
spend (some r) rows = (filter (λ x. not (x.token == r.token)) rows, some r.mode)

-- `consume_token`: the table that is left, and the mode.
unfoldable pub consume_token : Call → ℕ → List TokenRow → List TokenRow × Option String
consume_token c now rows = spend (find_token c now rows) rows

-- `mint_token` and `consume_token` of minimize.py, which hash the arguments of the call.
module _ {J : Type 0} (args_hash : J → Digest) where
  pub mint_for : String → String → String → J → String → ℕ → List TokenRow → Option (List TokenRow)
  mint_for token session_id tool_name tool_input mode now rows =
      mint_token token (session_id, (tool_name, args_hash tool_input)) mode token_ttl_seconds now
        rows

  pub consume_for : String → String → J → ℕ → List TokenRow → List TokenRow × Option String
  consume_for session_id tool_name tool_input now rows =
      consume_token (session_id, (tool_name, args_hash tool_input)) now rows
