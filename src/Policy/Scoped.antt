-- ===== src/Policy/Scoped.antt =====
-- A saved rule is found in its own session and under its own type, and nowhere else.

use codex_privacy_hud.Prelude.{
  ℕ, String, ◌&&◌, ◌||◌, List, [], ◌∷◌, ◌++◌, map, filter, filter-append, ◌==◌, string_key, member,
  any, ◌≡◌, refl, ap, ◌∙◌, arith,
}
use codex_privacy_hud.Policy.{PolicyRow, session_scope, add_policy, applies, policy_selectors}

member-map-append :
    (x : String) (rows more : List PolicyRow)
    → member x (map (λ r. r.selector) (rows ++ more))
      ≡ (member x (map (λ r. r.selector) rows) || member x (map (λ r. r.selector) more))
unfolding member any
member-map-append x [] more = refl
member-map-append x (r ∷ rows) more = ground (arith, member-map-append x rows more)

member_one :
    (x : String) (session_id rule_type : String) (r : PolicyRow)
    → member x (map (λ r. r.selector) (filter (applies session_id rule_type) (r ∷ [])))
      ≡ (applies session_id rule_type r && x == r.selector)
unfolding member any filter
member_one x session_id rule_type r = ground arith

pub policy_selectors-add_policy :
    (s t rule_type rule_type' selector x : String) (now : ℕ) (rows : List PolicyRow)
    → member x (policy_selectors t rule_type' (add_policy s rule_type selector now rows)) ≡ (
        member x (policy_selectors t rule_type' rows)
        || ((rule_type == rule_type' && session_scope s == session_scope t) && x == selector))
unfolding policy_selectors add_policy
policy_selectors-add_policy s t rule_type rule_type' selector x now rows =
    let r : PolicyRow = record {
      scope = session_scope s;
      rule_type = rule_type;
      selector = selector;
      created_at = now;
    } in
    ap (λ l. member x (map (λ r. r.selector) l))
      (filter-append (applies t rule_type') rows (r ∷ []))
    ∙ member-map-append x (filter (applies t rule_type') rows)
        (filter (applies t rule_type') (r ∷ []))
    ∙ ap (λ b. member x (policy_selectors t rule_type' rows) || b) (member_one x t rule_type' r)
