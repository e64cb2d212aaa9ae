-- ===== src/Coverage/Doubts.antt =====
-- When the account of a session is said to be complete, and that a doubt stays.
use mathlib.Core.List.{foldl}
use codex_privacy_hud.Prelude.{
  ℕ, ◌+◌, ◌≤◌, String, Bool, true, false, ◌&&◌, ◌||◌, Option, none, some, List, [], ◌∷◌, ◌++◌, any,
  any-append, count_where, ltb, ◌==◌, ==_refl, string_key, ◌≡◌, ◌↔◌, refl, ◌∙◌, arith, Bool-cases,
  inl, inr, ||_true,
}
use codex_privacy_hud.Coverage.{
  Book, SessionRow, CoverageRow, GapRow, SessionCoverage, verified, reason, insert_coverage,
  is_same_watch, start_session, note_unobserved_hooks, record_scan_gap, scan_gaps_of, end_session,
  find_session, is_of, is_attached, observers_of, coverage_at, coverage_of, coverage_attached,
}

-- A coverage gives no reason for doubt exactly if it is verified: the phrase that is shown and the bit
-- that is read never disagree.
pub reason_iff : (c : SessionCoverage) → (reason c ≡ none) ↔ (verified c ≡ true)
unfolding reason verified
reason_iff c = (λ h. ground arith, λ h. ground arith)

-- Two observers, one that came late, or a scan gap.
unfoldable pub is_doubtful : String → Book → Bool
is_doubtful session_id b =
    ltb 1 (observers_of session_id b)
    || (is_attached session_id b || ltb 0 (scan_gaps_of session_id b))

verified_of_doubt :
    (c : SessionCoverage)
    → (ltb 1 c.observers || (c.attached || ltb 0 c.shallow_scans)) ≡ true
    → verified c ≡ false
unfolding verified
verified_of_doubt c h = ground arith

doubtful_at :
    (s : Option SessionRow) (session_id : String) (b : Book)
    → is_doubtful session_id b ≡ true
    → verified (coverage_at s session_id b) ≡ false
unfolding is_doubtful coverage_at verified
doubtful_at none session_id b h = refl
doubtful_at (some s) session_id b h = verified_of_doubt (coverage_at (some s) session_id b) h

doubtful_is_unverified :
    (session_id : String) (b : Book)
    → is_doubtful session_id b ≡ true
    → verified (coverage_of session_id b) ≡ false
unfolding coverage_of verified
doubtful_is_unverified session_id b h = elim (Bool-cases (session_id == "")) [
  | inl nameless ↦ rw nameless refl
  | inr named ↦ rw named (doubtful_at (find_session session_id b.sessions) session_id b h)
]

-- The writes that the program makes to the three tables.
pub data Write : Type 0 where
  start : String → ℕ → String → String → String → Bool → Write
  hooks : String → ℕ → Write
  gap : String → String → String → ℕ → Write
  end : String → ℕ → Write

pub write : Write → Book → Book
write (Write.start observer now session_id cwd model observed_start) b =
    start_session observer now session_id cwd model observed_start b
write (Write.hooks observer ts) b = note_unobserved_hooks observer ts b
write (Write.gap session_id boundary why ts) b = record_scan_gap session_id boundary why ts b
write (Write.end session_id now) b = end_session session_id now b

pub write_all : List Write → Book → Book
write_all ws b = foldl (λ b w. write w b) b ws

count_where-snoc {ℓ} :
    {A : Type ℓ} (q : A → Bool) (xs : List A) (x : A)
    → count_where q xs ≤ count_where q (xs ++ x ∷ [])
unfolding count_where
count_where-snoc q [] x = omega arith
count_where-snoc q (y ∷ xs) x = ground (arith, count_where-snoc q xs x)

count_where-insert :
    (q : CoverageRow → Bool) (r : CoverageRow) (rows : List CoverageRow)
    → count_where q rows ≤ count_where q (insert_coverage r rows)
unfolding insert_coverage
count_where-insert q r rows = elim (Bool-cases (any (is_same_watch r) rows)) [
  | inl old ↦ rw old (omega arith)
  | inr new ↦ rw new (count_where-snoc q rows r)
]

any-insert :
    (q : CoverageRow → Bool) (r : CoverageRow) (rows : List CoverageRow)
    → any q rows ≡ true
    → any q (insert_coverage r rows) ≡ true
unfolding insert_coverage
any-insert q r rows h = elim (Bool-cases (any (is_same_watch r) rows)) [
  | inl old ↦ rw old h
  | inr new ↦ rw new (any-append q rows (r ∷ []) ∙ rw h refl)
]

grown_doubt :
    (n m : ℕ) (a b : Bool) (i j : ℕ)
    → n ≤ m
    → (a ≡ true → b ≡ true)
    → i ≤ j
    → (ltb 1 n || (a || ltb 0 i)) ≡ true
    → (ltb 1 m || (b || ltb 0 j)) ≡ true
grown_doubt n m a b i j le k le' h = ground arith

doubt-insert :
    (session_id : String) (r : CoverageRow) (b : Book) (rows : List SessionRow)
    → is_doubtful session_id b ≡ true
    → is_doubtful session_id (record b { sessions = rows; coverage = insert_coverage r b.coverage })
      ≡ true
unfolding is_doubtful observers_of is_attached scan_gaps_of
doubt-insert session_id r b rows h =
    grown_doubt (count_where (is_of session_id) b.coverage) _ _ _
      (count_where (λ x. x.session_id == session_id) b.scan_gaps) _
      (count_where-insert (is_of session_id) r b.coverage)
      (any-insert (λ x. is_of session_id x && x.reason == coverage_attached) r b.coverage)
      (omega arith) h

doubt-gap :
    (session_id : String) (r : GapRow) (b : Book)
    → is_doubtful session_id b ≡ true
    → is_doubtful session_id (record b { scan_gaps = b.scan_gaps ++ r ∷ [] }) ≡ true
unfolding is_doubtful observers_of is_attached scan_gaps_of
doubt-gap session_id r b h =
    grown_doubt (count_where (is_of session_id) b.coverage) _ _ _
      (count_where (λ x. x.session_id == session_id) b.scan_gaps) _ (omega arith) (λ k. k)
      (count_where-snoc (λ x. x.session_id == session_id) b.scan_gaps r) h

doubt-write :
    (session_id : String) (w : Write) (b : Book)
    → is_doubtful session_id b ≡ true
    → is_doubtful session_id (write w b) ≡ true
unfolding write start_session note_unobserved_hooks record_scan_gap end_session is_doubtful
    observers_of is_attached scan_gaps_of
doubt-write session_id (Write.start observer now s cwd model observed_start) b h =
    doubt-insert session_id _ b (start_session observer now s cwd model observed_start b).sessions h
doubt-write session_id (Write.hooks observer ts) b h = doubt-insert session_id _ b b.sessions h
doubt-write session_id (Write.gap s boundary why ts) b h = doubt-gap session_id _ b h
doubt-write session_id (Write.end s now) b h = h

doubt-write_all :
    (session_id : String) (ws : List Write) (b : Book)
    → is_doubtful session_id b ≡ true
    → is_doubtful session_id (write_all ws b) ≡ true
unfolding write_all
doubt-write_all session_id [] b h = h
doubt-write_all session_id (w ∷ ws) b h =
    doubt-write_all session_id ws (write w b) (doubt-write session_id w b h)

-- A session of which two observers are recorded, or an observer that came late, or a scan gap, is never
-- again shown as verified, whatever is written later.
pub doubts_stay :
    (session_id : String) (ws : List Write) (b : Book)
    → is_doubtful session_id b ≡ true
    → verified (coverage_of session_id (write_all ws b)) ≡ false
doubts_stay session_id ws b h =
    doubtful_is_unverified session_id (write_all ws b) (doubt-write_all session_id ws b h)

counted_of_any :
    (q w : CoverageRow → Bool) (rows : List CoverageRow)
    → ((x : CoverageRow) → w x ≡ true → q x ≡ true)
    → any w rows ≡ true
    → 1 ≤ count_where q rows
unfolding any count_where
counted_of_any q w [] k h = cc
counted_of_any q w (x ∷ rows) k h = ground (arith, k x, counted_of_any q w rows k)

last_true :
    (q : CoverageRow → Bool) (r : CoverageRow) (a : Bool)
    → q r ≡ true
    → (a || any q (r ∷ [])) ≡ true
unfolding any
last_true q r a h = rw h (||_true a)

-- Two different observers of one session are two rows.
counted_of_watch :
    (session_id observer : String) (q : CoverageRow → Bool) (r : CoverageRow)
    (rows : List CoverageRow)
    → ((x : CoverageRow) → is_same_watch r x ≡ true → q x ≡ true)
    → q r ≡ true
    → 1 ≤ count_where q (insert_coverage r rows)
unfolding insert_coverage
counted_of_watch session_id observer q r rows k h = elim (Bool-cases (any (is_same_watch r) rows)) [
  | inl old ↦ rw old (counted_of_any q (is_same_watch r) rows k old)
  | inr new ↦ rw new (
      counted_of_any q q (rows ++ r ∷ []) (λ x e. e)
        (any-append q rows (r ∷ []) ∙ last_true q r (any q rows) h))
]

watches : String → String → CoverageRow → Bool
watches session_id observer x = is_of session_id x && x.observer == observer

two_watches :
    (session_id o o' : String) (rows : List CoverageRow)
    → (o == o') ≡ false
    → count_where (watches session_id o) rows + count_where (watches session_id o') rows
      ≤ count_where (is_of session_id) rows
unfolding count_where watches
two_watches session_id o o' [] ne = omega arith
two_watches session_id o o' (x ∷ rows) ne = ground (
  arith,
  string_key.agrees_iff x.observer o,
  string_key.agrees_iff x.observer o',
  string_key.agrees_iff o o',
  two_watches session_id o o' rows ne,
)

more_than_one : (n : ℕ) → 2 ≤ n → ltb 1 n ≡ true
more_than_one n h = ground arith

count_start :
    (session_id o cwd model : String) (now : ℕ) (observed : Bool) (b : Book)
    → 1
      ≤ count_where
          (watches session_id o)
          (start_session o now session_id cwd model observed b).coverage
unfolding start_session watches
count_start session_id o cwd model now observed b =
    counted_of_watch session_id o (watches session_id o) _ b.coverage (λ x h. h)
      (rw (==_refl session_id, ==_refl o) refl)

count_kept :
    (q : CoverageRow → Bool) (session_id o cwd model : String) (now : ℕ) (observed : Bool)
    (b : Book)
    → count_where q b.coverage
      ≤ count_where q (start_session o now session_id cwd model observed b).coverage
unfolding start_session
count_kept q session_id o cwd model now observed b = count_where-insert q _ b.coverage

two_is_doubt :
    (session_id o o' cwd cwd' model model' : String) (now now' : ℕ) (observed observed' : Bool)
    (b : Book)
    → (o == o') ≡ false
    → is_doubtful session_id (
        start_session o' now' session_id cwd' model' observed'
          (start_session o now session_id cwd model observed b))
      ≡ true
unfolding is_doubtful observers_of
two_is_doubt session_id o o' cwd cwd' model model' now now' observed observed' b ne =
    let b1 : Book = start_session o now session_id cwd model observed b in
    let b2 : Book = start_session o' now' session_id cwd' model' observed' b1 in
    let first = count_start session_id o cwd model now observed b in
    let kept = count_kept (watches session_id o) session_id o' cwd' model' now' observed' b1 in
    let second = count_start session_id o' cwd' model' now' observed' b1 in
    let both = two_watches session_id o o' b2.coverage ne in
    let many : ltb 1 (count_where (is_of session_id) b2.coverage) ≡ true =
      more_than_one _ (omega (arith, first, kept, second, both)) in
    rw many refl

-- A session that two observers started or resumed, in whatever order and at whatever times, is not
-- verified: a restart in the middle of a session always shows.
pub restart_shows :
    (session_id o o' cwd cwd' model model' : String) (now now' : ℕ) (observed observed' : Bool)
    (b : Book)
    → (o == o') ≡ false
    → verified (
        coverage_of session_id (
          start_session o' now' session_id cwd' model' observed'
            (start_session o now session_id cwd model observed b)))
      ≡ false
restart_shows session_id o o' cwd cwd' model model' now now' observed observed' b ne =
    let b1 = start_session o now session_id cwd model observed b in
    let b2 = start_session o' now' session_id cwd' model' observed' b1 in
    doubtful_is_unverified session_id b2
      (two_is_doubt session_id o o' cwd cwd' model model' now now' observed observed' b ne)
