-- ===== src/Ledger/Rows.antt =====
-- How the session rows of src/privacy_hud/ledger.py answer a look-up after they were written.
use codex_privacy_hud.Prelude.{
  String, false, none, some, List, [], ◌∷◌, ◌++◌, ◌==◌, string_key, ◌≡◌, refl, inl, inr, ==→eq,
  Bool-cases, if◌then◌else◌,
}
use codex_privacy_hud.Ledger.Tables.{AccountedSession, find_session, update_session, at_session}
use mathlib.Core.Option.{map as option_map}

pub find_session-id :
    (session_id : String) (rows : List AccountedSession) (s : AccountedSession)
    → find_session session_id rows ≡ some s
    → s.session_id ≡ session_id
unfolding find_session
find_session-id session_id [] s h = cc
find_session-id session_id (r ∷ rows) s h = elim (Bool-cases (r.session_id == session_id)) [
  | inl same ↦
      let it : some r ≡ some s = rw same at h in
      let one : r ≡ s = cc in rw (← one) (==→eq r.session_id session_id same)
  | inr other ↦ find_session-id session_id rows s (rw other at h)
]

pub find_session-append :
    (session_id : String) (rows : List AccountedSession) (s : AccountedSession)
    → find_session session_id rows ≡ none
    → find_session session_id (rows ++ s ∷ [])
      ≡ (if s.session_id == session_id then some s else none)
unfolding find_session
find_session-append session_id [] s h = refl
find_session-append session_id (r ∷ rows) s h = elim (Bool-cases (r.session_id == session_id)) [
  | inl same ↦ cc (rw same at h)
  | inr other ↦ rw other (find_session-append session_id rows s (rw other at h))
]

pub find_session-append_found :
    (session_id : String) (rows : List AccountedSession) (new s : AccountedSession)
    → find_session session_id rows ≡ some s
    → find_session session_id (rows ++ new ∷ []) ≡ some s
unfolding find_session
find_session-append_found session_id [] new s h = cc
find_session-append_found session_id (r ∷ rows) new s h =
    elim (Bool-cases (r.session_id == session_id)) [
      | inl same ↦ rw same (rw same at h)
      | inr other ↦ rw other (find_session-append_found session_id rows new s (rw other at h))
    ]

pub find_session-append_other :
    (session_id : String) (rows : List AccountedSession) (s : AccountedSession)
    → (s.session_id == session_id) ≡ false
    → find_session session_id (rows ++ s ∷ []) ≡ find_session session_id rows
unfolding find_session
find_session-append_other session_id [] s h = rw h refl
find_session-append_other session_id (r ∷ rows) s h =
    elim (Bool-cases (r.session_id == session_id)) [
      | inl same ↦ rw same refl
      | inr other ↦ rw other (find_session-append_other session_id rows s h)
    ]

pub at_session-id :
    (name : String) (f : AccountedSession → AccountedSession)
    → ((s : AccountedSession) → (f s).session_id ≡ s.session_id)
    → (s : AccountedSession) → (at_session name f s).session_id ≡ s.session_id
at_session-id name f keeps s = elim (Bool-cases (s.session_id == name)) [
  | inl same ↦ rw same (keeps s)
  | inr other ↦ rw other refl
]

-- An update that keeps the rows' names
pub find_session-update_session :
    (name session_id : String) (f : AccountedSession → AccountedSession)
    → ((s : AccountedSession) → (f s).session_id ≡ s.session_id)
    → (rows : List AccountedSession)
    → find_session session_id (update_session name f rows)
      ≡ option_map (at_session name f) (find_session session_id rows)
unfolding find_session update_session
find_session-update_session name session_id f keeps [] = refl
find_session-update_session name session_id f keeps (r ∷ rows) =
    elim (Bool-cases (r.session_id == session_id)) [
      | inl same ↦ rw (at_session-id name f keeps r, same) refl
      | inr other ↦
          rw (at_session-id name f keeps r, other)
            (find_session-update_session name session_id f keeps rows)
    ]

pub at_session-profile :
    (name : String) (f : AccountedSession → AccountedSession)
    → ((s : AccountedSession) → (f s).profile ≡ s.profile)
    → (s : AccountedSession) → (at_session name f s).profile ≡ s.profile
at_session-profile name f keeps s = elim (Bool-cases (s.session_id == name)) [
  | inl same ↦ rw same (keeps s)
  | inr other ↦ rw other refl
]
