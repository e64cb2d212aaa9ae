-- ===== src/Settings/Shared.antt =====
-- What a process sees of the settings of src/privacy_hud/settings.py that another one has written.
use codex_privacy_hud.Prelude.{
  String, Bool, true, false, not, ◌||◌, Option, some, [], ◌==◌, string_key, nat_key, pair_key,
  is_some, lookup, or_else, lookup-upsert, ◌≡◌, refl, ap, ◌∙◌, ==_sym_false,
}
use codex_privacy_hud.Settings.{
  Stamp, File, boolean, Json, Settings, new_settings, is_stamp, data_of, load, deny_read, changed,
  set_deny_read,
}

-- Settings whose cache is not of a file with the stamp
abbrev pub is_stale : Stamp → Settings → Bool
is_stale stamp s = not (is_some s.cached) || not (is_stamp stamp s.stamp)

load-stale :
    (json : Json) (file : File) (s : Settings)
    → is_stale file.stamp s ≡ true
    → (load json (some file) s).1 ≡ data_of json file.text
unfolding load
load-stale json file s h = rw h refl

-- After a process has set the setting, a process whose cache is not stamped as the file now is, and so the
-- one that set it, reads what was set, and of every other key what the first one read before, if the JSON
-- that is written is read back as it was.
pub deny_read-set_deny_read :
    (json : Json) (stamp : Stamp) (enabled : Bool) (file : Option File) (writer reader : Settings)
    → json.loads (json.dumps (changed json enabled file writer))
      ≡ some (changed json enabled file writer)
    → is_stale stamp reader ≡ true
    → (deny_read json (some (set_deny_read json stamp enabled file writer).1) reader ≡ enabled)
      × (deny_read json
            (some (set_deny_read json stamp enabled file writer).1)
            (set_deny_read json stamp enabled file writer).0
          ≡ enabled)
      × ((key : String)
          → (key == "deny_read") ≡ false
          → lookup key (load json (some (set_deny_read json stamp enabled file writer).1) reader).1
            ≡ lookup key (load json file writer).1)
unfolding deny_read set_deny_read
deny_read-set_deny_read json stamp enabled file writer reader back stale =
    let before = (load json file writer).1 in
    let after = changed json enabled file writer in
    let written : File = record { stamp = stamp; text = some (json.dumps after) } in
    let seen : (s : Settings) → is_stale stamp s ≡ true → (load json (some written) s).1 ≡ after =
      λ s h. load-stale json written s h ∙ ap (λ d. or_else d []) back in
    let set : lookup "deny_read" after ≡ some (boolean enabled) =
      lookup-upsert "deny_read" "deny_read" (λ _. boolean enabled) before in
    (
      rw (seen reader stale, set) refl,
      rw (seen new_settings refl, set) refl,
      λ key apart. rw (seen reader stale) (
          lookup-upsert "deny_read" key (λ _. boolean enabled) before
          ∙ rw (==_sym_false key "deny_read" apart) refl),
    )
