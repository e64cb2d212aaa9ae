-- ===== src/Settings/Tests.antt =====
-- Examples for the settings: one key beside the guard, and a second process.
use codex_privacy_hud.Prelude.{
  String, Bool, true, false, Option, none, some, [], ◌∷◌, ◌==◌, string_key, if◌then◌else◌, lookup,
  upsert, ◌≡◌, refl,
}
use codex_privacy_hud.Settings.{
  File, boolean, other, Data, Json, Settings, new_settings, load, is_true, deny_read, set_deny_read,
}
use codex_privacy_hud.Settings.Shared.{deny_read-set_deny_read}

abbrev stored : Bool → Data
stored b = ("theme", other "dark") ∷ ("deny_read", boolean b) ∷ []

-- The two texts that are met here
abbrev json : Json
json = record {
  loads = λ text.
      if text == "on"
      then some (stored true)
      else if text == "off"
      then some (stored false)
      else none;
  dumps =
      λ d. elim (lookup "deny_read" d) [ none ↦ "" | some v ↦ if is_true v then "on" else "off" ];
}

abbrev before : Option File
before = some (record { stamp = (1, 3); text = some "off" })

abbrev reader : Settings
reader = record { cached = some (stored false); stamp = some (1, 3) }

deny_read-set_deny_read_example :
    (deny_read json (some (set_deny_read json (1, 2) true before new_settings).1) reader ≡ true)
    × (deny_read json
          (some (set_deny_read json (1, 2) true before new_settings).1)
          (set_deny_read json (1, 2) true before new_settings).0
        ≡ true)
    × ((key : String)
        → (key == "deny_read") ≡ false
        → lookup key
            (load json (some (set_deny_read json (1, 2) true before new_settings).1) reader).1
          ≡ lookup key (load json before new_settings).1)
unfolding load lookup upsert
deny_read-set_deny_read_example =
    deny_read-set_deny_read json (1, 2) true before new_settings reader refl refl
