-- ===== src/Settings.antt =====
-- src/privacy_hud/settings.py: the user's settings, in a file that several processes write, with a cache. The
-- reader and the writer of JSON are parameters, and so is the stamp (modification time and size) that the file
-- system gives to a file that is written. Of a write that the file system refuses, nothing is said.
pub mod Shared
pub mod Tests
use codex_privacy_hud.Prelude.{
  ℕ, String, Bool, true, false, not, ◌&&◌, ◌||◌, Option, none, some, List, [], ◌∷◌, ◌==◌,
  string_key, nat_key, pair_key, is_some, if◌then◌else◌, Dict, lookup, assign, or_else,
}

-- Time of modification and size
abbrev pub Stamp : Type 0
Stamp = ℕ × ℕ

-- The file: not there, or with a stamp and a text that can be read or not
pub record File : Type 0 where
  pub stamp : Stamp
  pub text : Option String

-- The values of JSON that the program tells apart
pub data Value : Type 0 where
  boolean : Bool → Value
  other : String → Value

abbrev pub Data : Type 0
Data = Dict String Value

-- What Python's `json` does: none where the text is malformed or no object
pub record Json : Type 0 where
  pub loads : String → Option Data
  pub dumps : Data → String

pub record Settings : Type 0 where
  pub cached : Option Data
  pub stamp : Option Stamp

abbrev pub new_settings : Settings
new_settings = record { cached = none; stamp = none }

abbrev pub is_stamp : Stamp → Option Stamp → Bool
is_stamp st none = false
is_stamp st (some old) = st == old

abbrev pub data_of : Json → Option String → Data
data_of json none = []
data_of json (some text) = or_else (json.loads text) []

-- `_load`: the settings after it, and the data
unfoldable pub load : Json → Option File → Settings → Settings × Data
load json none s = (record { cached = some []; stamp = none }, [])
load json (some file) s =
    let read = data_of json file.text in
    if not (is_some s.cached) || not (is_stamp file.stamp s.stamp)
    then (record { cached = some read; stamp = some file.stamp }, read)
    else (s, or_else s.cached [])

-- `is True`
abbrev pub is_true : Value → Bool
is_true (boolean b) = b
is_true (other text) = false

-- `deny_read`
unfoldable pub deny_read : Json → Option File → Settings → Bool
deny_read json file s = is_true (or_else (lookup "deny_read" (load json file s).1) (boolean false))

-- The data that `set_deny_read` writes
abbrev pub changed : Json → Bool → Option File → Settings → Data
changed json enabled file s = assign "deny_read" (boolean enabled) (load json file s).1

-- `set_deny_read`: the settings and the file after it, at the stamp that the file gets
unfoldable pub set_deny_read : Json → Stamp → Bool → Option File → Settings → Settings × File
set_deny_read json stamp enabled file s =
    (new_settings, record { stamp = stamp; text = some (json.dumps (changed json enabled file s)) })
