-- ===== src/Bands/Tests.antt =====
-- The bands of src/privacy_hud/matrix/tables.toml.
use codex_privacy_hud.Prelude.{
  List, [], ◌∷◌, ◌≡◌, refl, count_where, is_some, if◌then◌else◌, leb, string_key,
}
use codex_privacy_hud.Bands.{Band, bands, accept, next_lo, contains, band}
use codex_privacy_hud.Bands.Cover.{bands_cover}

abbrev tables : List Band
tables =
    record { lo = 0; hi = 33; name = "safe" }
    ∷ record { lo = 34; hi = 66; name = "warn" }
    ∷ record { lo = 67; hi = 100; name = "danger" }
    ∷ []

bands_cover_example :
    (count_where (contains 34) tables ≡ (if leb 34 100 then 1 else 0))
    × (is_some (band 34 tables) ≡ leb 34 100)
unfolding bands accept next_lo
bands_cover_example = bands_cover tables tables 34 refl
