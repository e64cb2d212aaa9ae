-- ===== src/Bands/Cover.antt =====
-- The bands that are accepted cover 0 to 100, each percentage once.
use codex_privacy_hud.Prelude.{
  ℕ, ◌+◌, ◌≤◌, String, Bool, true, false, not, ◌&&◌, ◌||◌, Option, none, some, List, [], ◌∷◌,
  length, count_where, is_some, if◌then◌else◌, ltb, leb, nat_eq, ◌==◌, string_key, ◌≡◌, refl, sym,
  ap, ◌∙◌, arith, some_inj,
}
use codex_privacy_hud.Bands.{Band, band_names, next_lo, accept, bands, contains, band}

none_first :
    (q : Bool) (o : Option ℕ) (e : ℕ)
    → (if q then none else o) ≡ some e
    → (q ≡ false) × (o ≡ some e)
none_first true o e h = cc
none_first false o e h = (refl, h)

-- What the three tests of an entry leave.
entry_facts :
    (a : Bool) (lo hi e : ℕ)
    → (not a || not (nat_eq lo e) || ltb hi lo) ≡ false
    → (lo ≡ e) × (lo ≤ hi)
entry_facts a lo hi e h = ground arith

span_none : (p e e' : ℕ) → e ≡ e' → ◌≡◌ {A = ℕ} 0 (if leb e p && ltb p e' then 1 else 0)
span_none p e e' same = ground (arith, same)

one_more :
    (p lo hi e e' n : ℕ)
    → lo ≡ e
    → lo ≤ hi
    → hi + 1 ≤ e'
    → n ≡ (if leb (hi + 1) p && ltb p e' then 1 else 0)
    → (if leb lo p && leb p hi then 1 else 0) + n ≡ (if leb e p && ltb p e' then 1 else 0)
one_more p lo hi e e' n starts ends le counted = ground (arith, starts, ends, le, counted)

within_hundred :
    (p : ℕ) → ◌≡◌ {A = ℕ} (if leb 0 p && ltb p 101 then 1 else 0) (if leb p 100 then 1 else 0)
within_hundred p = ground arith

one_or_none : (p : ℕ) → ltb 0 (if leb p 100 then 1 else 0) ≡ leb p 100
one_or_none p = ground arith

passed :
    (q : Bool) (bs cs : List Band)
    → (if q then none else some bs) ≡ some cs
    → (q ≡ false) × (bs ≡ cs)
passed true bs cs h = cc
passed false bs cs h = (refl, some_inj h)

both_tests : (n e : ℕ) → (not (nat_eq n 3) || not (nat_eq e 101)) ≡ false → (n ≡ 3) × (e ≡ 101)
both_tests n e h = ground arith

next_lo-covers :
    (p e e' : ℕ) (bs : List Band) (ns : List String)
    → length bs ≡ length ns
    → next_lo e bs ns ≡ some e'
    → (e ≤ e') × (count_where (contains p) bs ≡ (if leb e p && ltb p e' then 1 else 0))
unfolding next_lo count_where
next_lo-covers p e e' [] ns l h =
    let same : e ≡ e' = some_inj h in (omega (arith, same), span_none p e e' same)
next_lo-covers p e e' (b ∷ bs) [] l h = ground arith
next_lo-covers p e e' (b ∷ bs) (n ∷ ns) l h =
    let (ok, rest) =
      none_first (not (b.name == n) || not (nat_eq b.lo e) || ltb b.hi b.lo)
        (next_lo (b.hi + 1) bs ns) e' h in
    let (starts, ends) = entry_facts (b.name == n) b.lo b.hi e ok in
    let (le, counted) = next_lo-covers p (b.hi + 1) e' bs ns (omega (arith, l)) rest in
    (
      omega (arith, starts, ends, le),
      one_more p b.lo b.hi e e' (count_where (contains p) bs) starts ends le counted,
    )

is_some-band : (p : ℕ) (bs : List Band) → is_some (band p bs) ≡ ltb 0 (count_where (contains p) bs)
unfolding band count_where
is_some-band p [] = ground arith
is_some-band p (b ∷ bs) = ground (arith, is_some-band p bs)

accept_facts :
    (o : Option ℕ) (bs cs : List Band)
    → accept o bs ≡ some cs
    → (o ≡ some 101) × (length bs ≡ 3) × (bs ≡ cs)
unfolding accept
accept_facts none bs cs h = cc
accept_facts (some e) bs cs h =
    let (ok, same) = passed (not (nat_eq (length bs) 3) || not (nat_eq e 101)) bs cs h in
    let (many, last) = both_tests (length bs) e ok in (ap some last, many, same)

-- Bands that are accepted cover 0 to 100 exactly: every percentage of at most 100 lies in one band and in no
-- other, so it has a name, and a greater one lies in none.
pub bands_cover :
    (value accepted : List Band) (percent : ℕ)
    → bands value ≡ some accepted
    → (count_where (contains percent) accepted ≡ (if leb percent 100 then 1 else 0))
      × (is_some (band percent accepted) ≡ leb percent 100)
unfolding bands
bands_cover value accepted percent h =
    let (ended, many, same) = accept_facts (next_lo 0 value band_names) value accepted h in
    let (le, counted) = next_lo-covers percent 0 101 value band_names many ended in
    let once : count_where (contains percent) accepted ≡ (if leb percent 100 then 1 else 0) =
      ap (count_where (contains percent)) (sym same) ∙ counted ∙ within_hundred percent in
    (once, is_some-band percent accepted ∙ ap (ltb 0) once ∙ one_or_none percent)
