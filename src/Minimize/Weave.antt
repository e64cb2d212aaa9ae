-- ===== src/Minimize/Weave.antt =====
-- Replacing from the right gives what replacing from the left describes.
use mathlib.Core.List.{foldl, append_assoc}
use codex_privacy_hud.Prelude.{
  ℕ, zero, suc, ◌≤◌, ◌<◌, String, Bool, true, Option, none, some, List, [], ◌∷◌, ◌++◌,
  if◌then◌else◌, ltb, nat_eq_iff, take, drop, length, all, &&-true, ◌≡◌, refl, sym, ap, ◌∙◌, arith,
}
use codex_privacy_hud.Minimize.{
  Text, Found, same_text, slice, insert_by_start, sorted_by_start, replace_one, replace_next,
  minimize_text,
}

same_text_self : (t : Text) → same_text t t ≡ true
unfolding same_text
same_text_self [] = refl
same_text_self (x ∷ t) = ground (arith, nat_eq_iff x x, same_text_self t)

take-take-append : (n m : ℕ) (t w : Text) → n ≤ m → m ≤ length t → take n (take m t ++ w) ≡ take n t
take-take-append zero m t w h k = refl
take-take-append (suc n) zero t w h k = ground arith
take-take-append (suc n) (suc m) [] w h k = ground arith
take-take-append (suc n) (suc m) (x ∷ t) w h k =
    ap (λ l. x ∷ l) (take-take-append n m t w (omega (arith, h)) (omega (arith, k)))

drop-take-append : (m : ℕ) (t w : Text) → m ≤ length t → drop m (take m t ++ w) ≡ w
drop-take-append zero t w k = refl
drop-take-append (suc m) [] w k = ground arith
drop-take-append (suc m) (x ∷ t) w k = drop-take-append m t w (omega (arith, k))

take_split : (n m : ℕ) (t : Text) → n ≤ m → take n t ++ drop n (take m t) ≡ take m t
take_split zero m t h = refl
take_split (suc n) zero t h = ground arith
take_split (suc n) (suc m) [] h = refl
take_split (suc n) (suc m) (x ∷ t) h = ap (λ l. x ∷ l) (take_split n m t (omega (arith, h)))

take-drop : (n : ℕ) (t : Text) → take n t ++ drop n t ≡ t
take-drop zero t = refl
take-drop (suc n) [] = refl
take-drop (suc n) (x ∷ t) = ap (λ l. x ∷ l) (take-drop n t)

-- The findings stand in the order of the text from a position on, do not overlap, are not empty, lie within
-- the text, and each span holds its value.
abbrev pub Ordered : Text → ℕ → List Found → Type 0
Ordered t p [] = Unit
Ordered t p (f ∷ fs) =
    (p ≤ f.start)
    × (f.start < f.end)
    × (f.end ≤ length t)
    × (slice f.start f.end t ≡ f.value)
    × Ordered t f.end fs

abbrev later_than : ℕ → Found → Bool
later_than n g = ltb n g.start

insert_last :
    (f : Found) (gs : List Found)
    → all (later_than f.start) gs ≡ true
    → insert_by_start f gs ≡ gs ++ f ∷ []
unfolding insert_by_start all
insert_last f [] h = refl
insert_last f (g ∷ gs) h =
    let (first, others) = &&-true (later_than f.start g) (all (later_than f.start) gs) h in
    rw first (ap (λ l. g ∷ l) (insert_last f gs others))

all-insert :
    (q : Found → Bool) (f : Found) (gs : List Found)
    → q f ≡ true
    → all q gs ≡ true
    → all q (insert_by_start f gs) ≡ true
unfolding insert_by_start all
all-insert q f [] h k = ground arith
all-insert q f (g ∷ gs) h k = let rest = all-insert q f gs h in ground (arith, rest)

all-sorted :
    (q : Found → Bool) (gs : List Found) → all q gs ≡ true → all q (sorted_by_start gs) ≡ true
unfolding sorted_by_start all
all-sorted q [] h = refl
all-sorted q (g ∷ gs) h =
    let (first, others) = &&-true (q g) (all q gs) h in
    all-insert q g (sorted_by_start gs) first (all-sorted q gs others)

later_of_Ordered :
    (t : Text) (n p : ℕ) (fs : List Found) → n < p → Ordered t p fs → all (later_than n) fs ≡ true
unfolding all
later_of_Ordered t n p [] h o = refl
later_of_Ordered t n p (f ∷ fs) h (from, proper, inside, holds, later) =
    let rest = later_of_Ordered t n f.end fs (omega (arith, h, from, proper)) later in
    let here : ltb n f.start ≡ true = ground (arith, h, from) in rw (here, rest) refl

foldl-snoc {ℓ κ} :
    {A : Type ℓ} {B : Type κ} (g : B → A → B) (b : B) (xs : List A) (x : A)
    → foldl g b (xs ++ x ∷ []) ≡ g (foldl g b xs) x
foldl-snoc g b [] x = refl
foldl-snoc g b (y ∷ xs) x = foldl-snoc g (g b y) xs x

module _ (pseudonym : String → Text → Text) where
  -- The text with its findings replaced, read from the left.
  pub weave : Text → ℕ → List Found → Text
  weave t p [] = drop p t
  weave t p (f ∷ fs) = slice p f.start t ++ (pseudonym f.data_type f.value ++ weave t f.end fs)

  from_right : Text → List Found → Option Text
  from_right t [] = some t
  from_right t (f ∷ fs) = replace_next pseudonym (from_right t fs) f

  from_right-weave :
      (t : Text) (p : ℕ) (fs : List Found)
      → Ordered t p fs
      → from_right t fs ≡ some (take p t ++ weave t p fs)
  unfolding from_right weave replace_next replace_one
  from_right-weave t p [] o = ap some (sym (take-drop p t))
  from_right-weave t p (f ∷ fs) (from, proper, inside, holds, later) =
      let w = weave t f.end fs in
      let mid = pseudonym f.data_type f.value in
      let out : Text = take f.end t ++ w in
      let hit : same_text (slice f.start f.end out) f.value ≡ true =
        ap (λ s. same_text (drop f.start s) f.value)
          (take-take-append f.end f.end t w (omega arith) inside)
        ∙ ap (λ s. same_text s f.value) holds
        ∙ same_text_self f.value in
      ap (λ o. replace_next pseudonym o f) (from_right-weave t f.end fs later)
      ∙ ap (λ b. if b then some (take f.start out ++ (mid ++ drop f.end out)) else none) hit
      ∙ ap (λ l. some (l ++ (mid ++ drop f.end out)))
          (take-take-append f.start f.end t w (omega (arith, proper)) inside)
      ∙ ap (λ l. some (take f.start t ++ (mid ++ l))) (drop-take-append f.end t w inside)
      ∙ ap (λ l. some (l ++ (mid ++ w))) (sym (take_split p f.start t from))
      ∙ ap some (append_assoc (take p t) (drop p (take f.start t)) (mid ++ w))

  foldl-from_right :
      (t : Text) (p : ℕ) (fs : List Found)
      → Ordered t p fs
      → foldl (replace_next pseudonym) (some t) (sorted_by_start fs) ≡ from_right t fs
  unfolding sorted_by_start from_right
  foldl-from_right t p [] o = refl
  foldl-from_right t p (f ∷ fs) (from, proper, inside, holds, later) =
      ap (foldl (replace_next pseudonym) (some t)) (
        insert_last f (sorted_by_start fs)
          (all-sorted (later_than f.start) fs (later_of_Ordered t f.start f.end fs proper later)))
      ∙ foldl-snoc (replace_next pseudonym) (some t) (sorted_by_start fs) f
      ∙ ap (λ o. replace_next pseudonym o f) (foldl-from_right t f.end fs later)

  -- For findings in the order of the text that do not overlap, are not empty, lie within the text and hold their
  -- values, the loop over the sorted findings returns the text in which each span, and nothing else, is
  -- replaced by its pseudonym.
  pub minimize_text-weave :
      (t : Text) (fs : List Found)
      → Ordered t 0 fs
      → minimize_text pseudonym t fs ≡ some (weave t 0 fs)
  unfolding minimize_text
  minimize_text-weave t fs o = foldl-from_right t 0 fs o ∙ from_right-weave t 0 fs o
