-- ===== src/Prelude/Sorting.antt =====
-- Texts in the order of their characters, which is the binary order of SQLite's `ORDER BY`, and a
-- stable sort by a test.
use Prim.Native.Char.{code}
use Prim.Native.String.{String}
use mathlib.Core.Path.{◌≡◌, refl, ◌∙◌}
use mathlib.Core.Logic.{inl, inr}
use mathlib.Core.Option.{some}
use mathlib.Core.Bool.{Bool, true, false}
use mathlib.Core.List.{List, [], ◌∷◌, map}
use native.Mathlib.Omega.{arith}
use akko.Prelude.Tests.{if◌then◌else◌, ltb, Bool-cases}
use akko.Prelude.Lists.{All, find, count, All-map, All-weaken}

unfoldable pub text_leb : String → String → Bool
text_leb String.[] t = true
text_leb (String.◌∷◌ c s) String.[] = false
text_leb (String.◌∷◌ c s) (String.◌∷◌ d t) =
    let rest = text_leb s t in
    if ltb (code c) (code d) then true else if ltb (code d) (code c) then false else rest

pub text_leb_refl : (s : String) → text_leb s s ≡ true
unfolding text_leb
text_leb_refl String.[] = refl
text_leb_refl (String.◌∷◌ c s) = ground (arith, text_leb_refl s)

pub text_leb_total : (s t : String) → text_leb s t ≡ false → text_leb t s ≡ true
unfolding text_leb
text_leb_total String.[] t h = cc
text_leb_total (String.◌∷◌ c s) String.[] h = refl
text_leb_total (String.◌∷◌ c s) (String.◌∷◌ d t) h = ground (arith, text_leb_total s t)

pub text_leb_trans :
    (s t u : String) → text_leb s t ≡ true → text_leb t u ≡ true → text_leb s u ≡ true
unfolding text_leb
text_leb_trans String.[] t u h k = refl
text_leb_trans (String.◌∷◌ c s) String.[] u h k = cc
text_leb_trans (String.◌∷◌ c s) (String.◌∷◌ d t) String.[] h k = cc
text_leb_trans (String.◌∷◌ c s) (String.◌∷◌ d t) (String.◌∷◌ e u) h k =
    ground (arith, text_leb_trans s t u)

module _ {ℓ} {A : Type ℓ} where
  unfoldable pub insert_by : (A → A → Bool) → A → List A → List A
  insert_by leq a [] = a ∷ []
  insert_by leq a (x ∷ xs) =
      let rest = insert_by leq a xs in if leq a x then a ∷ x ∷ xs else x ∷ rest

  unfoldable pub sort_by : (A → A → Bool) → List A → List A
  unfolding insert_by
  sort_by leq [] = []
  sort_by leq (x ∷ xs) = insert_by leq x (sort_by leq xs)

  -- Each element before all that come later.
  abbrev pub IsSorted : (A → A → Bool) → List A → Type ℓ
  IsSorted leq [] = Unit
  IsSorted leq (x ∷ xs) = All (λ y. leq x y ≡ true) xs × IsSorted leq xs

  pub insert_by-All {κ} :
      (P : A → Type κ) (leq : A → A → Bool) (a : A) (xs : List A)
      → P a
      → All P xs
      → All P (insert_by leq a xs)
  unfolding insert_by
  insert_by-All P leq a [] h k = (h, tt)
  insert_by-All P leq a (x ∷ xs) h k = elim (Bool-cases (leq a x)) [
    | inl holds ↦ rw holds (h, k)
    | inr fails ↦ rw fails (k.0, insert_by-All P leq a xs h k.1)
  ]

  pub sort_by-All {κ} :
      (P : A → Type κ) (leq : A → A → Bool) (xs : List A) → All P xs → All P (sort_by leq xs)
  unfolding sort_by
  sort_by-All P leq [] h = tt
  sort_by-All P leq (x ∷ xs) h =
      insert_by-All P leq x (sort_by leq xs) h.0 (sort_by-All P leq xs h.1)

  count-insert_by :
      (leq : A → A → Bool) (p : A → Bool) (a : A) (xs : List A)
      → count p (insert_by leq a xs) ≡ count p (a ∷ xs)
  unfolding insert_by
  count-insert_by leq p a [] = refl
  count-insert_by leq p a (x ∷ xs) = ground (arith, count-insert_by leq p a xs)

  pub count-sort_by :
      (leq : A → A → Bool) (p : A → Bool) (xs : List A) → count p (sort_by leq xs) ≡ count p xs
  unfolding sort_by
  count-sort_by leq p [] = refl
  count-sort_by leq p (x ∷ xs) =
      count-insert_by leq p x (sort_by leq xs) ∙ ground (arith, count-sort_by leq p xs)

  module _ (leq : A → A → Bool) (total : (a b : A) → leq a b ≡ false → leq b a ≡ true)
      (trans : (a b c : A) → leq a b ≡ true → leq b c ≡ true → leq a c ≡ true) where
    insert_by-IsSorted : (a : A) (xs : List A) → IsSorted leq xs → IsSorted leq (insert_by leq a xs)
    unfolding insert_by
    insert_by-IsSorted a [] h = (tt, tt)
    insert_by-IsSorted a (x ∷ xs) h = elim (Bool-cases (leq a x)) [
      | inl holds ↦ rw holds ((holds, All-weaken xs (λ y k. trans a x y holds k) h.0), h)
      | inr fails ↦ rw fails (
        insert_by-All (λ y. leq x y ≡ true) leq a xs (total a x fails) h.0,
        insert_by-IsSorted a xs h.1,
      )
    ]

    pub sort_by-IsSorted : (xs : List A) → IsSorted leq (sort_by leq xs)
    unfolding sort_by
    sort_by-IsSorted [] = tt
    sort_by-IsSorted (x ∷ xs) = insert_by-IsSorted x (sort_by leq xs) (sort_by-IsSorted xs)

  -- A stable sort leaves the first element that a test accepts, when the accepted are ties.
  module _ (leq : A → A → Bool) (p : A → Bool)
      (ties : (a b : A) → p a ≡ true → p b ≡ true → leq a b ≡ true) where
    find-insert_by :
        (a : A) (xs : List A) → find p (insert_by leq a xs) ≡ (if p a then some a else find p xs)
    unfolding insert_by
    find-insert_by a [] = refl
    find-insert_by a (x ∷ xs) = ground (arith, find-insert_by a xs, ties a x)

    pub find-sort_by : (xs : List A) → find p (sort_by leq xs) ≡ find p xs
    unfolding sort_by
    find-sort_by [] = refl
    find-sort_by (x ∷ xs) = find-insert_by x (sort_by leq xs) ∙ ground (arith, find-sort_by xs)

module _ {ℓ κ} {A : Type ℓ} {B : Type κ} where
  pub IsSorted-map :
      (leq : B → B → Bool) (f : A → B) (xs : List A)
      → IsSorted (λ a b. leq (f a) (f b)) xs
      → IsSorted leq (map f xs)
  IsSorted-map leq f [] h = tt
  IsSorted-map leq f (x ∷ xs) h =
      (All-map (λ y. leq (f x) y ≡ true) f xs h.0, IsSorted-map leq f xs h.1)
