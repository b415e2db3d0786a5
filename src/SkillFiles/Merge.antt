-- ===== src/SkillFiles/Merge.antt =====
-- The merge of the two sources of skills in packages/runtime/src/merged-resource-loader.ts.
use akko.Prelude.{
  ◌≡◌, refl, ◌∙◌, String, Bool, false, not, Option, none, some, or_else, List, [], ◌∷◌, ◌++◌, map,
  filter, find, arith, ◌==◌, eq_iff,
}
use akko.Prelude.JsSet
use akko.SkillFiles.{MaterializedSkill, Merged, of_disk, of_workspace, names_of, get_skills}

abbrev pub is_named : String → Merged → Bool
is_named name (of_disk none) = false
is_named name (of_disk (some n)) = n == name
is_named name (of_workspace s) = s.name == name

find-append {ℓ} :
    {A : Type ℓ} (p : A → Bool) (xs ys : List A)
    → find p (xs ++ ys) ≡ or_else (find p xs) (find p ys)
find-append p [] ys = refl
find-append p (x ∷ xs) ys = ground (arith, find-append p xs ys)

-- Only a name that pi's skills have gets into the set.
names_of-contains :
    (base : List (Option String)) (names : List String) (name : String)
    → find (is_named name) (map of_disk base) ≡ none
    → JsSet.contains (names_of base names) name ≡ JsSet.contains names name
names_of-contains [] names name h = refl
names_of-contains (none ∷ base) names name h = names_of-contains base names name h
names_of-contains (some n ∷ base) names name h = ground (
  arith,
  names_of-contains base names name,
  names_of-contains base (JsSet.add names n) name,
  JsSet.contains-add names n name,
)

find-filter :
    (set : List String) (name : String) (workspace : List MaterializedSkill)
    → JsSet.contains set name ≡ false
    → find
        (is_named name)
        (map of_workspace (filter (λ s. not (JsSet.contains set s.name)) workspace))
      ≡ find (is_named name) (map of_workspace workspace)
find-filter set name [] h = refl
find-filter set name (s ∷ workspace) h =
    ground (arith, find-filter set name workspace h, eq_iff s.name name)

-- In the merged list, a name stands for pi's skill if pi has one of that name, and otherwise for the
-- workspace's.
pub get_skills_prefers_disk :
    (base : List (Option String)) (workspace : List MaterializedSkill) (name : String)
    → find (is_named name) (get_skills base workspace)
      ≡ or_else
          (find (is_named name) (map of_disk base))
          (find (is_named name) (map of_workspace workspace))
unfolding get_skills JsSet.contains
get_skills_prefers_disk base workspace name =
    find-append (is_named name) (map of_disk base) _
    ∙ go (find (is_named name) (map of_disk base)) refl
  where
    extra : List MaterializedSkill
    extra = filter (λ s. not (JsSet.contains (names_of base []) s.name)) workspace

    go :
        (o : Option Merged)
        → find (is_named name) (map of_disk base) ≡ o
        → or_else o (find (is_named name) (map of_workspace extra))
          ≡ or_else o (find (is_named name) (map of_workspace workspace))
    go (some m) e = refl
    go none e = find-filter (names_of base []) name workspace (names_of-contains base [] name e)
