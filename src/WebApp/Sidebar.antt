-- ===== src/WebApp/Sidebar.antt =====
-- The logic of the components in packages/web/src/lib/components: the renaming of a session in
-- SessionList.svelte, the status and the items that JazzSessionList.svelte gives it, the field of
-- Composer.svelte, and the ranking in SkillsPanel.svelte.
use akko.Prelude.{
  ℕ, ◌≡◌, ◌≢◌, refl, ap, sym, subst, ne_of_test, ◌∙◌, String, Bool, true, false, Option, none, some,
  or_default, List, [], ◌∷◌, map, find, leb, ◌==◌, arith, if◌then◌else◌, truthy, Bool-cases, inl,
  inr,
}
use akko.Prelude.JsMap
use akko.Prelude.JsMap.{JsMap}
use akko.Prelude.Text.{trim}
use akko.Prelude.Sorting.{sort_by}
use akko.Skills.{SkillInfo, SkillCost, SkillImpact}

pub record SessionListItem : Type 0 where
  pub id : String
  pub title : Option String

-- A row that has been projected: its session and its title.
pub record SessionRow : Type 0 where
  pub session_id : String
  pub title : Option String

-- `rows.current ?? []`, and an empty title is none.
unfoldable pub items_of : Option (List SessionRow) → List SessionListItem
unfolding truthy
items_of rows = map (λ r. record { id = r.session_id; title = truthy r.title }) (or_default rows [])

pub data Status : Type 0 where
  live connecting error : Status

unfoldable pub status_of : Bool → Option (List SessionRow) → Status
status_of has_error rows =
    if has_error then error else elim rows [ none ↦ connecting | some rs ↦ live ]

-- The row that is being renamed, and the title as it stands in the field.
pub record Renaming : Type 0 where
  pub editing_id : Option String
  pub draft : String

unfoldable pub start_rename : SessionListItem → Renaming
start_rename s = record { editing_id = some s.id; draft = or_default s.title "" }

abbrev title_of : Option SessionListItem → String
title_of none = ""
title_of (some s) = or_default s.title ""

abbrev pub shown_title : List SessionListItem → String → String
shown_title sessions id = title_of (find (λ s. s.id == id) sessions)

-- What `commit` calls `onrename` with, if it does.
abbrev renamed : List SessionListItem → Option String → String → Option (String × String)
renamed sessions none title = none
renamed sessions (some id) title =
    if title == ""
    then none
    else if title == shown_title sessions id
    then none
    else some (id, title)

unfoldable pub commit : List SessionListItem → Renaming → Renaming × Option (String × String)
unfolding truthy trim
commit sessions r =
    (record r { editing_id = none }, renamed sessions (truthy r.editing_id) (trim r.draft))

pub data Key : Type 0 where
  enter escape : Key
  -- with the shift key held down
  shift_enter other_key : Key

-- `onkeydown` of the field, which does not look at the shift key.
unfoldable pub on_rename_key :
    List SessionListItem → Renaming → Key → Renaming × Option (String × String)
unfolding commit
on_rename_key sessions r enter = commit sessions r
on_rename_key sessions r shift_enter = commit sessions r
on_rename_key sessions r escape = (record r { editing_id = none }, none)
on_rename_key sessions r other_key = (r, none)

-- `send` of the composer: the text that is left in the field, and what is sent.
unfoldable pub send : String → String × Option String
unfolding trim
send field = if trim field == "" then (field, none) else ("", some (trim field))

unfoldable pub on_composer_key : String → Key → String × Option String
unfolding send
on_composer_key field enter = send field
on_composer_key field key = (field, none)

abbrev put_costs : JsMap ℕ → List SkillCost → JsMap ℕ
put_costs costs [] = costs
put_costs costs (c ∷ cs) = put_costs (JsMap.put costs c.name c.tokens) cs

abbrev costs_in : Option SkillImpact → List SkillCost
costs_in none = []
costs_in (some impact) = impact.per_skill

abbrev pub cost_of : Option SkillImpact → String → ℕ
cost_of impact name = or_default (JsMap.get (put_costs [] (costs_in impact)) name) 0

-- Largest first; the sort keeps the order of skills that cost the same.
unfoldable pub ranked : Option SkillImpact → List SkillInfo → List SkillInfo
unfolding sort_by JsMap.get JsMap.put
ranked impact skills = sort_by (λ a b. leb (cost_of impact b.name) (cost_of impact a.name)) skills

abbrev asks : String → String → Option (String × String)
asks id title = some (id, title)

-- What a rename that is asked for is.
abbrev IsRename : List SessionListItem → String → String → String → String → Type 0
IsRename sessions i d id title =
    (i ≡ id) × (title ≡ d) × (title ≢ "") × (title ≢ shown_title sessions id)

renamed-IsRename :
    (sessions : List SessionListItem) (i d id title : String)
    → renamed sessions (some i) d ≡ some (id, title)
    → IsRename sessions i d id title
renamed-IsRename sessions i d id title h = go (d == "") (d == shown_title sessions i) refl refl h
  where
    go :
        (a b : Bool)
        → (d == "") ≡ a
        → (d == shown_title sessions i) ≡ b
        → (if a then none else if b then none else asks i d) ≡ some (id, title)
        → IsRename sessions i d id title
    go true b e f k = absurd (cc k)
    go false true e f k = absurd (cc k)
    go false false e f k =
        let same_id : i ≡ id = ap (λ (o : Option (String × String)). (or_default o (i, d)).0) k in
        let same_title : d ≡ title =
          ap (λ (o : Option (String × String)). (or_default o (i, d)).1) k in
        (
          same_id,
          sym same_title,
          subst (λ t. t ≢ "") same_title (ne_of_test d "" e),
          subst (λ t. t ≢ shown_title sessions id) same_title
              (subst (λ j. d ≢ shown_title sessions j) same_id
                (ne_of_test d (shown_title sessions i) f)),
        )

-- A rename is asked for only of the row that was being edited, and only for a title that is neither
-- empty nor the one that the row shows; whatever comes of it, the editing is over.
pub commit_renames :
    (sessions : List SessionListItem) (r : Renaming) (id title : String)
    → (commit sessions r).1 ≡ some (id, title)
    → (r.editing_id ≡ some id)
      × (title ≡ trim r.draft)
      × (title ≢ "")
      × (title ≢ shown_title sessions id)
      × ((commit sessions r).0.editing_id ≡ none)
unfolding commit truthy
commit_renames sessions r id title h = go r.editing_id refl h
  where
    go :
        (o : Option String)
        → r.editing_id ≡ o
        → renamed sessions (truthy o) (trim r.draft) ≡ some (id, title)
        → (r.editing_id ≡ some id)
          × (title ≡ trim r.draft)
          × (title ≢ "")
          × (title ≢ shown_title sessions id)
          × ((commit sessions r).0.editing_id ≡ none)
    go none e k = absurd (cc k)
    go (some i) e k = elim (Bool-cases (i == "")) [
      | inl empty ↦ absurd (ground (arith, empty, k))
      | inr named ↦
          let done = renamed-IsRename sessions i (trim r.draft) id title (
            subst
              (λ b. renamed sessions (if b then none else some i) (trim r.draft) ≡ some (id, title))
              named k) in
          (e ∙ ap some done.0, done.1, done.2, done.3, refl)
    ]
