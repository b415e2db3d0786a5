-- ===== src/SkillFiles/Mirror.antt =====
-- What the directory of packages/runtime/src/merged-resource-loader.ts holds after a sync.
use akko.Prelude.{
  ◌≡◌, refl, ◌∙◌, String, Bool, ◌||◌, Option, none, some, or_else, is_some, List, [], ◌∷◌, arith,
  ◌==◌, eq_iff, if◌then◌else◌,
}
use akko.Prelude.JsMap
use akko.Prelude.JsMap.{JsMap}
use akko.Prelude.JsSet
use mathlib.Core.Option
use akko.Config.{StoredSkill}
use akko.SkillFiles.{
  Directory, Sync, to_skill_markdown, safe_name, is_skipped, read_skill, write_skill, sync_skill,
  sync_skills, remove_stale, materialize_skills,
}

abbrev pub wanted_of : StoredSkill → String → Option String
wanted_of skill entry =
    if is_skipped (safe_name skill.name)
    then none
    else if safe_name skill.name == entry
    then some (to_skill_markdown skill)
    else none

-- The text that the rows ask for in an entry: that of the last skill whose name is made safe to it.
unfoldable pub wanted : List StoredSkill → String → Option String
wanted [] entry = none
wanted (skill ∷ skills) entry = or_else (wanted skills entry) (wanted_of skill entry)

write_skill-get :
    (s : Sync) (safe desired entry : String)
    → JsMap.get (write_skill s safe desired).files entry
      ≡ (if safe == entry then some (some desired) else JsMap.get s.files entry)
unfolding write_skill read_skill
write_skill-get s safe desired entry = go (JsMap.get s.files safe) refl
  where
    go :
        (o : Option (Option String))
        → JsMap.get s.files safe ≡ o
        → JsMap.get (write_skill s safe desired).files entry
          ≡ (if safe == entry then some (some desired) else JsMap.get s.files entry)
    go none e = ground (arith, JsMap.get-put s.files safe entry (some desired), eq_iff safe entry)
    go (some none) e =
        ground (arith, JsMap.get-put s.files safe entry (some desired), eq_iff safe entry)
    go (some (some current)) e = ground (
      arith,
      JsMap.get-put s.files safe entry (some desired),
      eq_iff safe entry,
      eq_iff current desired,
    )

-- `write_skill` keeps everything but the files and what was written.
write_skill-keep : (s : Sync) (safe desired : String) → (write_skill s safe desired).keep ≡ s.keep
unfolding write_skill
write_skill-keep s safe desired = ground arith

sync_skill-get :
    (dir : String) (s : Sync) (skill : StoredSkill) (entry : String)
    → JsMap.get (sync_skill dir s skill).files entry
      ≡ or_else (Option.map some (wanted_of skill entry)) (JsMap.get s.files entry)
unfolding sync_skill
sync_skill-get dir s skill entry =
    ground (arith, write_skill-get s (safe_name skill.name) (to_skill_markdown skill) entry)

sync_skill-keep :
    (dir : String) (s : Sync) (skill : StoredSkill) (entry : String)
    → JsSet.contains (sync_skill dir s skill).keep entry
      ≡ (JsSet.contains s.keep entry || is_some (wanted_of skill entry))
unfolding sync_skill
sync_skill-keep dir s skill entry = ground (
  arith,
  write_skill-keep s (safe_name skill.name) (to_skill_markdown skill),
  JsSet.contains-add s.keep (safe_name skill.name) entry,
)

is_some-or_else {ℓ} :
    {A : Type ℓ} (o p : Option A) → is_some (or_else o p) ≡ (is_some o || is_some p)
is_some-or_else none p = refl
is_some-or_else (some a) p = refl

or_else-map {ℓ} :
    {A : Type ℓ} (o p : Option A) (q : Option (Option A))
    → or_else (Option.map some (or_else o p)) q
      ≡ or_else (Option.map some o) (or_else (Option.map some p) q)
or_else-map none p q = refl
or_else-map (some a) p q = refl

pub sync_skills-get :
    (dir : String) (s : Sync) (skills : List StoredSkill) (entry : String)
    → JsMap.get (sync_skills dir s skills).files entry
      ≡ or_else (Option.map some (wanted skills entry)) (JsMap.get s.files entry)
unfolding sync_skills wanted
sync_skills-get dir s [] entry = refl
sync_skills-get dir s (skill ∷ skills) entry = cc (
  sync_skills-get dir (sync_skill dir s skill) skills entry,
  sync_skill-get dir s skill entry,
  or_else-map (wanted skills entry) (wanted_of skill entry) (JsMap.get s.files entry),
)

pub sync_skills-keep :
    (dir : String) (s : Sync) (skills : List StoredSkill) (entry : String)
    → JsSet.contains (sync_skills dir s skills).keep entry
      ≡ (JsSet.contains s.keep entry || is_some (wanted skills entry))
unfolding sync_skills wanted
sync_skills-keep dir s [] entry = ground arith
sync_skills-keep dir s (skill ∷ skills) entry = ground (
  arith,
  sync_skills-keep dir (sync_skill dir s skill) skills entry,
  sync_skill-keep dir s skill entry,
  is_some-or_else (wanted skills entry) (wanted_of skill entry),
)

remove_stale-get :
    (files : Directory) (keep : List String) (entry : String)
    → JsMap.get (remove_stale files keep) entry
      ≡ (if JsSet.contains keep entry then JsMap.get files entry else none)
unfolding remove_stale JsMap.get
remove_stale-get [] keep entry = ground arith
remove_stale-get ((e, text) ∷ files) keep entry =
    ground (arith, remove_stale-get files keep entry, eq_iff e entry)

-- After a sync, whatever the directory held before, its entries are exactly those that the rows ask
-- for, each with the text of the last row whose name is made safe to the entry.
pub materialize_skills_mirrors :
    (dir : String) (files : Directory) (skills : List StoredSkill) (entry : String)
    → JsMap.get (materialize_skills dir files skills).files entry
      ≡ Option.map some (wanted skills entry)
unfolding materialize_skills JsSet.contains
materialize_skills_mirrors dir files skills entry =
    let begun : Sync = record { files = files; written = []; keep = []; out = [] } in
    let s = sync_skills dir begun skills in
    remove_stale-get s.files s.keep entry
    ∙ cases (wanted skills entry) (sync_skills-keep dir begun skills entry)
        (sync_skills-get dir begun skills entry)
  where
    cases :
        {k : Bool} {got : Option (Option String)} (o : Option String)
        → k ≡ is_some o
        → got ≡ or_else (Option.map some o) (JsMap.get files entry)
        → (if k then got else none) ≡ Option.map some o
    cases none a b = ground arith
    cases (some text) a b = ground arith
