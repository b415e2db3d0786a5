-- ===== src/SkillFiles.antt =====
-- packages/runtime/src/merged-resource-loader.ts: a workspace's skills written out for pi to read, and
-- the loader that adds them to what pi finds. The directory is a map from the names of its entries to
-- the text of their SKILL.md, if they have one; a directory that is missing has no entries. The
-- calls of the file system are taken to succeed.
pub mod Mirror
pub mod Segments
pub mod Again
pub mod Merge
mod Tests
use Prim.Native.Char.{Char, code}
use Prim.Native.String
use akko.Prelude.{
  ℕ, String, Bool, true, false, ◌&&◌, ◌||◌, not, Option, none, some, List, [], ◌∷◌, ◌++◌, map,
  filter, leb, nat_eq, ltb, ◌==◌, if◌then◌else◌,
}
use akko.Prelude.JsMap
use akko.Prelude.JsMap.{JsMap}
use akko.Prelude.JsSet
use akko.Prelude.Text.{replace_each, join}
use akko.Prelude.Sorting.{sort_by}
use akko.Config.{StoredSkill}

pub record SourceInfo : Type 0 where
  pub path : String
  pub source : String
  pub scope : String
  pub origin : String

pub record MaterializedSkill : Type 0 where
  pub name : String
  pub description : String
  pub file_path : String
  pub base_dir : String
  pub source_info : SourceInfo
  pub disable_model_invocation : Bool

abbrev hidden_line : Bool → List String
hidden_line hidden = if hidden then "disable-model-invocation: true" ∷ [] else []

unfoldable pub to_skill_markdown : StoredSkill → String
unfolding replace_each join
to_skill_markdown skill =
    let fm = join "\n" (
      "---"
        ∷ String.◌++◌ "name: " skill.name
        ∷ String.◌++◌ "description: " (replace_each (nat_eq 10) " " skill.description)
        ∷ hidden_line skill.hidden_from_prompt
      ++ "---" ∷ "" ∷ []) in
    String.◌++◌ fm (String.◌++◌ skill.content "\n")

abbrev word : Bool → String
word b = if b then "true" else "false"

-- What `h.update` is given for one skill.
abbrev hashed_fields : StoredSkill → String
hashed_fields s = String.◌++◌ s.name (
    String.◌++◌ "\0" (
      String.◌++◌ s.description (
        String.◌++◌ "\0" (
          String.◌++◌ (word s.hidden_from_prompt)
            (String.◌++◌ "\0" (String.◌++◌ s.content "\0"))))))

abbrev append_all : List String → String
append_all [] = ""
append_all (s ∷ ss) = String.◌++◌ s (append_all ss)

-- Over the order of the locale and the hash, whose sixteen digits are the version.
unfoldable pub skills_version :
    (String → String → Bool) → (String → String) → List StoredSkill → String
unfolding sort_by
skills_version locale_leb hash skills =
    hash
      (append_all (map (λ s. hashed_fields s) (sort_by (λ a b. locale_leb a.name b.name) skills)))

-- `[a-zA-Z0-9._-]`
unfoldable pub is_allowed : ℕ → Bool
is_allowed c =
    leb b'a' c && leb c b'z'
    || leb b'A' c && leb c b'Z'
    || leb b'0' c && leb c b'9'
    || nat_eq c b'.'
    || nat_eq c b'_'
    || nat_eq c b'-'

-- `name.replace(/[^a-zA-Z0-9._-]/g, "-")`: a character of two UTF-16 units becomes two dashes.
unfoldable pub safe_name : String → String
safe_name String.[] = ""
safe_name (String.◌∷◌ c s) =
    let rest = safe_name s in
    if is_allowed (code c)
    then String.◌∷◌ c rest
    else if leb 65536 (code c)
    then String.◌∷◌ "-" (String.◌∷◌ "-" rest)
    else String.◌∷◌ "-" rest

abbrev pub starts_with_dot : String → Bool
starts_with_dot String.[] = false
starts_with_dot (String.◌∷◌ c s) = nat_eq (code c) b'.'

-- `!safe || safe.startsWith(".")`
abbrev pub is_skipped : String → Bool
is_skipped safe = (safe == "") || starts_with_dot safe

abbrev pub Directory : Type 0
Directory = JsMap (Option String)

-- What is read of the SKILL.md of an entry, if it is there.
abbrev pub text_in : Option (Option String) → Option String
text_in none = none
text_in (some text) = text

unfoldable pub read_skill : Directory → String → Option String
unfolding JsMap.get
read_skill files safe = text_in (JsMap.get files safe)

-- `current !== desired`
abbrev differs : Option String → String → Bool
differs none desired = true
differs (some current) desired = not (current == desired)

-- `join(a, b)` of a directory and a segment
abbrev pub in_dir : String → String → String
in_dir dir entry = String.◌++◌ dir (String.◌++◌ "/" entry)

-- The directory, the entries written, in order, those to keep, and what is returned.
pub record Sync : Type 0 where
  pub files : Directory
  pub written : List String
  pub keep : List String
  pub out : List MaterializedSkill

abbrev pub describe : String → StoredSkill → String → MaterializedSkill
describe dir skill safe =
    let base_dir = in_dir dir safe in
    let file_path = in_dir base_dir "SKILL.md" in
    record {
      name = skill.name;
      description = skill.description;
      file_path = file_path;
      base_dir = base_dir;
      source_info = record {
        path = file_path;
        source = "workspace";
        scope = "workspace";
        origin = "db";
      };
      disable_model_invocation = skill.hidden_from_prompt;
    }

-- The file is written only if its text differs.
unfoldable pub write_skill : Sync → String → String → Sync
unfolding read_skill JsMap.put
write_skill s safe desired =
    if differs (read_skill s.files safe) desired
    then record s {
      files = JsMap.put s.files safe (some desired);
      written = s.written ++ safe ∷ [];
    }
    else s

abbrev pub keep_skill : String → Sync → StoredSkill → String → Sync
keep_skill dir s skill safe = record s {
  keep = JsSet.add s.keep safe;
  out = s.out ++ describe dir skill safe ∷ [];
}

-- The body of the loop over the skills.
unfoldable pub sync_skill : String → Sync → StoredSkill → Sync
unfolding write_skill safe_name to_skill_markdown JsSet.add
sync_skill dir s skill =
    let safe = safe_name skill.name in
    if is_skipped safe
    then s
    else keep_skill dir (write_skill s safe (to_skill_markdown skill)) skill safe

unfoldable pub sync_skills : String → Sync → List StoredSkill → Sync
unfolding sync_skill
sync_skills dir s [] = s
sync_skills dir s (skill ∷ skills) = sync_skills dir (sync_skill dir s skill) skills

-- The entries that have no row are removed.
unfoldable pub remove_stale : Directory → List String → Directory
unfolding JsSet.contains
remove_stale [] keep = []
remove_stale ((entry, text) ∷ files) keep =
    let rest = remove_stale files keep in
    if JsSet.contains keep entry then (entry, text) ∷ rest else rest

unfoldable pub materialize_skills : String → Directory → List StoredSkill → Sync
unfolding sync_skills remove_stale
materialize_skills dir files skills =
    let begun : Sync = record { files = files; written = []; keep = []; out = [] } in
    let s = sync_skills dir begun skills in record s { files = remove_stale s.files s.keep }

-- What the proxy of the loader makes of `getSkills`: `base` are the names of pi's own skills, a name
-- that is missing or empty is left out of the set.
abbrev pub names_of : List (Option String) → List String → List String
names_of [] names = names
names_of (none ∷ base) names = names_of base names
names_of (some name ∷ base) names =
    let rest = names_of base (JsSet.add names name) in
    let same = names_of base names in if name == "" then same else rest

-- A skill of the merged list: one that pi found, by its name, or one of the workspace's.
pub data Merged : Type 0 where
  of_disk : Option String → Merged
  of_workspace : MaterializedSkill → Merged

unfoldable pub get_skills : List (Option String) → List MaterializedSkill → List Merged
unfolding JsSet.contains JsSet.add
get_skills base workspace =
    let extra = filter (λ s. not (JsSet.contains (names_of base []) s.name)) workspace in
    map of_disk base ++ map of_workspace extra

unfoldable pub workspace_skills_dir : String → String
workspace_skills_dir cwd = in_dir (in_dir cwd ".akko") "skills"
