-- ===== src/SkillFiles/Segments.antt =====
-- Where packages/runtime/src/merged-resource-loader.ts writes: in directories one level below its own.
use Prim.Native.Char.{code}
use akko.Prelude.{
  ℕ, nat_eq, leb, not, ◌≡◌, refl, ap, ◌∙◌, ◌≢◌, sym, String, Bool, true, false, ◌&&◌, ◌||◌, Option,
  none, some, or_else, subst, ◌⊎◌, is_some, List, [], ◌∷◌, arith, ◌==◌, eq_iff, Bool-cases, inl,
  inr, ne_of_test, All, All-append, All-weaken,
}
use akko.Prelude.JsMap
use akko.Prelude.JsSet
use mathlib.Core.Option
use akko.Config.{StoredSkill}
use akko.SkillFiles.{
  Directory, Sync, to_skill_markdown, is_allowed, safe_name, starts_with_dot, is_skipped,
  write_skill, keep_skill, sync_skill, sync_skills, materialize_skills, MaterializedSkill, describe,
  in_dir,
}
use akko.SkillFiles.Mirror.{wanted, wanted_of, sync_skills-keep, materialize_skills_mirrors}

-- The codes that no name of an entry may hold: the separators of paths, and what is no printable
-- character of ASCII.
abbrev pub is_special : ℕ → Bool
is_special c = nat_eq c b'/' || nat_eq c 92 || leb c 32 || leb 127 c

unfoldable pub is_plain : String → Bool
is_plain String.[] = true
is_plain (String.◌∷◌ c s) = not (is_special (code c)) && is_plain s

-- A name that stands for one entry of a directory, neither hidden nor the directory above.
abbrev pub IsSegment : String → Type 0
IsSegment s = (s ≢ "") × (starts_with_dot s ≡ false) × (is_plain s ≡ true)

allowed_plain : (c : ℕ) → is_allowed c ≡ true → is_special c ≡ false
unfolding is_allowed
allowed_plain c h = ground arith

dash_plain : is_special b'-' ≡ false
dash_plain = refl

safe_name-is_plain : (name : String) → is_plain (safe_name name) ≡ true
unfolding safe_name is_plain
safe_name-is_plain String.[] = refl
safe_name-is_plain (String.◌∷◌ c s) =
    ground (arith, safe_name-is_plain s, dash_plain, allowed_plain (code c))

safe_name-IsSegment :
    (name : String) → is_skipped (safe_name name) ≡ false → IsSegment (safe_name name)
safe_name-IsSegment name h = go (safe_name name) (safe_name-is_plain name) h
  where
    go : (safe : String) → is_plain safe ≡ true → is_skipped safe ≡ false → IsSegment safe
    go safe plain k = (
      ne_of_test safe "" (first (safe == "") (starts_with_dot safe) k),
      last (safe == "") (starts_with_dot safe) k,
      plain,
    )
      where
        first : (a b : Bool) → (a || b) ≡ false → a ≡ false
        first a b e = ground arith

        last : (a b : Bool) → (a || b) ≡ false → b ≡ false
        last a b e = ground arith

wanted-IsSegment :
    (skills : List StoredSkill) (entry text : String)
    → wanted skills entry ≡ some text
    → IsSegment entry
unfolding wanted
wanted-IsSegment [] entry text h = cc
wanted-IsSegment (skill ∷ skills) entry text h =
    go (wanted skills entry) (wanted-IsSegment skills entry)
      (Bool-cases (is_skipped (safe_name skill.name))) (Bool-cases (safe_name skill.name == entry))
      h
  where
    go :
        (o : Option String)
        → ((t : String) → o ≡ some t → IsSegment entry)
        → ((is_skipped (safe_name skill.name) ≡ true) ⊎ (is_skipped (safe_name skill.name) ≡ false))
        → (((safe_name skill.name == entry) ≡ true) ⊎ ((safe_name skill.name == entry) ≡ false))
        → or_else o (wanted_of skill entry) ≡ some text
        → IsSegment entry
    go (some t) rest a b k = rest t refl
    go none rest (inl skipped) b k = ground arith
    go none rest (inr kept) (inr other) k = ground arith
    go none rest (inr kept) (inl same) k =
        subst IsSegment ((eq_iff (safe_name skill.name) entry).0 same)
          (safe_name-IsSegment skill.name kept)

-- A returned skill stands in a directory that is kept.
abbrev IsKept : String → List String → MaterializedSkill → Type 0
IsKept dir keep m =
    (safe : String) × (JsSet.contains keep safe ≡ true)
    × (m.base_dir ≡ in_dir dir safe)
    × (m.file_path ≡ in_dir m.base_dir "SKILL.md")

IsKept-add :
    (dir : String) (keep : List String) (safe : String) (m : MaterializedSkill)
    → IsKept dir keep m
    → IsKept dir (JsSet.add keep safe) m
IsKept-add dir keep safe m h =
    (h.0, ground (arith, JsSet.contains-add keep safe h.0, h.1), h.2, h.3)

write_skill-keep :
    (s : Sync) (safe desired : String)
    → ((write_skill s safe desired).keep ≡ s.keep) × ((write_skill s safe desired).out ≡ s.out)
unfolding write_skill
write_skill-keep s safe desired = ground arith

keep_skill-IsKept :
    (dir : String) (s : Sync) (skill : StoredSkill) (safe : String)
    → All (IsKept dir s.keep) s.out
    → All (IsKept dir (keep_skill dir s skill safe).keep) (keep_skill dir s skill safe).out
keep_skill-IsKept dir s skill safe h =
    All-append (IsKept dir (JsSet.add s.keep safe)) s.out (describe dir skill safe ∷ [])
      (All-weaken s.out (λ m k. IsKept-add dir s.keep safe m k) h)
      ((safe, JsSet.contains-add_same s.keep safe, refl, refl), tt)

sync_skill-IsKept :
    (dir : String) (s : Sync) (skill : StoredSkill)
    → All (IsKept dir s.keep) s.out
    → All (IsKept dir (sync_skill dir s skill).keep) (sync_skill dir s skill).out
unfolding sync_skill
sync_skill-IsKept dir s skill h = elim (Bool-cases (is_skipped (safe_name skill.name))) [
  | inl skipped ↦ rw skipped h
  | inr kept ↦ rw kept (
      keep_skill-IsKept dir (write_skill s (safe_name skill.name) (to_skill_markdown skill)) skill
        (safe_name skill.name)
        (same (write_skill s (safe_name skill.name) (to_skill_markdown skill))
          (write_skill-keep s (safe_name skill.name) (to_skill_markdown skill))))
]
  where
    same : (w : Sync) → (w.keep ≡ s.keep) × (w.out ≡ s.out) → All (IsKept dir w.keep) w.out
    same w e =
        subst (All (IsKept dir w.keep)) (sym e.1)
          (subst (λ keep. All (IsKept dir keep) s.out) (sym e.0) h)

sync_skills-IsKept :
    (dir : String) (s : Sync) (skills : List StoredSkill)
    → All (IsKept dir s.keep) s.out
    → All (IsKept dir (sync_skills dir s skills).keep) (sync_skills dir s skills).out
unfolding sync_skills
sync_skills-IsKept dir s [] h = h
sync_skills-IsKept dir s (skill ∷ skills) h =
    sync_skills-IsKept dir (sync_skill dir s skill) skills (sync_skill-IsKept dir s skill h)

abbrev pub IsInPlace : String → Directory → MaterializedSkill → Type 0
IsInPlace dir files m =
    (safe : String) × IsSegment safe
    × (m.base_dir ≡ in_dir dir safe)
    × (m.file_path ≡ in_dir m.base_dir "SKILL.md")
    × ((text : String) × (JsMap.get files safe ≡ some (some text)))

-- Whatever the names of the rows are, every skill that a sync returns stands in a directory directly
-- below the given one, and its file is there: the name of the directory is not empty, does not begin
-- with a dot, and has printable characters of ASCII only, no space, slash or backslash among them.
pub materialize_skills-IsInPlace :
    (dir : String) (files : Directory) (skills : List StoredSkill)
    → let s = materialize_skills dir files skills in All (IsInPlace dir s.files) s.out
unfolding materialize_skills JsSet.contains
materialize_skills-IsInPlace dir files skills =
    let begun : Sync = record { files = files; written = []; keep = []; out = [] } in
    All-weaken (sync_skills dir begun skills).out
      (λ m k.
        go m k.0 (wanted skills k.0) refl (sym (sync_skills-keep dir begun skills k.0) ∙ k.1) k.2
          k.3)
      (sync_skills-IsKept dir begun skills tt)
  where
    go :
        (m : MaterializedSkill) (safe : String) (o : Option String)
        → wanted skills safe ≡ o
        → is_some (wanted skills safe) ≡ true
        → m.base_dir ≡ in_dir dir safe
        → m.file_path ≡ in_dir m.base_dir "SKILL.md"
        → IsInPlace dir (materialize_skills dir files skills).files m
    go m safe none e kept b f = absurd (cc (e, kept))
    go m safe (some text) e kept b f = (
      safe,
      wanted-IsSegment skills safe text e,
      b,
      f,
      (text, materialize_skills_mirrors dir files skills safe ∙ ap (Option.map some) e),
    )
