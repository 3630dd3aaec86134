-- ===== src/Backup.antt =====
-- Which backups are removed: `prune_backups` of retrobridge/backup.py. A file of the directory is its
-- name and its time.
pub mod Order
pub mod Kept
mod Tests
use mathlib.Core.List.{reverse}
use retro_bridge.Prelude.{
  ℕ, ◌+◌, ◌*◌, Bool, true, false, not, List, [], ◌∷◌, ◌++◌, ltb, if◌then◌else◌, Text, length, take,
  drop, second, ◌&&◌, ◌||◌, codes, starts_with,
}
use retro_bridge.Model.{filter}

pub record Backup : Type 0 where
  pub name : Text
  pub modified : ℕ

abbrev ends_with : Text → Text → Bool
ends_with p s = starts_with (reverse p) (reverse s)

-- `BACKUP_FILENAME_PATTERN.match(name)`, of a name without newlines: the name begins with the prefix,
-- and what stands behind it ends with `.db` or `.db.gz`.
abbrev pub is_backup_name : Text → Bool
is_backup_name name =
    starts_with (codes "retrobridge_") name
    && (ends_with (codes ".db") (drop 12 name) || ends_with (codes ".db.gz") (drop 12 name))

abbrev pub is_backup : Backup → Bool
is_backup b = is_backup_name b.name

abbrev pub insert_newest : Backup → List Backup → List Backup
insert_newest b [] = b ∷ []
insert_newest b (c ∷ backups) =
    let rest = insert_newest b backups in
    if ltb b.modified c.modified then c ∷ rest else b ∷ c ∷ backups

-- `backups.sort(key=..., reverse=True)`, which keeps the order of equal times.
abbrev pub newest_first : List Backup → List Backup
newest_first [] = []
newest_first (b ∷ backups) = insert_newest b (newest_first backups)

abbrev pub day : ℕ
day = 86400 * second

-- `mtime < now - retention_days * 86400`
abbrev pub is_old : ℕ → ℕ → Backup → Bool
is_old now days b = ltb (b.modified + days * day) now

-- The backups that are left, and those that were removed, in the order of the removal.
pub record Pruned : Type 0 where
  pub kept : List Backup
  pub removed : List Backup

abbrev pub by_age : ℕ → ℕ → List Backup → Pruned
by_age now days backups =
    if ltb 0 days
    then record {
      kept = filter (λ b. not (is_old now days b)) backups;
      removed = filter (is_old now days) backups;
    }
    else record { kept = backups; removed = [] }

abbrev pub by_count : ℕ → Pruned → Pruned
by_count count p =
    if ltb 0 count
    then if ltb count (length p.kept)
      then record { kept = take count p.kept; removed = p.removed ++ drop count p.kept }
      else p
    else p

-- `prune_backups` on the files of the directory, of which one that is not there has none.
unfoldable pub prune_backups : ℕ → ℕ → ℕ → List Backup → Pruned
prune_backups now retention_days retention_count files =
    by_count retention_count (by_age now retention_days (newest_first (filter is_backup files)))
