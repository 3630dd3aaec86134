-- ===== src/Backup/Tests.antt =====
-- Three backups, of which the newest stays.
use retro_bridge.Prelude.{ℕ, ◌*◌, ◌≡◌, refl, List, [], ◌∷◌, codes}
use retro_bridge.Backup.{Backup, day, prune_backups}
use retro_bridge.Backup.Kept.{IsPruned, prune_backups-IsPruned}

abbrev backup : ℕ → Backup
backup n = record { name = codes "retrobridge_a.db.gz"; modified = n * day }

abbrev backups : List Backup
backups =
    backup 3 ∷ record { name = codes "retrobridge.conf"; modified = 0 } ∷ backup 40 ∷ backup 39 ∷ []

newest_kept : (prune_backups (41 * day) 30 1 backups).kept ≡ backup 40 ∷ []
unfolding prune_backups
newest_kept = refl

prune_backups-IsPruned_example :
    IsPruned (41 * day) 30 1 backups (prune_backups (41 * day) 30 1 backups)
prune_backups-IsPruned_example = prune_backups-IsPruned (41 * day) 30 1 backups
