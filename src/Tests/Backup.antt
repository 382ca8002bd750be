-- ===== src/Tests/Backup.antt =====
-- A restart, and a backup that is brought back, of the small system of directories.
use student_management_syste.Prelude.{◌≡◌, refl, true, codes}
use student_management_syste.Snapshot.Shape.{init-IsShaped}
use student_management_syste.System.{Os}
use student_management_syste.Layout.{is_admin}
use student_management_syste.Memory.{short_at}
use student_management_syste.Backup.{start, stop, backup_system, recovery_system}
use student_management_syste.Backup.Restart.{start-stop, recovery_system-backup_system}
use student_management_syste.Tests.Path.{tree}

start-stop_example : start (stop tree) ≡ record tree { disk = stop tree }
start-stop_example = start-stop tree refl init-IsShaped tt

-- The backup is made, and then brought back.
saved : Os
saved = (backup_system 0 (codes "monday") tree).1

recovery_system-backup_system_example :
    ((backup_system 0 (codes "monday") tree).0 ≡ true)
    × ((recovery_system 0 (codes "monday") saved).0 ≡ true)
    × ((recovery_system 0 (codes "monday") saved).1.image ≡ tree.image)
    × ((recovery_system 0 (codes "monday") saved).1.disk.system_file ≡ tree.image)
unfolding saved backup_system is_admin short_at
recovery_system-backup_system_example =
    recovery_system-backup_system 0 0 (codes "monday") tree saved refl refl refl refl refl
