-- ===== src/Updater/Recoverable/Removable.antt =====
-- What the removal of the files of a role needs, and which files have it.
use flist_walker.Prelude.{◌≡◌, refl, true, Option, none, some}
use flist_walker.Text.{Text}
use flist_walker.Text.Affix.{text_eq_refl}
use flist_walker.Updater.Disk.{Node, absent, RoleFiles}
use flist_walker.Updater.Cleanup.{is_optional_hash}
use flist_walker.Updater.Recoverable.{
  IsLeftover, gone, kept, IsOld, as_before, IsPlaced, placed, tidied, node_of,
}

-- What the files of a role need for their removal.
pub record CanGo (P : Option Text → Text → RoleFiles → Type 0) : Type 0 where
  pub prepared_hash :
      (old : Option Text) (new : Text) (f : RoleFiles)
      → P old new f
      → is_optional_hash (some new) f.prepared ≡ true
  pub backup_hash :
      (old : Option Text) (new : Text) (f : RoleFiles)
      → P old new f
      → is_optional_hash old f.backup ≡ true
  pub failed_hash :
      (old : Option Text) (new : Text) (f : RoleFiles)
      → P old new f
      → is_optional_hash (some new) f.failed ≡ true
  pub no_prepared :
      (old : Option Text) (new : Text) (f : RoleFiles)
      → P old new f
      → P old new (record f { prepared = absent })
  pub no_backup :
      (old : Option Text) (new : Text) (f : RoleFiles)
      → P old new f
      → P old new (record f { backup = absent })
  pub no_failed :
      (old : Option Text) (new : Text) (f : RoleFiles)
      → P old new f
      → P old new (record f { failed = absent })

leftover_hash : (new : Text) {q : Node} → IsLeftover new q → is_optional_hash (some new) q ≡ true
leftover_hash new gone = refl
leftover_hash new kept = text_eq_refl new

optional_old_hash : (old : Option Text) → is_optional_hash old (node_of old) ≡ true
optional_old_hash none = refl
optional_old_hash (some h) = text_eq_refl h

no_optional_hash : (old : Option Text) → is_optional_hash old absent ≡ true
no_optional_hash none = refl
no_optional_hash (some h) = refl

module _ (old : Option Text) (new : Text) where
  prepared_old : (f : RoleFiles) → IsOld old new f → is_optional_hash (some new) f.prepared ≡ true
  prepared_old _ (as_before l) = leftover_hash new l

  backup_old : (f : RoleFiles) → IsOld old new f → is_optional_hash old f.backup ≡ true
  backup_old _ (as_before l) = no_optional_hash old

  failed_old : (f : RoleFiles) → IsOld old new f → is_optional_hash (some new) f.failed ≡ true
  failed_old _ (as_before l) = refl

  no_prepared_old :
      (f : RoleFiles) → IsOld old new f → IsOld old new (record f { prepared = absent })
  no_prepared_old _ (as_before l) = as_before gone

  no_backup_old : (f : RoleFiles) → IsOld old new f → IsOld old new (record f { backup = absent })
  no_backup_old _ (as_before l) = as_before l

  no_failed_old : (f : RoleFiles) → IsOld old new f → IsOld old new (record f { failed = absent })
  no_failed_old _ (as_before l) = as_before l

pub CanGo-IsOld : CanGo IsOld
CanGo-IsOld = record {
  prepared_hash = prepared_old;
  backup_hash = backup_old;
  failed_hash = failed_old;
  no_prepared = no_prepared_old;
  no_backup = no_backup_old;
  no_failed = no_failed_old;
}

module _ (old : Option Text) (new : Text) where
  prepared_placed :
      (f : RoleFiles) → IsPlaced old new f → is_optional_hash (some new) f.prepared ≡ true
  prepared_placed _ (placed l) = leftover_hash new l
  prepared_placed _ (tidied l) = leftover_hash new l

  backup_placed : (f : RoleFiles) → IsPlaced old new f → is_optional_hash old f.backup ≡ true
  backup_placed _ (placed l) = optional_old_hash old
  backup_placed _ (tidied l) = no_optional_hash old

  failed_placed : (f : RoleFiles) → IsPlaced old new f → is_optional_hash (some new) f.failed ≡ true
  failed_placed _ (placed l) = refl
  failed_placed _ (tidied l) = refl

  no_prepared-IsPlaced :
      (f : RoleFiles) → IsPlaced old new f → IsPlaced old new (record f { prepared = absent })
  no_prepared-IsPlaced _ (placed l) = placed gone
  no_prepared-IsPlaced _ (tidied l) = tidied gone

  no_backup-IsPlaced :
      (f : RoleFiles) → IsPlaced old new f → IsPlaced old new (record f { backup = absent })
  no_backup-IsPlaced _ (placed l) = tidied l
  no_backup-IsPlaced _ (tidied l) = tidied l

  no_failed-IsPlaced :
      (f : RoleFiles) → IsPlaced old new f → IsPlaced old new (record f { failed = absent })
  no_failed-IsPlaced _ (placed l) = placed l
  no_failed-IsPlaced _ (tidied l) = tidied l

pub CanGo-IsPlaced : CanGo IsPlaced
CanGo-IsPlaced = record {
  prepared_hash = prepared_placed;
  backup_hash = backup_placed;
  failed_hash = failed_placed;
  no_prepared = no_prepared-IsPlaced;
  no_backup = no_backup-IsPlaced;
  no_failed = no_failed-IsPlaced;
}
