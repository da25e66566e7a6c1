-- ===== src/Updater/Disk.antt =====
-- rust/src/updater/transaction.rs: the files of a transaction, as on Linux. A file is its SHA-256,
-- since the code copies, renames, links, removes and hashes files, and looks into none of them.
use flist_walker.Prelude.{Bool, true, false, Option, none, some}
use flist_walker.Text.{Text, text_eq}
use flist_walker.Updater.Exec.{Exec, io, gets, ensure, ◌>>=◌, ◌>>◌}

-- What stands at a path: nothing, a regular file, or a directory or link.
pub data Node : Type 0 where
  absent : Node
  regular : Text → Node
  other : Node

-- The paths that the code derives from one role: target_path, new_path, backup_path, failed_path.
-- They differ in their last component, and all lie in the installation directory.
pub record RoleFiles : Type 0 where
  pub target : Node
  pub prepared : Node
  pub backup : Node
  pub failed : Node

-- `Path::try_exists`, which follows a link: a link to nothing is taken for a file that is there.
abbrev pub exists : Node → Bool
exists absent = false
exists (regular hash) = true
exists other = true

-- `validate_regular_file`
abbrev pub is_regular : Node → Bool
is_regular absent = false
is_regular (regular hash) = true
is_regular other = false

-- `validate_target_if_present`
abbrev pub is_regular_if_present : Node → Bool
is_regular_if_present absent = true
is_regular_if_present (regular hash) = true
is_regular_if_present other = false

abbrev pub digest : Node → Option Text
digest absent = none
digest (regular hash) = some hash
digest other = none

abbrev pub optional_digest : Node → Option (Option Text)
optional_digest absent = some none
optional_digest (regular hash) = some (some hash)
optional_digest other = none

abbrev pub hash_eq : Option Text → Option Text → Bool
hash_eq none none = true
hash_eq none (some h) = false
hash_eq (some g) none = false
hash_eq (some g) (some h) = text_eq g h

module _ {S : Type 0} where
  abbrev pub paired : {A : Type 0} → Option A → S → Option (A × S)
  paired none s = none
  paired (some a) s = some (a, s)

  unfoldable pub hash_if_regular : (S → Node) → Exec S (Option Text)
  hash_if_regular path = io (λ s. paired (optional_digest (path s)) s)

  unfoldable pub sha256_file : (S → Node) → Exec S Text
  sha256_file path = io (λ s. paired (digest (path s)) s)

  -- `sync_parent`, and the flush of a file that is written
  unfoldable pub sync : Exec S (Unit {0})
  sync = io (λ s. some (tt, s))

  -- A test of the state: metadata is read without a fault.
  abbrev pub check : (S → Bool) → Exec S (Unit {0})
  check test = gets test >>= ensure

abbrev made : RoleFiles → Option (Unit {0} × RoleFiles)
made f = some (tt, f)

-- The copy of `replace_existing`, by `copy_new_synced`, which makes a file that is not there.
abbrev copy_backup : RoleFiles → Option (Unit {0} × RoleFiles)
copy_backup f = elim (f.target) [
  | regular hash ↦ elim (f.backup) [ absent ↦ made (record f { backup = regular hash }) | _ ↦ none ]
  | _ ↦ none
]

abbrev rename_prepared : RoleFiles → Option (Unit {0} × RoleFiles)
rename_prepared f = elim (f.prepared) [
  | regular hash ↦ made (record f { target = regular hash; prepared = absent })
  | _ ↦ none
]

abbrev link_prepared : RoleFiles → Option (Unit {0} × RoleFiles)
link_prepared f = elim (f.prepared) [
  | regular hash ↦ elim (f.target) [ absent ↦ made (record f { target = regular hash }) | _ ↦ none ]
  | _ ↦ none
]

abbrev rename_backup : RoleFiles → Option (Unit {0} × RoleFiles)
rename_backup f = elim (f.backup) [
  | regular hash ↦ made (record f { target = regular hash; backup = absent })
  | _ ↦ none
]

-- `fs::remove_file`: the file has to be there, and no directory.
abbrev pub remove_if : Node → RoleFiles → Option (Unit {0} × RoleFiles)
remove_if absent f = none
remove_if (regular hash) f = made f
remove_if other f = none

unfoldable pub replace_existing : Exec RoleFiles (Unit {0})
replace_existing = do io copy_backup; sync; io rename_prepared; sync

unfoldable pub promote_absent_no_overwrite : Exec RoleFiles (Unit {0})
promote_absent_no_overwrite = do
  io link_prepared
  sync
  io (λ f. remove_if f.prepared (record f { prepared = absent }))
  sync

unfoldable pub restore_existing : Exec RoleFiles (Unit {0})
restore_existing = do io rename_backup; sync
