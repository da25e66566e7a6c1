-- ===== src/Updater/World.antt =====
-- rust/src/updater/transaction.rs: the installation directory with the files of a transaction, and
-- how the marker is read and replaced.
use flist_walker.Prelude.{
  ℕ, zero, suc, Bool, true, false, ◌&&◌, Option, none, some, List, [], ◌∷◌, if◌then◌else◌,
}
use flist_walker.Text.{Text, text_eq}
use flist_walker.Updater.Exec.{
  read, Outcome, Fault, Exec, io, gets, ensure, fail, on_error, modify, ◌>>=◌, ◌>>◌,
}
use flist_walker.Updater.Disk.{Node, RoleFiles, sync}
use flist_walker.Updater.Marker.{
  TargetRole, role_eq, TransactionMarker, TargetRecord, TargetState, validate_marker,
}

-- A file that should hold a marker in JSON; what does not parse as one is unreadable.
pub data MarkerFile : Type 0 where
  missing : MarkerFile
  holds : TransactionMarker → MarkerFile
  unreadable : MarkerFile

-- `memory` is the variable `marker` of the running function; all else is on disk. `ack` is the
-- contents of the acknowledgement, and `lock` the transaction ID and the PID in the lock.
pub record World : Type 0 where
  pub memory : TransactionMarker
  pub marker : MarkerFile
  pub marker_temp : MarkerFile
  pub disk : TargetRole → RoleFiles
  pub ack : Option (Text × Text)
  pub helper : Node
  pub lock : Option (Text × ℕ)

abbrev pub update : TargetRole → RoleFiles → (TargetRole → RoleFiles) → TargetRole → RoleFiles
update r f disk q = if role_eq q r then f else disk q

abbrev pub put : World → TargetRole → RoleFiles → World
put w r f = record w { disk = update r f w.disk }

abbrev pub put_back :
    {A : Type 0}
    → TargetRole
    → World
    → Outcome A × RoleFiles × List Fault
    → Outcome A × World × List Fault
put_back r w (outcome, f, fs) = (outcome, put w r f, fs)

-- An action on the files of one role.
unfoldable pub at_role : {A : Type 0} → TargetRole → Exec RoleFiles A → Exec World A
at_role r m w fs = put_back r w (m (w.disk r) fs)

-- `read_marker`, into the variable
abbrev pub load : MarkerFile → World → Option (Unit {0} × World)
load (holds marker) w = some (tt, record w { memory = marker })
load _ w = none

unfoldable pub read_marker : Exec World (Unit {0})
read_marker = do
  io (λ w. load w.marker w)
  marker ← gets (λ w. w.memory)
  ensure (validate_marker marker)

-- `validate_regular_file` of the marker, which does not look into it
abbrev pub is_marker_file : MarkerFile → Bool
is_marker_file missing = false
is_marker_file (holds marker) = true
is_marker_file unreadable = true

abbrev pub create_temp : TransactionMarker → MarkerFile → World → Option (Unit {0} × World)
create_temp marker missing w = some (tt, record w { marker_temp = holds marker })
create_temp marker (holds other_marker) w = none
create_temp marker unreadable w = none

abbrev pub rename_temp : World → Option (Unit {0} × World)
rename_temp w = some (tt, record w { marker = w.marker_temp; marker_temp = missing })

abbrev pub remove_temp : World → Option (Unit {0} × World)
remove_temp w = some (tt, record w { marker_temp = missing })

-- `write_marker_atomic`. The rename happens behind the creation of the file that it renames.
unfoldable pub write_marker_atomic : TransactionMarker → Exec World (Unit {0})
write_marker_atomic marker = do
  ensure (validate_marker marker)
  present ← gets (λ w. is_marker_file w.marker)
  ensure present
  io (λ w. create_temp marker w.marker_temp w)
  on_error (io rename_temp) (io remove_temp >> fail)
  sync

-- The variable changes, and its new value is written.
unfoldable pub write_as : (TransactionMarker → TransactionMarker) → Exec World (Unit {0})
unfolding write_marker_atomic
write_as change = do
  modify (λ w. record w { memory = change w.memory })
  marker ← gets (λ w. w.memory)
  write_marker_atomic marker

-- `marker.targets[index].state = state`
abbrev pub set_states : ℕ → TargetState → List TargetRecord → List TargetRecord
set_states index state [] = []
set_states zero state (target ∷ targets) = record target { state = state } ∷ targets
set_states (suc index) state (target ∷ targets) = target ∷ set_states index state targets

abbrev pub set_state : ℕ → TargetState → TransactionMarker → TransactionMarker
set_state index state marker = record marker { targets = set_states index state marker.targets }

-- The file that `write_marker_atomic` leaves when it is interrupted: none, or a valid marker of the
-- same transaction. The `.previous` file beside it is made on Windows only.
abbrev pub is_own_artifact : TransactionMarker → MarkerFile → Bool
is_own_artifact marker missing = true
is_own_artifact marker (holds artifact) =
    validate_marker artifact && text_eq artifact.transaction_id marker.transaction_id
is_own_artifact marker unreadable = false

abbrev pub remove_artifact : MarkerFile → World → Option (Unit {0} × World)
remove_artifact missing w = some (tt, w)
remove_artifact _ w = remove_temp w

unfoldable pub recover_marker_update_artifacts : TransactionMarker → Exec World (Unit {0})
recover_marker_update_artifacts marker = do
  artifact ← read (λ w. w.marker_temp)
  ensure (is_own_artifact marker artifact)
  io (λ w. remove_artifact w.marker_temp w)
  sync
