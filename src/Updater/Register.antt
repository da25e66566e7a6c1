-- ===== src/Updater/Register.antt =====
-- rust/src/updater/transaction.rs: how the program registers its helper, and the helper's answer.
use flist_walker.Prelude.{ℕ, Bool, true, false, ◌&&◌, Option, none, some, ◌==◌}
use flist_walker.Text.{Text, text_eq}
use flist_walker.Updater.Exec.{Exec, io, gets, ensure, pure, fail, ◌>>=◌, ◌>>◌}
use flist_walker.Updater.Disk.{sha256_file, sync}
use flist_walker.Updater.Marker.{
  TransactionMarker, Phase, prepared_parent_owned, helper_registered, phase_eq,
  validate_start_token,
}
use flist_walker.Updater.Apply.{Surroundings, execute_registered_transaction}
use flist_walker.Updater.World.{World, read_marker, write_as}

abbrev is_unregistered : Option ℕ → Bool
is_unregistered none = true
is_unregistered (some pid) = false

abbrev pub is_parent_owned : TransactionMarker → Bool
is_parent_owned marker =
    phase_eq marker.phase prepared_parent_owned && is_unregistered marker.helper_pid

abbrev pub with_helper : ℕ → Text → TransactionMarker → TransactionMarker
with_helper helper_pid start_token marker = record marker {
  helper_pid = some helper_pid;
  helper_start_token = some start_token;
  phase = helper_registered;
}

unfoldable pub register_helper : ℕ → Text → Exec World (Unit {0})
register_helper helper_pid start_token = do
  ensure (validate_start_token start_token)
  read_marker
  marker ← gets (λ w. w.memory)
  ensure (is_parent_owned marker)
  write_as (with_helper helper_pid start_token)

abbrev pub is_this_helper : ℕ → Text → TransactionMarker → Bool
is_this_helper helper_pid start_token marker =
    phase_eq marker.phase helper_registered
    && elim marker.helper_pid [ none ↦ false | some pid ↦ pid == helper_pid ]
    && elim marker.helper_start_token [ none ↦ false | some token ↦ text_eq token start_token ]

-- The file is new, so it must not be there.
abbrev pub create_ack : Text × Text → Option (Text × Text) → World → Option (Unit {0} × World)
create_ack ack none w = some (tt, record w { ack = some ack })
create_ack ack (some a) w = none

-- `is_own_path` says whether the running program has the path of the helper.
unfoldable pub acknowledge_registered_helper : ℕ → Text → Bool → Exec World (Unit {0})
acknowledge_registered_helper helper_pid start_token is_own_path = do
  read_marker
  marker ← gets (λ w. w.memory)
  ensure (is_this_helper helper_pid start_token marker)
  ensure is_own_path
  hash ← sha256_file (λ w. w.helper)
  ensure (text_eq hash marker.helper_hash)
  io (λ w. create_ack (marker.transaction_id, start_token) w.ack w)
  sync

-- What the processes and the clock say to the helper: `is_own_path` as above, and whether the parent
-- lives when it is asked.
pub record HelperProcess : Type 0 where
  pub pid : ℕ
  pub is_own_path : Bool
  pub is_parent_alive : Bool
  pub process : Surroundings

-- The match on the phase, in one turn of the loop of `run_internal_helper`.
abbrev pub turn_by_phase : HelperProcess → Text → TransactionMarker → Phase → Exec World Bool
turn_by_phase helper start_token marker prepared_parent_owned =
    ensure helper.is_parent_alive >> pure false
turn_by_phase helper start_token marker helper_registered =
    ensure (is_this_helper helper.pid start_token marker)
    >> acknowledge_registered_helper helper.pid start_token helper.is_own_path
    >> execute_registered_transaction helper.process start_token
    >> pure true
turn_by_phase helper start_token marker _ = fail

-- One turn of that loop; it tells whether the helper has done its work, and otherwise sleeps.
unfoldable pub helper_turn : HelperProcess → Text → Text → Exec World Bool
helper_turn helper transaction_id start_token = do
  read_marker
  marker ← gets (λ w. w.memory)
  ensure (text_eq marker.transaction_id transaction_id)
  turn_by_phase helper start_token marker marker.phase
