-- ===== src/Updater/Apply.antt =====
-- rust/src/updater/transaction.rs: execute_registered_transaction, by which the helper process puts
-- the new files in place, and what it calls.
use flist_walker.Prelude.{
  ℕ, zero, suc, Bool, true, false, ◌&&◌, not, Option, none, some, length, if◌then◌else◌,
}
use flist_walker.Text.{Text, text_eq}
use flist_walker.Updater.Exec.{Exec, gets, ensure, fail, pure, on_error, ◌>>=◌, ◌>>◌}
use flist_walker.Updater.Disk.{
  RoleFiles, check, sha256_file, is_regular_if_present, exists, is_regular, replace_existing,
  promote_absent_no_overwrite,
}
use flist_walker.Updater.Marker.{
  TargetRole, binary, role_eq, TransactionMarker, TargetRecord, intent, applied, helper_registered,
  applying_sidecars, binary_intent, binary_committed, phase_eq, bool_eq,
}
use flist_walker.Updater.World.{
  World, at_role, read_marker, write_as, set_state, recover_marker_update_artifacts,
}
use flist_walker.Updater.Rollback.{
  record_at, with_phase, verify_bundle_hashes, rollback_transaction,
}
use flist_walker.Updater.Cleanup.{cleanup_rolled_back, validate_ack}

-- The end of `revalidate_operation_paths`: a target that was present has its old hash.
unfoldable pub revalidate_old_hash : TargetRecord → Exec RoleFiles (Unit {0})
revalidate_old_hash target = elim (target.old_hash) [
  | none ↦ fail
  | some expected ↦ do actual ← sha256_file (λ f. f.target); ensure (text_eq actual expected)
]

unfoldable pub revalidate_operation_paths : TargetRecord → Exec RoleFiles (Unit {0})
revalidate_operation_paths target = do
  check λ f.
      is_regular f.prepared
      && is_regular_if_present f.target
      && not (exists f.backup)
      && bool_eq (exists f.target) target.originally_present
  new_hash ← sha256_file (λ f. f.prepared)
  ensure (text_eq new_hash target.new_hash)
  if target.originally_present then revalidate_old_hash target else pure tt

unfoldable pub apply_one_target : TargetRecord → Exec RoleFiles (Unit {0})
apply_one_target target = do
  revalidate_operation_paths target
  if target.originally_present then replace_existing else promote_absent_no_overwrite
  installed ← sha256_file (λ f. f.target)
  ensure (text_eq installed target.new_hash)

-- What the helper's surroundings decide: `ProcessControl::wait_for_exit`, which may fail; whether
-- `ProcessControl::restart` succeeds; and `FailureInjector::after_applied`.
pub record Surroundings : Type 0 where
  pub parent_exits : Option Bool
  pub restarts : Bool
  pub after_applied : TargetRole → Bool

abbrev pub is_registered : Text → TransactionMarker → Bool
is_registered start_token marker =
    phase_eq marker.phase helper_registered
    && elim marker.helper_start_token [ none ↦ false | some token ↦ text_eq token start_token ]

-- The process did not end in time.
unfoldable pub give_up : Exec World (Unit {0})
give_up = do rollback_transaction; cleanup_rolled_back; fail

module _ (process : Surroundings) where
  -- The body of the loop in `execute_registered_transaction`.
  unfoldable pub apply_index : ℕ → Exec World (Unit {0})
  apply_index index = do
    target ← record_at index
    if role_eq target.role binary then write_as (with_phase binary_intent) else pure tt
    write_as (set_state index intent)
    at_role target.role (apply_one_target target)
    write_as (set_state index applied)
    ensure (process.after_applied target.role)

  -- The loop from `index` on, with `count` rounds left.
  unfoldable pub apply_from : ℕ → ℕ → Exec World (Unit {0})
  apply_from zero index = pure tt
  apply_from (suc count) index = do apply_index index; apply_from count (suc index)

  -- The closure whose error rolls the transaction back.
  unfoldable pub apply_all : Exec World (Unit {0})
  apply_all = do
    count ← gets (λ w. length w.memory.targets)
    apply_from count 0
    verify_bundle_hashes true
    write_as (with_phase binary_committed)

  unfoldable pub activate : Exec World (Unit {0})
  activate = do
    write_as (with_phase applying_sidecars)
    on_error apply_all (rollback_transaction >> fail)
    if process.restarts then pure tt else (rollback_transaction >> fail)

  abbrev pub wait_or_give_up : Option Bool → Exec World (Unit {0})
  wait_or_give_up none = fail
  wait_or_give_up (some exited) = if exited then activate else give_up

  unfoldable pub execute_registered_transaction : Text → Exec World (Unit {0})
  execute_registered_transaction start_token = do
    read_marker
    marker ← gets (λ w. w.memory)
    recover_marker_update_artifacts marker
    ensure (is_registered start_token marker)
    validate_ack marker start_token
    wait_or_give_up process.parent_exits
