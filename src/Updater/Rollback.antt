-- ===== src/Updater/Rollback.antt =====
-- rust/src/updater/transaction.rs: rollback_transaction and what it calls.
use flist_walker.Prelude.{
  ℕ, zero, suc, Bool, false, ◌&&◌, Option, none, some, List, [], ◌∷◌, length, get_elem?,
  if◌then◌else◌,
}
use flist_walker.Text.{Text, text_eq}
use flist_walker.Updater.Exec.{Exec, io, gets, ensure, fail, pure, ◌>>=◌, ◌>>◌}
use flist_walker.Updater.Disk.{
  Node, RoleFiles, sync, check, hash_if_regular, hash_eq, is_regular_if_present, remove_if,
  restore_existing,
}
use flist_walker.Updater.Marker.{
  TransactionMarker, TargetRecord, TargetState, prepared, state_eq, Phase, rolling_back, phase_eq,
}
use flist_walker.Updater.World.{World, at_role, write_as, set_state}

unfoldable pub revalidate_rollback_paths : Exec RoleFiles (Unit {0})
revalidate_rollback_paths = check λ f.
    is_regular_if_present f.target
    && is_regular_if_present f.backup
    && is_regular_if_present f.failed

unfoldable pub revalidate_rollback_hashes : Option Text → Option Text → Exec RoleFiles (Unit {0})
revalidate_rollback_hashes expected_target expected_backup = do
  revalidate_rollback_paths
  target ← hash_if_regular (λ f. f.target)
  ensure (hash_eq target expected_target)
  backup ← hash_if_regular (λ f. f.backup)
  ensure (hash_eq backup expected_backup)

-- A target that is as before may have a backup of it.
unfoldable pub drop_backup : Text → Option Text → Exec RoleFiles (Unit {0})
drop_backup old_hash none = pure tt
drop_backup old_hash (some hash) =
    if text_eq hash old_hash
    then (do
      revalidate_rollback_hashes (some old_hash) (some old_hash)
      io (λ f. remove_if f.backup (record f { backup = Node.absent }))
      sync)
    else fail

-- Where the hashes do not tell what happened to the target, only an untouched record is let pass.
unfoldable pub unless_touched : TargetRecord → Exec RoleFiles (Unit {0})
unless_touched target = ensure (state_eq target.state prepared)

-- A target that was present; `target_hash` is what is there now.
unfoldable pub rollback_present : TargetRecord → Option Text → Exec RoleFiles (Unit {0})
rollback_present target target_hash = elim (target.old_hash) [
  | none ↦ fail
  | some old_hash ↦
      if hash_eq target_hash (some old_hash)
      then (do backup ← hash_if_regular (λ f. f.backup); drop_backup old_hash backup)
      else if hash_eq target_hash (some target.new_hash)
      then (do
        backup ← hash_if_regular (λ f. f.backup)
        if hash_eq backup (some old_hash)
            then (do
              revalidate_rollback_hashes (some target.new_hash) (some old_hash)
              restore_existing)
            else unless_touched target)
      else unless_touched target
]

-- A target that was not there is removed.
unfoldable pub rollback_absent : TargetRecord → Option Text → Exec RoleFiles (Unit {0})
rollback_absent target target_hash =
    if hash_eq target_hash (some target.new_hash)
    then (do
      revalidate_rollback_hashes (some target.new_hash) none
      io (λ f. remove_if f.target (record f { target = Node.absent }))
      sync)
    else ensure (hash_eq target_hash none)

-- The body of the loop of `rollback_transaction`, but for the marker.
unfoldable pub rollback_target : TargetRecord → Exec RoleFiles (Unit {0})
rollback_target target = do
  revalidate_rollback_paths
  target_hash ← hash_if_regular (λ f. f.target)
  if target.originally_present
      then rollback_present target target_hash
      else rollback_absent target target_hash

-- The record that the loop is at. An index out of range panics, which no valid marker brings about.
abbrev pub or_fail : Option TargetRecord → Exec World TargetRecord
or_fail none = fail
or_fail (some target) = pure target

unfoldable pub record_at : ℕ → Exec World TargetRecord
record_at index = gets (λ w. get_elem? w.memory.targets index) >>= or_fail

-- The loop over `(0..index).rev()`.
unfoldable pub rollback_below : ℕ → Exec World (Unit {0})
rollback_below zero = pure tt
rollback_below (suc index) = do
  target ← record_at index
  at_role target.role (rollback_target target)
  write_as (set_state index TargetState.rolled_back)
  rollback_below index

abbrev pub is_valid_node : Bool → TargetRecord → Option Text → Bool
is_valid_node expect_new target actual =
    if expect_new
    then hash_eq actual (some target.new_hash)
    else if target.originally_present
    then hash_eq actual target.old_hash
    else hash_eq actual none

-- `verify_bundle_hashes`, for the records that are left.
unfoldable pub verify_targets : Bool → List TargetRecord → Exec World (Unit {0})
verify_targets expect_new [] = pure tt
verify_targets expect_new (target ∷ targets) = do
  actual ← hash_if_regular (λ (w : World). (w.disk target.role).target)
  ensure (is_valid_node expect_new target actual)
  verify_targets expect_new targets

unfoldable pub verify_bundle_hashes : Bool → Exec World (Unit {0})
verify_bundle_hashes expect_new = do
  targets ← gets (λ w. w.memory.targets)
  verify_targets expect_new targets

abbrev pub with_phase : Phase → TransactionMarker → TransactionMarker
with_phase phase marker = record marker { phase = phase }

unfoldable pub rollback_transaction : Exec World (Unit {0})
rollback_transaction = do
  phase ← gets (λ w. w.memory.phase)
  if phase_eq phase rolling_back then pure tt else write_as (with_phase rolling_back)
  count ← gets (λ w. length w.memory.targets)
  rollback_below count
  verify_bundle_hashes false
  write_as (with_phase Phase.rolled_back)
