-- ===== src/Updater/Recover.antt =====
-- rust/src/updater/transaction.rs: recover_transaction, which every start of the program runs when
-- it finds a marker.
use flist_walker.Prelude.{
  ℕ, Bool, true, false, ◌&&◌, ◌||◌, not, Option, none, some, List, [], ◌∷◌, any, all, if◌then◌else◌,
}
use flist_walker.Text.{Text}
use flist_walker.Updater.Exec.{Exec, gets, on_error, pure, ◌>>=◌, ◌>>◌}
use flist_walker.Updater.Disk.{hash_if_regular, hash_eq, digest}
use flist_walker.Updater.Marker.{
  TargetRecord, Phase, binary_committed, binary_intent, phase_eq, helper_registered,
}
use flist_walker.Updater.World.{World, read_marker, write_as, recover_marker_update_artifacts}
use flist_walker.Updater.Rollback.{with_phase, rollback_transaction}
use flist_walker.Updater.Cleanup.{is_ack, cleanup_committed, cleanup_rolled_back}

pub data RecoveryOutcome : Type 0 where
  deferred : RecoveryOutcome
  rolled_back : RecoveryOutcome
  committed : RecoveryOutcome
  ambiguous : RecoveryOutcome

-- `executable_matches` is asked about the helper of this transaction only.
pub record ProcessProbe : Type 0 where
  pub is_alive : ℕ → Bool
  pub executable_matches : ℕ → Bool
  pub is_current_process : ℕ → Bool

pub data TargetClassification : Type 0 where
  old : TargetClassification
  new : TargetClassification
  unknown : TargetClassification

abbrev pub classify : TargetRecord → Option Text → TargetClassification
classify target hash =
    if hash_eq hash (some target.new_hash)
    then new
    else if target.originally_present && hash_eq hash target.old_hash
    then old
    else if not target.originally_present && hash_eq hash none
    then old
    else unknown

unfoldable pub classify_target : TargetRecord → Exec World TargetClassification
classify_target target = do
  hash ← hash_if_regular (λ (w : World). (w.disk target.role).target)
  pure (classify target hash)

unfoldable pub classify_targets : List TargetRecord → Exec World (List TargetClassification)
classify_targets [] = pure []
classify_targets (target ∷ targets) = do
  classification ← classify_target target
  classifications ← classify_targets targets
  pure (classification ∷ classifications)

abbrev pub is_unknown : TargetClassification → Bool
is_unknown old = false
is_unknown new = false
is_unknown unknown = true

abbrev pub is_new : TargetClassification → Bool
is_new old = false
is_new new = true
is_new unknown = false

-- A helper that lives, and is not this process: the transaction is its own.
abbrev pub own_helper_outcome : ProcessProbe → ℕ → World → RecoveryOutcome
own_helper_outcome probe pid w =
    let marker = w.memory in
    if not (hash_eq (digest w.helper) (some marker.helper_hash))
      || not (probe.executable_matches pid)
    then ambiguous
    else elim (w.ack) [
      | none ↦ if phase_eq marker.phase helper_registered then deferred else ambiguous
      | some ack ↦
          if is_ack marker (elim marker.helper_start_token [ none ↦ [] | some t ↦ t ]) (some ack)
          then deferred
          else ambiguous
    ]

abbrev pub other_process : ProcessProbe → ℕ → Bool
other_process probe pid = probe.is_alive pid && not (probe.is_current_process pid)

abbrev pub live_helper_outcome : ProcessProbe → Option ℕ → World → Option RecoveryOutcome
live_helper_outcome probe none w = none
live_helper_outcome probe (some pid) w =
    if other_process probe pid then some (own_helper_outcome probe pid w) else none

-- The tests of `recover_transaction` on processes, up to the first that ends it.
unfoldable pub live_outcome : ProcessProbe → World → Option RecoveryOutcome
live_outcome probe w =
    if other_process probe w.memory.parent_pid
    then some deferred
    else live_helper_outcome probe w.memory.helper_pid w

unfoldable pub roll_back : Exec World RecoveryOutcome
roll_back =
    on_error (rollback_transaction >> cleanup_rolled_back >> pure rolled_back) (pure ambiguous)

unfoldable pub commit : Exec World RecoveryOutcome
commit = do
  write_as (with_phase binary_committed)
  on_error (cleanup_committed >> pure committed) (pure ambiguous)

-- What the classifications of the targets decide.
abbrev pub settle : Phase → List TargetClassification → Exec World RecoveryOutcome
settle phase classifications =
    if any is_unknown classifications
    then pure ambiguous
    else if phase_eq phase binary_committed
        || (phase_eq phase binary_intent && all is_new classifications)
    then (if all is_new classifications then commit else pure ambiguous)
    else roll_back

-- `recover_transaction` behind the tests on processes.
unfoldable pub resolve : Exec World RecoveryOutcome
resolve = do
  marker ← gets (λ w. w.memory)
  recover_marker_update_artifacts marker
  classifications ← classify_targets marker.targets
  settle marker.phase classifications

abbrev pub or_else :
    Exec World RecoveryOutcome → Option RecoveryOutcome → Exec World RecoveryOutcome
or_else m none = m
or_else m (some outcome) = pure outcome

-- `recover_transaction` behind the reading of the marker.
unfoldable pub recover_loaded : ProcessProbe → Exec World RecoveryOutcome
recover_loaded probe = gets (live_outcome probe) >>= or_else resolve

abbrev pub read_or_ambiguous : Exec World (Option RecoveryOutcome)
read_or_ambiguous = on_error (read_marker >> pure none) (pure (some ambiguous))

unfoldable pub recover_transaction : ProcessProbe → Exec World RecoveryOutcome
recover_transaction probe = read_or_ambiguous >>= or_else (recover_loaded probe)
