-- ===== src/Updater/Recoverable/Restarts.antt =====
-- `recover_transaction` from its start, on whatever an interrupted run has left.
use flist_walker.Prelude.{
  ℕ, ◌≡◌, refl, ◌⊎◌, inl, inr, Bool, true, false, Option, none, some, List, arith, Option-cases,
}
use flist_walker.Updater.Exec.{Fault}
use flist_walker.Updater.Exec.Ends.{
  Ends, Quiet, lossy-Quiet, after, Ends-pure, Ends-gets, Ends-on_error,
}
use flist_walker.Updater.Marker.{TransactionMarker, validate_marker}
use flist_walker.Updater.World.{World, holds}
use flist_walker.Updater.Recover.{
  RecoveryOutcome, ambiguous, ProcessProbe, resolve, recover_loaded, recover_transaction,
  live_outcome, live_helper_outcome, other_process,
}
use flist_walker.Updater.Recoverable.{Transaction, IsRecoverable}
use flist_walker.Updater.Recoverable.Loading.{read_marker_ends}
use flist_walker.Updater.Recoverable.Activation.{strict_and_lossy}
use flist_walker.Updater.Recoverable.Commits.{Recovers}

-- No other process runs under the PID: none does, or it is the one that asks.
abbrev pub IsOut : ProcessProbe → ℕ → Type 0
IsOut probe pid = (probe.is_alive pid ≡ false) ⊎ (probe.is_current_process pid ≡ true)

-- The parent and the helper that the marker names are out.
abbrev pub AreOut : ProcessProbe → TransactionMarker → Type 0
AreOut probe marker =
    IsOut probe marker.parent_pid × ((pid : ℕ) → marker.helper_pid ≡ some pid → IsOut probe pid)

other_process_out :
    (probe : ProcessProbe) (pid : ℕ) → IsOut probe pid → other_process probe pid ≡ false
other_process_out probe pid (inl dead) = rw dead refl
other_process_out probe pid (inr own) = ground (arith, own)

live_outcome_out :
    (probe : ProcessProbe) (w : World) → AreOut probe w.memory → live_outcome probe w ≡ none
unfolding live_outcome
live_outcome_out probe w out =
    rw (other_process_out probe w.memory.parent_pid out.0) (no_helper w.memory.helper_pid out.1)
  where
    no_helper :
        (helper_pid : Option ℕ)
        → ((pid : ℕ) → helper_pid ≡ some pid → IsOut probe pid)
        → live_helper_outcome probe helper_pid w ≡ none
    no_helper none out = refl
    no_helper (some pid) out = rw (other_process_out probe pid (out pid refl)) refl

module _ (b : Transaction) (strict : Bool) (probe : ProcessProbe) where
  -- The marker is read, and no process is in the way.
  loaded_ends :
      (w : World) (fs : List Fault)
      → Quiet strict fs
      → IsRecoverable b w
      → (strict ≡ true → AreOut probe w.memory)
      → ((fs : List Fault)
          → Quiet strict fs
          → Ends strict (Recovers b strict) (IsRecoverable b) (resolve w fs))
      → Ends strict (Recovers b strict) (IsRecoverable b) (recover_loaded probe w fs)
  unfolding recover_loaded
  loaded_ends w fs quiet e out rest = after _ _ _ fs (
      Ends-gets _ w fs quiet λ fs quiet. elim (Option-cases (live_outcome probe w)) [
        | inl idle ↦ rw idle (rest fs quiet)
        | inr (outcome, busy) ↦ rw busy (
            Ends-pure outcome w fs quiet
              (e, λ t. absurd (none_some (live_outcome_out probe w (out t)) busy)))
      ])
    where
      none_some : {o : Option RecoveryOutcome} {x : RecoveryOutcome} → o ≡ none → o ≡ some x → ⊥
      none_some n s = cc

  pub start_ends :
      (marker : TransactionMarker) (w : World) (fs : List Fault)
      → Quiet strict fs
      → w.marker ≡ holds marker
      → validate_marker marker ≡ true
      → IsRecoverable b w
      → IsRecoverable b (record w { memory = marker })
      → (strict ≡ true → AreOut probe marker)
      → ((fs : List Fault)
          → Quiet strict fs
          → Ends strict
              (Recovers b strict)
              (IsRecoverable b)
              (resolve (record w { memory = marker }) fs))
      → Ends strict (Recovers b strict) (IsRecoverable b) (recover_transaction probe w fs)
  unfolding recover_transaction
  start_ends marker w fs quiet at valid e e' out rest = after _ _ _ fs (
      Ends-on_error _ _ _ fs
        (after _ _ _ fs (
          read_marker_ends marker w fs at valid quiet e e'
            λ fs quiet. Ends-pure none _ fs quiet λ fs quiet. loaded_ends _ fs quiet e' out rest))
        (λ w fs lossy e. Ends-pure (some ambiguous) w fs (lossy-Quiet strict fs lossy) λ fs quiet.
          Ends-pure ambiguous w fs quiet (e, λ t. absurd (strict_and_lossy strict t lossy)))
        (λ w e. e))
