-- ===== src/Updater/Recoverable/Commits.antt =====
-- The recovery of an update whose files are all in place: it is committed and its files are removed.
use flist_walker.Prelude.{◌≡◌, refl, sym, ap, subst, Bool, true, none, List}
use flist_walker.Updater.Exec.{Fault}
use flist_walker.Updater.Exec.Ends.{
  Ends, Quiet, lossy-Quiet, after, Ends-pure, Ends-gets, Ends-on_error, Ends-mono,
}
use flist_walker.Updater.Marker.{TargetRole, TargetState, Phase, binary_committed, validate_marker}
use flist_walker.Updater.World.{World, MarkerFile, missing, is_own_artifact, is_marker_file}
use flist_walker.Updater.Rollback.{with_phase}
use flist_walker.Updater.Cleanup.{cleanup_committed, cleanup_transaction_artifacts}
use flist_walker.Updater.Recover.{RecoveryOutcome, rolled_back, committed, ambiguous, commit}
use flist_walker.Updater.Recoverable.{
  Transaction, marker_of, Everywhere, HasOwnFiles, IsClosing, IsRecoverable, live, committing,
  over_new, over_old, IsPlaced, IsOld,
}
use flist_walker.Updater.Recoverable.Writing.{written, halfway, write_over_ends}
use flist_walker.Updater.Recoverable.Writes.{Holds-temp}
use flist_walker.Updater.Recoverable.Verify.{verify_new_bundle}
use flist_walker.Updater.Recoverable.Removable.{CanGo-IsPlaced}
use flist_walker.Updater.Recoverable.Closing.{cleanup_ends}
use flist_walker.Updater.Recoverable.Activation.{strict_and_lossy}
use flist_walker.Updater.Recoverable.Classes.{target_placed}

-- A recovery that has come to its end: all targets are old, or all are new, and nothing is left that
-- another start of the program would take up.
pub data Settles (b : Transaction) : RecoveryOutcome → World → Type 0 where
  settles_old :
      {w : World}
      → w.marker ≡ missing
      → w.lock ≡ none
      → Everywhere b IsOld w
      → Settles b rolled_back w
  settles_new :
      {w : World}
      → w.marker ≡ missing
      → w.lock ≡ none
      → Everywhere b IsPlaced w
      → Settles b committed w

-- What a recovery returns: where no call fails, an end of the transaction.
abbrev pub Recovers : Transaction → Bool → RecoveryOutcome → World → Type 0
Recovers b strict outcome w = IsRecoverable b w × (strict ≡ true → Settles b outcome w)

pub IsRecoverable-untemp :
    (b : Transaction) (w : World)
    → IsRecoverable b w
    → IsRecoverable b (record w { marker_temp = missing })
IsRecoverable-untemp b w (live phase states held link) =
    live phase states (Holds-temp b missing refl held) link
IsRecoverable-untemp b w (committing states h) = committing states (record {
  own = record { temp = refl; helper = h.own.helper; ack = h.own.ack; lock = h.own.lock };
  durable = h.durable;
  valid = h.valid;
  roles = h.roles;
})
IsRecoverable-untemp b w (over_old gone olds) = over_old gone olds
IsRecoverable-untemp b w (over_new gone news) = over_new gone news

module _ (b : Transaction) (strict : Bool) (states : TargetRole → TargetState) where
  abbrev Committing : World → Type 0
  Committing = IsClosing b IsPlaced binary_committed states

  cleanup_committed_ends :
      (w : World) (fs : List Fault)
      → Quiet strict fs
      → w.memory ≡ marker_of b binary_committed states
      → Committing w
      → Ends strict
          (λ (_ : Unit {0}) w. (w.marker ≡ missing) × (w.lock ≡ none) × Everywhere b IsPlaced w)
          (IsRecoverable b)
          (cleanup_committed w fs)
  unfolding cleanup_committed
  cleanup_committed_ends w fs quiet memory h = after _ _ _ fs (
      verify_new_bundle b binary_committed states w fs memory (λ r. target_placed (h.roles r)) quiet
        (committing states h)
        λ fs quiet. after _ _ _ fs (
          Ends-gets _ w fs quiet λ fs quiet.
            subst
              (λ marker.
                Ends strict
                  (λ (_ : Unit {0}) w.
                    (w.marker ≡ missing) × (w.lock ≡ none) × Everywhere b IsPlaced w)
                  (IsRecoverable b) (cleanup_transaction_artifacts marker w fs))
              (sym memory)
              (cleanup_ends b IsPlaced CanGo-IsPlaced binary_committed states strict
                (IsRecoverable b) (λ w h. committing states h) (λ w gone news. over_new gone news) w
                fs quiet h)))

  -- From a world whose targets are all in place, whatever its marker says.
  pub commit_ends :
      (phase : Phase) (w : World) (fs : List Fault)
      → Quiet strict fs
      → HasOwnFiles b w
      → is_marker_file w.marker ≡ true
      → w.memory ≡ marker_of b phase states
      → w.marker_temp ≡ missing
      → Everywhere b IsPlaced w
      → ((temp : MarkerFile)
          → is_own_artifact b.ident temp ≡ true
          → IsRecoverable b (halfway w (marker_of b binary_committed states) temp))
      → (strict ≡ true → validate_marker (marker_of b binary_committed states) ≡ true)
      → Ends strict (Recovers b strict) (IsRecoverable b) (commit w fs)
  unfolding commit
  commit_ends phase w fs quiet own readable memory free news half good = after _ _ _ fs (
      write_over_ends b strict _ (IsRecoverable b) binary_committed states w own.temp readable half
        (λ v. committing states (closing v)) (λ s e. IsRecoverable-untemp b s e)
        (with_phase binary_committed) fs (ap (with_phase binary_committed) memory) good (λ _. free)
        quiet
        λ v fs quiet.
          Ends-on_error _ _ _ fs
            (after _ _ _ fs (
              Ends-mono (cleanup_committed_ends _ fs quiet refl (closing v))
                (λ _ w gone fs quiet.
                  Ends-pure committed w fs quiet
                    (over_new gone.0 gone.2, λ _. settles_new gone.0 gone.1 gone.2))
                (λ w e. e)))
            (λ w fs lossy e.
              Ends-pure ambiguous w fs (lossy-Quiet strict fs lossy)
                (e, λ t. absurd (strict_and_lossy strict t lossy)))
            (λ w e. e))
    where
      closing :
          validate_marker (marker_of b binary_committed states) ≡ true
          → Committing (written w (marker_of b binary_committed states))
      closing v = record {
        own = record { temp = refl; helper = own.helper; ack = own.ack; lock = own.lock };
        durable = refl;
        valid = v;
        roles = news;
      }
