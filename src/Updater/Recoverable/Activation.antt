-- ===== src/Updater/Recoverable/Activation.antt =====
-- `execute_registered_transaction`: what holds however the helper ends, and what it achieves.
use flist_walker.Prelude.{
  ◌<◌, ◌≡◌, refl, sym, ap, subst, inl, inr, Bool, true, false, Option, none, List, arith, length,
  if◌then◌else◌, Bool-cases,
}
use flist_walker.Text.{Text}
use flist_walker.Updater.Exec.{Fault, pure, fail, ◌>>=◌, ◌>>◌}
use flist_walker.Updater.Exec.Ends.{
  Ends, Quiet, lossy-Quiet, after, Ends-pure, Ends-fail, Ends-gets, Ends-on_error, Ends-mono,
}
use flist_walker.Updater.Disk.{RoleFiles, regular}
use flist_walker.Updater.Marker.{
  TargetRole, role_code, Phase, helper_registered, applying_sidecars, binary_intent,
  binary_committed, TransactionMarker, validate_marker,
}
use flist_walker.Updater.World.{World, missing, holds, write_as}
use flist_walker.Updater.Rollback.{rollback_transaction, verify_bundle_hashes, with_phase}
use flist_walker.Updater.Cleanup.{cleanup_rolled_back, cleanup_transaction_artifacts}
use flist_walker.Updater.Apply.{Surroundings, apply_all, activate}
use flist_walker.Updater.Recoverable.{
  Transaction, marker_of, Everywhere, Holds, IsRunning, running, IsRecoverable, live, over_old,
  IsClosing, IsSlot, clean, kept, ready, IsOld, IsNew, replaced, IsReady,
}
use flist_walker.Updater.Recoverable.Slots.{IsSlot-IsOld}
use flist_walker.Updater.Recoverable.Writes.{write_ends, Holds-written}
use flist_walker.Updater.Recoverable.Verify.{verify_old_bundle, verify_new_bundle}
use flist_walker.Updater.Recoverable.Rollbacks.{IsUndone, all_rolled_back, rollback_ends}
use flist_walker.Updater.Recoverable.Validity.{
  IsSound, all_prepared, forward, Valid-applying, Valid-committed,
}
use flist_walker.Updater.Recoverable.Applying.{IsApplying, applying, apply_from_ends}
use flist_walker.Updater.Recoverable.Removable.{CanGo-IsOld}
use flist_walker.Updater.Recoverable.Closing.{cleanup_ends}

pub IsRecoverable-IsRunning :
    {b : Transaction} {undo : Bool} {w : World} → IsRunning b undo w → IsRecoverable b w
IsRecoverable-IsRunning (running phase states held link memory) = live phase states held link

-- What is left when a transaction that is rolled back is being cleaned up.
IsRecoverable-closing :
    (b : Transaction) (w : World)
    → IsClosing b IsOld Phase.rolled_back all_rolled_back w
    → IsRecoverable b w
IsRecoverable-closing b w h =
    live Phase.rolled_back all_rolled_back
      (record {
        own = h.own;
        durable = h.durable;
        valid = h.valid;
        slots = λ r. IsSlot-IsOld (h.roles r);
      })
      (λ e. absurd (cc e))

pub cleanup_rolled_back_ends :
    (b : Transaction) (strict : Bool) (w : World) (fs : List Fault)
    → Quiet strict fs
    → IsUndone b w
    → Ends strict
        (λ (_ : Unit {0}) w. (w.marker ≡ missing) × (w.lock ≡ none) × Everywhere b IsOld w)
        (IsRecoverable b)
        (cleanup_rolled_back w fs)
unfolding cleanup_rolled_back
cleanup_rolled_back_ends b strict w fs quiet h =
    let closing : IsClosing b IsOld Phase.rolled_back all_rolled_back w = record {
      own = h.held.own;
      durable = h.held.durable;
      valid = h.held.valid;
      roles = h.olds;
    } in
    after _ _ _ fs (
      verify_old_bundle b Phase.rolled_back all_rolled_back w fs h.memory h.olds quiet
        (IsRecoverable-closing b w closing)
        λ fs quiet. after _ _ _ fs (
          Ends-gets _ w fs quiet λ fs quiet.
            subst
              (λ marker.
                Ends strict
                  (λ (_ : Unit {0}) w.
                    (w.marker ≡ missing) × (w.lock ≡ none) × Everywhere b IsOld w)
                  (IsRecoverable b) (cleanup_transaction_artifacts marker w fs))
              (sym h.memory)
              (cleanup_ends b IsOld CanGo-IsOld Phase.rolled_back all_rolled_back strict
                (IsRecoverable b) (IsRecoverable-closing b) (λ w gone olds. over_old gone olds) w fs
                quiet closing)))

-- The update is in place, in memory, in the marker and on disk.
pub record IsDone (b : Transaction) (w : World) : Type 0 where
  pub held : Holds b binary_committed (forward 4) w
  pub memory : w.memory ≡ marker_of b binary_committed (forward 4)
  pub news : Everywhere b IsNew w

pub target_new :
    {old : Option Text} {new : Text} {f : RoleFiles} → IsNew old new f → f.target ≡ regular new
target_new (replaced l) = refl

IsRunning-undo : {b : Transaction} {w : World} → IsRunning b false w → IsRunning b true w
IsRunning-undo (running phase states held link (p, s, m, forth)) =
    running phase states held link (p, s, m, λ e. absurd (cc e))

below_four : (r : TargetRole) → role_code r < 4
below_four TargetRole.readme = omega arith
below_four TargetRole.license = omega arith
below_four TargetRole.notices = omega arith
below_four TargetRole.binary = omega arith

pub strict_and_lossy : (strict : Bool) → strict ≡ true → strict ≡ false → ⊥
strict_and_lossy strict t f = cc

pub IsSlot-IsReady :
    {old : Option Text} {new : Text} {f : RoleFiles} → IsReady old new f → IsSlot old new f
IsSlot-IsReady ready = clean kept

pub lossy_of_passes :
    (strict test : Bool) → (strict ≡ true → test ≡ true) → test ≡ false → strict ≡ false
lossy_of_passes true test passes f = absurd (cc (passes refl))
lossy_of_passes false test passes f = refl

-- Where the helper is registered and nothing is replaced.
pub record IsStarted (b : Transaction) (w : World) : Type 0 where
  pub held : Holds b helper_registered all_prepared w
  pub memory : w.memory ≡ marker_of b helper_registered all_prepared
  pub readies : Everywhere b IsReady w
  pub free : w.marker_temp ≡ missing

module _ (process : Surroundings) (b : Transaction) (strict : Bool) (sound : IsSound b)
    (passes : strict ≡ true → (r : TargetRole) → process.after_applied r ≡ true) where
  -- Behind the loop.
  commit_ends :
      (w : World) (fs : List Fault)
      → Quiet strict fs
      → IsApplying b strict binary_intent 4 w
      → Ends strict
          (λ (_ : Unit {0}) w. IsDone b w)
          (IsRunning b false)
          ((verify_bundle_hashes true >>= λ _. write_as (with_phase binary_committed)) w fs)
  commit_ends w fs quiet (applying phase durable held open_phase memory news readies free) =
      let all_new : Everywhere b IsNew w = λ r. news r (below_four r) in
      after _ _ _ fs (
        verify_new_bundle b binary_intent (forward 4) w fs memory (λ r. target_new (all_new r))
          quiet
          (running phase durable held (λ e. absurd (open_phase e))
            (binary_intent, forward 4, memory, λ _ e. absurd (cc e)))
          λ fs quiet.
            write_ends b strict false _ phase binary_committed durable (forward 4) w held
              (λ e. absurd (open_phase e)) (λ _. all_new) (λ _ e. absurd (cc e))
              (with_phase binary_committed) fs (ap (with_phase binary_committed) memory)
              (λ _. Valid-committed b sound) free quiet
              (λ v. record { held = Holds-written b v held; memory = refl; news = all_new }))

  apply_all_ends :
      (w : World) (fs : List Fault)
      → Quiet strict fs
      → IsApplying b strict applying_sidecars 0 w
      → Ends strict (λ (_ : Unit {0}) w. IsDone b w) (IsRunning b false) (apply_all process w fs)
  unfolding apply_all
  apply_all_ends w fs quiet (applying phase durable held open_phase memory news readies free) =
      let count : length w.memory.targets ≡ 4 =
        ap (λ (m : TransactionMarker). length m.targets) memory in
      after _ _ _ fs (
        Ends-gets _ w fs quiet λ fs quiet. rw count (
          after _ _ _ fs (
            apply_from_ends process b strict sound passes _ w fs quiet
              (applying phase durable held open_phase memory news readies free)
              λ w h fs quiet. commit_ends w fs quiet h)))

  -- A rollback of a run whose error is handed on.
  undo_ends :
      (Q : Unit {0} → World → Type 0) (w : World) (fs : List Fault)
      → strict ≡ false
      → IsRunning b false w
      → Ends strict Q (IsRunning b true) ((rollback_transaction >>= λ _. fail {A = Unit {0}}) w fs)
  undo_ends Q w fs lossy (running phase states held link (phase', states', memory, forth)) =
      after _ _ _ fs (
        Ends-mono
          (rollback_ends b strict states' (λ n t. absurd (strict_and_lossy strict t lossy))
            (λ t. absurd (strict_and_lossy strict t lossy)) phase phase' states w held link memory
            (λ e. absurd (forth refl e)) (λ t. absurd (strict_and_lossy strict t lossy)) fs
            (lossy-Quiet strict fs lossy))
          (λ _ w h fs quiet. Ends-fail w fs lossy (
            running Phase.rolled_back all_rolled_back h.held (λ e. absurd (cc e))
              (Phase.rolled_back, all_rolled_back, h.memory, λ e. absurd (cc e))))
          (λ w e. e))

  -- Behind the commit, a program that cannot be started again is rolled back.
  restart_ends :
      (w : World) (fs : List Fault)
      → Quiet strict fs
      → (strict ≡ true → process.restarts ≡ true)
      → IsDone b w
      → Ends strict
          (λ (_ : Unit {0}) w. IsDone b w)
          (IsRunning b true)
          ((if process.restarts then pure tt else (rollback_transaction >> fail)) w fs)
  restart_ends w fs quiet restarts h = elim (Bool-cases process.restarts) [
    | inl up ↦ rw up (Ends-pure tt w fs quiet h)
    | inr down ↦
        let lossy : strict ≡ false = lossy_of_passes strict _ restarts down in
        rw down (
          undo_ends _ w fs lossy (
            running binary_committed (forward 4) h.held (λ _. h.news)
              (binary_committed, forward 4, h.memory, λ _ e. absurd (cc e))))
  ]

  IsApplying-started :
      (w : World)
      → validate_marker (marker_of b applying_sidecars all_prepared) ≡ true
      → IsStarted b w
      → IsApplying b strict applying_sidecars 0 (record w {
        memory = marker_of b applying_sidecars all_prepared;
        marker = holds (marker_of b applying_sidecars all_prepared);
        marker_temp = missing;
      })
  IsApplying-started w v h =
      applying applying_sidecars all_prepared (Holds-written b v h.held) (λ e. absurd (cc e)) refl
        (λ q lt. absurd (omega arith)) (λ q _. h.readies q) (λ _. refl)

  -- The helper replaces the files and starts the program, or rolls back.
  pub activate_ends :
      (w : World) (fs : List Fault)
      → Quiet strict fs
      → (strict ≡ true → process.restarts ≡ true)
      → IsStarted b w
      → Ends strict (λ (_ : Unit {0}) w. IsDone b w) (IsRunning b true) (activate process w fs)
  unfolding activate
  activate_ends w fs quiet restarts h = after _ _ _ fs (
      write_ends b strict true _ helper_registered applying_sidecars all_prepared all_prepared w
        h.held (λ e. absurd (cc e)) (λ e. absurd (cc e)) (λ e. absurd (cc e))
        (with_phase applying_sidecars) fs (ap (with_phase applying_sidecars) h.memory)
        (λ _. Valid-applying b sound) (λ _. h.free) quiet
        λ v fs quiet. after _ _ _ fs (
          Ends-on_error _ _ _ fs
            (Ends-mono (apply_all_ends _ fs quiet (IsApplying-started w v h))
              (λ _ w h fs quiet. restart_ends w fs quiet restarts h) (λ w e. e))
            (λ w fs lossy e. undo_ends _ w fs lossy e) (λ w e. IsRunning-undo e)))
