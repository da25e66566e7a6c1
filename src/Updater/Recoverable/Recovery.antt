-- ===== src/Updater/Recoverable/Recovery.antt =====
-- `recover_transaction`: what holds however it ends, and that it ends the transaction.
use flist_walker.Prelude.{
  ◌≡◌, refl, sym, ap, subst, Bool, true, false, ◌&&◌, ◌||◌, List, map, all, if◌then◌else◌,
}
use flist_walker.Updater.Exec.{Exec, Fault, pure, ◌>>=◌}
use flist_walker.Updater.Exec.Ends.{
  Ends, Quiet, lossy-Quiet, after, Ends-pure, Ends-gets, Ends-on_error, Ends-mono,
}
use flist_walker.Updater.Disk.{regular, digest}
use flist_walker.Updater.Marker.{
  TargetRole, order, TargetState, Phase, prepared_parent_owned, helper_registered,
  applying_sidecars, binary_intent, binary_committed, rolling_back, phase_eq, TransactionMarker,
  validate_marker,
}
use flist_walker.Updater.World.{
  World, MarkerFile, missing, is_marker_file, is_own_artifact, recover_marker_update_artifacts,
}
use flist_walker.Updater.Recover.{
  RecoveryOutcome, rolled_back, ambiguous, TargetClassification, is_new, roll_back, settle, commit,
  resolve, classify_targets,
}
use flist_walker.Updater.Recoverable.{
  Transaction, marker_of, Everywhere, IsRecoverable, live, over_old, Holds, IsNew, node_of,
}
use flist_walker.Updater.Recoverable.Writing.{halfway}
use flist_walker.Updater.Recoverable.Writes.{Holds-temp}
use flist_walker.Updater.Recoverable.Rollbacks.{rollback_ends}
use flist_walker.Updater.Recoverable.Suffixes.{valid_rolling, valid_rolled_back}
use flist_walker.Updater.Recoverable.Loading.{artifacts_ends}
use flist_walker.Updater.Recoverable.Activation.{
  IsRecoverable-IsRunning, cleanup_rolled_back_ends, strict_and_lossy, target_new,
}
use flist_walker.Updater.Recoverable.Classes.{
  class_of, classify_ends, all_new_targets, targets_all_new, none_unknown, slot_digest, slot_known,
  slot-IsPlaced,
}
use flist_walker.Updater.Recoverable.Commits.{settles_old, Recovers, commit_ends}

committed_of_eq :
    (phase : Phase) → phase_eq phase binary_committed ≡ true → phase ≡ binary_committed
committed_of_eq binary_committed h = refl
committed_of_eq prepared_parent_owned h = cc
committed_of_eq helper_registered h = cc
committed_of_eq applying_sidecars h = cc
committed_of_eq binary_intent h = cc
committed_of_eq rolling_back h = cc
committed_of_eq Phase.rolled_back h = cc

intent_of_eq : (phase : Phase) → phase_eq phase binary_intent ≡ true → phase ≡ binary_intent
intent_of_eq binary_intent h = refl
intent_of_eq prepared_parent_owned h = cc
intent_of_eq helper_registered h = cc
intent_of_eq applying_sidecars h = cc
intent_of_eq binary_committed h = cc
intent_of_eq rolling_back h = cc
intent_of_eq Phase.rolled_back h = cc

not_both : {A : Type 0} {t : Bool} → t ≡ false → t ≡ true → A
not_both f t = absurd (cc)

module _ (b : Transaction) (strict : Bool) (phase : Phase) (states : TargetRole → TargetState) where
  -- The marker is in the variable.
  pub record IsLoaded (w : World) : Type 0 where
    pub held : Holds b phase states w
    pub link : phase ≡ binary_committed → Everywhere b IsNew w
    pub memory : w.memory ≡ marker_of b phase states

  pub IsLoaded-untemp : (w : World) → IsLoaded w → IsLoaded (record w { marker_temp = missing })
  IsLoaded-untemp w h = record {
    held = Holds-temp b missing refl h.held;
    link = h.link;
    memory = h.memory;
  }

  recoverable : (w : World) → IsLoaded w → IsRecoverable b w
  recoverable w h = live phase states h.held h.link

  -- No commit was under way, and every target is put back.
  roll_back_ends :
      (w : World) (fs : List Fault)
      → Quiet strict fs
      → w.marker_temp ≡ missing
      → IsLoaded w
      → Ends strict (Recovers b strict) (IsRecoverable b) (roll_back w fs)
  unfolding roll_back
  roll_back_ends w fs quiet free h =
      Ends-on_error _ _ _ fs
        (after _ _ _ fs (
          after _ _ _ fs (
            Ends-mono
              (rollback_ends b strict states (λ n _. valid_rolling b phase states h.held.valid n)
                (λ _. valid_rolled_back b phase states h.held.valid) phase phase states w h.held
                h.link h.memory (λ e c. rolling_not_committed phase e c) (λ _. free) fs quiet)
              (λ _ w undone fs quiet.
                Ends-mono (cleanup_rolled_back_ends b strict w fs quiet undone)
                  (λ _ w gone fs quiet.
                    Ends-pure rolled_back w fs quiet
                      (over_old gone.0 gone.2, λ _. settles_old gone.0 gone.1 gone.2))
                  (λ w e. e))
              (λ w e. IsRecoverable-IsRunning e))))
        (λ w fs lossy e.
          Ends-pure ambiguous w fs (lossy-Quiet strict fs lossy)
            (e, λ t. absurd (strict_and_lossy strict t lossy)))
        (λ w e. e)
    where
      rolling_not_committed : (p : Phase) → p ≡ rolling_back → p ≡ binary_committed → ⊥
      rolling_not_committed p e c = cc

  abbrev pub AllNew : World → Type 0
  AllNew w = (r : TargetRole) → (w.disk r).target ≡ regular (b.new r)

  commit_all_ends :
      (w : World) (fs : List Fault)
      → Quiet strict fs
      → w.marker_temp ≡ missing
      → IsLoaded w
      → AllNew w
      → (strict ≡ true → validate_marker (marker_of b binary_committed states) ≡ true)
      → Ends strict (Recovers b strict) (IsRecoverable b) (commit w fs)
  commit_all_ends w fs quiet free h news good =
      commit_ends b strict states phase w fs quiet h.held.own (ap is_marker_file h.held.durable)
        h.memory free (λ r. slot-IsPlaced (h.held.slots r) (news r))
        (λ temp t. live phase states (halfway_holds temp t) h.link) good
    where
      halfway_holds :
          (temp : MarkerFile)
          → is_own_artifact b.ident temp ≡ true
          → Holds b phase states (halfway w (marker_of b binary_committed states) temp)
      halfway_holds temp t = record {
        own = record {
          temp = t;
          helper = h.held.own.helper;
          ack = h.held.own.ack;
          lock = h.held.own.lock;
        };
        durable = h.held.durable;
        valid = h.held.valid;
        slots = h.held.slots;
      }

  module _ (w : World) (free : w.marker_temp ≡ missing) (h : IsLoaded w)
      (finished : strict ≡ true
        → phase ≡ binary_intent
        → AllNew w
        → validate_marker (marker_of b binary_committed states) ≡ true) where
    abbrev classes : List TargetClassification
    classes = map (class_of b states w) order

    at : (r : TargetRole) → (w.disk r).target ≡ node_of (digest (w.disk r).target)
    at r = slot_digest (h.held.slots r)

    -- By the two tests on the phase and the one on the classifications.
    decide_ends :
        (is_committed is_intent every_new : Bool) (fs : List Fault)
        → phase_eq phase binary_committed ≡ is_committed
        → phase_eq phase binary_intent ≡ is_intent
        → all is_new classes ≡ every_new
        → Quiet strict fs
        → Ends strict (Recovers b strict) (IsRecoverable b) (
            (if is_committed || (is_intent && every_new)
                then (if every_new then commit else pure ambiguous)
                else roll_back)
              w fs)
    decide_ends true is_intent true fs c i n quiet =
        commit_all_ends w fs quiet free h (all_new_targets b states w at n) (λ _.
          subst (λ p. validate_marker (marker_of b p states) ≡ true) (committed_of_eq phase c)
            h.held.valid)
    decide_ends true is_intent false fs c i n quiet =
        not_both n
          (targets_all_new b states w (λ r. target_new (h.link (committed_of_eq phase c) r)))
    decide_ends false true true fs c i n quiet =
        let news = all_new_targets b states w at n in
        commit_all_ends w fs quiet free h news (λ t. finished t (intent_of_eq phase i) news)
    decide_ends false true false fs c i n quiet = roll_back_ends w fs quiet free h
    decide_ends false false every_new fs c i n quiet = roll_back_ends w fs quiet free h

    settle_ends :
        (fs : List Fault)
        → Quiet strict fs
        → Ends strict (Recovers b strict) (IsRecoverable b) (settle phase classes w fs)
    settle_ends fs quiet =
        rw
          (none_unknown b states w
            (λ r. slot_known r (b.new r) (states r) (b.old r) (h.held.slots r)))
          (decide_ends (phase_eq phase binary_committed) (phase_eq phase binary_intent)
            (all is_new classes) fs refl refl refl quiet)

  abbrev pub Finished : World → Type 0
  Finished w =
      strict ≡ true
      → phase ≡ binary_intent
      → AllNew w
      → validate_marker (marker_of b binary_committed states) ≡ true

  abbrev resolve_with : TransactionMarker → Exec World RecoveryOutcome
  resolve_with marker = recover_marker_update_artifacts marker >>= λ _.
      classify_targets marker.targets >>= λ classes. settle marker.phase classes

  resolve_with_ends :
      (w : World) (fs : List Fault)
      → Quiet strict fs
      → IsLoaded w
      → Finished w
      → Ends strict
          (Recovers b strict)
          (IsRecoverable b)
          (resolve_with (marker_of b phase states) w fs)
  resolve_with_ends w fs quiet h finished = after _ _ _ fs (
      artifacts_ends (λ w. IsLoaded w × Finished w) (λ w k. recoverable w k.0)
        (λ w k. (IsLoaded-untemp w k.0, k.1))
        (λ w k free fs quiet. after _ _ _ fs (
          classify_ends b states w order fs (λ r. slot_digest (k.0.held.slots r))
            (recoverable w k.0) quiet (λ fs quiet. settle_ends w free k.0 k.1 fs quiet)))
        (marker_of b phase states) w fs h.held.own.temp quiet (h, finished))

  -- Behind the tests on processes.
  pub resolve_ends :
      (w : World) (fs : List Fault)
      → Quiet strict fs
      → IsLoaded w
      → Finished w
      → Ends strict (Recovers b strict) (IsRecoverable b) (resolve w fs)
  unfolding resolve
  resolve_ends w fs quiet h finished = after _ _ _ fs (
      Ends-gets _ w fs quiet λ fs quiet.
        subst
          (λ marker. Ends strict (Recovers b strict) (IsRecoverable b) (resolve_with marker w fs))
          (sym h.memory) (resolve_with_ends w fs quiet h finished))
