-- ===== src/Updater/Recoverable/Stuck.antt =====
-- An update that stopped between the replacement of the binary and the note of it in the marker.
use flist_walker.Prelude.{
  ℕ, ◌≡◌, refl, sym, ap, subst, ◌⊎◌, inl, inr, Bool, true, false, ◌||◌, not, Option, none, some,
  List, [], map, if◌then◌else◌, if_both,
}
use flist_walker.Updater.Exec.{Exec, Fault, Outcome, done, ◌>>=◌}
use flist_walker.Updater.Exec.Ends.{
  Ends, Quiet, after, Ends-pure, Ends-gets, Ends-on_error, Ends-anyhow, Ends-result,
}
use flist_walker.Updater.Disk.{regular, digest, hash_eq}
use flist_walker.Updater.Marker.{
  TargetRole, order, TargetState, binary_intent, binary_committed, helper_registered, phase_eq,
  TransactionMarker, validate_marker,
}
use flist_walker.Updater.World.{
  World, MarkerFile, missing, is_marker_file, is_own_artifact, recover_marker_update_artifacts,
}
use flist_walker.Updater.Rollback.{with_phase}
use flist_walker.Updater.Cleanup.{is_ack}
use flist_walker.Text.{Text}
use flist_walker.Updater.Recover.{
  RecoveryOutcome, deferred, ambiguous, ProcessProbe, or_else, settle, classify_targets, commit,
  resolve, recover_loaded, recover_transaction, live_outcome, live_helper_outcome, other_process,
  own_helper_outcome,
}
use flist_walker.Updater.Recoverable.{Transaction, marker_of, Holds}
use flist_walker.Updater.Recoverable.Writing.{write_over_ends}
use flist_walker.Updater.Recoverable.Loading.{read_marker_ends, artifacts_ends}
use flist_walker.Updater.Recoverable.Classes.{
  class_of, classify_ends, targets_all_new, none_unknown, slot_digest, slot_known,
}

-- The marker has come to the binary, every target is new, and yet the states of the marker do not
-- allow it to say that the update is committed.
pub record IsStuck (b : Transaction) (states : TargetRole → TargetState) (w : World) : Type 0 where
  pub held : Holds b binary_intent states w
  pub news : (r : TargetRole) → (w.disk r).target ≡ regular (b.new r)
  pub refused : validate_marker (marker_of b binary_committed states) ≡ false

abbrev pub LeavesOpen : RecoveryOutcome → Type 0
LeavesOpen outcome = (outcome ≡ deferred) ⊎ (outcome ≡ ambiguous)

-- What the tests on processes can decide.
own_helper_open :
    (probe : ProcessProbe) (pid : ℕ) (w : World) → LeavesOpen (own_helper_outcome probe pid w)
own_helper_open probe pid w =
    if_both LeavesOpen
      (not (hash_eq (digest w.helper) (some w.memory.helper_hash))
        || not (probe.executable_matches pid))
      (λ _. inr refl) (λ _. by_ack w.ack)
  where
    by_ack :
        (ack : Option (Text × Text))
        → LeavesOpen (elim ack [
          | none ↦ if phase_eq w.memory.phase helper_registered then deferred else ambiguous
          | some ack ↦
              if is_ack w.memory
                (elim w.memory.helper_start_token [ none ↦ [] | some t ↦ t ])
                (some ack)
              then deferred
              else ambiguous
        ])
    by_ack none =
        if_both LeavesOpen (phase_eq w.memory.phase helper_registered) (λ _. inl refl)
          (λ _. inr refl)
    by_ack (some ack) =
        if_both LeavesOpen (is_ack w.memory _ (some ack)) (λ _. inl refl) (λ _. inr refl)

-- What a test on processes that ends the recovery says.
abbrev pub IsOpen : Option RecoveryOutcome → Type 0
IsOpen none = Unit {0}
IsOpen (some outcome) = LeavesOpen outcome

pub live_outcome-IsOpen : (probe : ProcessProbe) (w : World) → IsOpen (live_outcome probe w)
unfolding live_outcome
live_outcome-IsOpen probe w =
    if_both IsOpen (other_process probe w.memory.parent_pid) (λ _. inl refl)
      (λ _. by_helper w.memory.helper_pid)
  where
    by_helper : (pid : Option ℕ) → IsOpen (live_helper_outcome probe pid w)
    by_helper none = tt
    by_helper (some pid) =
        if_both IsOpen (other_process probe pid) (λ _. own_helper_open probe pid w) (λ _. tt)

refused_valid : {A : Type 0} {t : Bool} → t ≡ false → t ≡ true → A
refused_valid f t = absurd (cc)

module _ (b : Transaction) (states : TargetRole → TargetState) where
  -- A change that leaves the files of the targets and the marker alone.
  stays :
      (w : World) (memory : TransactionMarker) (temp : MarkerFile)
      → is_own_artifact b.ident temp ≡ true
      → IsStuck b states w
      → IsStuck b states (record w { memory = memory; marker_temp = temp })
  stays w memory temp t h = record {
    held = record {
      own = record {
        temp = t;
        helper = h.held.own.helper;
        ack = h.held.own.ack;
        lock = h.held.own.lock;
      };
      durable = h.held.durable;
      valid = h.held.valid;
      slots = h.held.slots;
    };
    news = h.news;
    refused = h.refused;
  }

  abbrev Loaded : World → Type 0
  Loaded w = IsStuck b states w × (w.memory ≡ marker_of b binary_intent states)

  abbrev Open : RecoveryOutcome → World → Type 0
  Open outcome w = LeavesOpen outcome × IsStuck b states w

  abbrev EndsOpen : Outcome RecoveryOutcome × World × List Fault → Type 0
  EndsOpen = Ends false Open (IsStuck b states)

  quiet : (fs : List Fault) → Quiet false fs
  quiet fs t = absurd (cc t)

  -- The write of the committed phase is refused.
  commit_open : (w : World) (fs : List Fault) → Loaded w → EndsOpen (commit w fs)
  unfolding commit
  commit_open w fs h = after _ _ _ fs (
      write_over_ends b false _ (IsStuck b states) binary_committed states w h.0.held.own.temp
        (subst (λ f. is_marker_file f ≡ true) (sym h.0.held.durable) refl)
        (λ temp t. stays w _ temp t h.0) (λ v. refused_valid h.0.refused v)
        (λ s e. stays s s.memory missing refl e) (with_phase binary_committed) fs
        (ap (with_phase binary_committed) h.1) (λ t. absurd (cc t)) (λ t. absurd (cc t)) (quiet fs)
        (λ v. refused_valid h.0.refused v))

  settle_open :
      (w : World) (fs : List Fault)
      → Loaded w
      → EndsOpen (settle binary_intent (map (class_of b states w) order) w fs)
  settle_open w fs h =
      rw
        (
          none_unknown b states w
              (λ r. slot_known r (b.new r) (states r) (b.old r) (h.0.held.slots r)),
          targets_all_new b states w h.0.news,
        )
        (commit_open w fs h)

  abbrev resolve_with : TransactionMarker → Exec World RecoveryOutcome
  resolve_with marker = recover_marker_update_artifacts marker >>= λ _.
      classify_targets marker.targets >>= λ classes. settle marker.phase classes

  resolve_with_open :
      (w : World) (fs : List Fault)
      → Loaded w
      → EndsOpen (resolve_with (marker_of b binary_intent states) w fs)
  resolve_with_open w fs h = after _ _ _ fs (
      artifacts_ends Loaded (λ w k. k.0) (λ w k. (stays w w.memory missing refl k.0, k.1))
        (λ w k _ fs quiet. after _ _ _ fs (
          classify_ends b states w order fs (λ r. slot_digest (k.0.held.slots r)) k.0 quiet
            (λ fs _. settle_open w fs k)))
        (marker_of b binary_intent states) w fs h.0.held.own.temp (quiet fs) h)

  Loaded-open :
      (probe : ProcessProbe) (w : World) (fs : List Fault)
      → Loaded w
      → EndsOpen (recover_loaded probe w fs)
  unfolding recover_loaded resolve
  Loaded-open probe w fs h = after _ _ _ fs (
      Ends-gets _ w fs (quiet fs)
        λ fs _. by_probe fs (live_outcome probe w) (live_outcome-IsOpen probe w))
    where
      by_probe :
          (fs : List Fault) (o : Option RecoveryOutcome)
          → IsOpen o
          → EndsOpen (or_else resolve o w fs)
      by_probe fs none u = after _ _ _ fs (
          Ends-gets _ w fs (quiet fs) λ fs _.
            subst (λ marker. EndsOpen (resolve_with marker w fs)) (sym h.1)
              (resolve_with_open w fs h))
      by_probe fs (some outcome) u = Ends-pure outcome w fs (quiet fs) (u, h.0)

  recover_open :
      (probe : ProcessProbe) (w : World) (fs : List Fault)
      → IsStuck b states w
      → EndsOpen (recover_transaction probe w fs)
  unfolding recover_transaction
  recover_open probe w fs h =
      let h' = stays w (marker_of b binary_intent states) w.marker_temp h.held.own.temp h in
      after _ _ _ fs (
        Ends-on_error _ _ _ fs
          (after _ _ _ fs (
            read_marker_ends (marker_of b binary_intent states) w fs h.held.durable h.held.valid
              (quiet fs) h h'
              λ fs quiet. Ends-pure none _ fs quiet λ fs _. Loaded-open probe _ fs (h', refl)))
          (λ w fs _ e.
            Ends-pure (some ambiguous) w fs (quiet fs)
              λ fs quiet. Ends-pure ambiguous w fs quiet (inr refl, e))
          (λ w e. e))

-- Where all targets are new and the marker, at the binary, does not allow the committed phase, no
-- recovery ends the transaction, whatever processes live and whichever calls fail: what it returns,
-- if anything, is that it is deferred or ambiguous, and the transaction stays as it is.
pub recover_transaction-IsStuck :
    (b : Transaction) (states : TargetRole → TargetState) (probe : ProcessProbe) (w : World)
    (fs : List Fault)
    → IsStuck b states w
    → IsStuck b states (recover_transaction probe w fs).1
      × ((outcome : RecoveryOutcome)
          → (recover_transaction probe w fs).0 ≡ done outcome
          → LeavesOpen outcome)
recover_transaction-IsStuck b states probe w fs h = (
  Ends-anyhow (IsStuck b states) (recover_open b states probe w fs h) (λ _ w k. k.1) (λ w e. e),
  Ends-result LeavesOpen (recover_open b states probe w fs h) (λ _ w k. k.0),
)
