-- ===== src/Updater/Recoverable/Safety.antt =====
-- A transaction of the updater, through any number of runs that end in any way.
use flist_walker.Prelude.{◌≡◌, refl, sym, ap, ◌∙◌, subst, ◌≢◌, Bool, true, false, some, List, []}
use flist_walker.Text.{Text}
use flist_walker.Updater.Exec.{Fault, done}
use flist_walker.Updater.Exec.Ends.{
  Ends, Quiet, after, Ends-pure, Ends-io, Ends-on_error, Ends-anyhow, Ends-strict, ResultOf,
}
use flist_walker.Updater.Disk.{regular}
use flist_walker.Updater.Marker.{
  TargetRole, TargetState, Phase, binary_intent, binary_committed, validate_marker,
}
use flist_walker.Updater.World.{World, MarkerFile, missing, holds, read_marker, load}
use flist_walker.Updater.Apply.{Surroundings, execute_registered_transaction}
use flist_walker.Updater.Recover.{RecoveryOutcome, ambiguous, ProcessProbe, recover_transaction}
use flist_walker.Updater.Recoverable.{
  Transaction, marker_of, Everywhere, IsClosing, IsRecoverable, live, committing, over_new,
  over_old, Holds, IsPlaced, IsNew,
}
use flist_walker.Updater.Recoverable.Validity.{forward}
use flist_walker.Updater.Recoverable.Activation.{IsDone}
use flist_walker.Updater.Recoverable.Execution.{IsPrepared, execute_ends}
use flist_walker.Updater.Recoverable.Commits.{Settles, Recovers}
use flist_walker.Updater.Recoverable.Recovery.{Finished, resolve_ends}
use flist_walker.Updater.Recoverable.Committing.{resolve_committing_ends}
use flist_walker.Updater.Recoverable.Restarts.{AreOut, start_ends}

false_true : {A : Type 0} → false ≡ true → A
false_true t = absurd (cc)

missing_result :
    (P : Unit {0} → World → Type 0) {file : MarkerFile} (w : World)
    → file ≡ missing
    → ResultOf false P (load file w)
missing_result P w e = subst (λ f. ResultOf false P (load f w)) (sym e) refl

execute_registered_transaction-IsRecoverable :
    (process : Surroundings) (b : Transaction) (token : Text) (w : World) (fs : List Fault)
    → IsPrepared b w
    → IsRecoverable b (execute_registered_transaction process token w fs).1
execute_registered_transaction-IsRecoverable process b token w fs h =
    Ends-anyhow (IsRecoverable b)
      (execute_ends process b token false w.ack (λ t. false_true t) (λ t. false_true t)
        (λ t. false_true t) (λ t. false_true t) (λ t. false_true t) w fs (λ t. false_true t) refl h)
      (λ _ w d. live binary_committed (forward 4) d.held (λ _. d.news)) (λ w e. e)

-- From a prepared transaction whose helper is acknowledged, the helper returns with every target
-- replaced, every old target in its backup and the committed marker on disk, where no call fails,
-- the parent exits and the new program starts.
pub execute_registered_transaction-IsDone :
    (process : Surroundings) (b : Transaction) (token : Text) (w : World)
    → IsPrepared b w
    → b.ident.helper_start_token ≡ some token
    → w.ack ≡ some (b.ident.transaction_id, token)
    → process.parent_exits ≡ some true
    → process.restarts ≡ true
    → ((r : TargetRole) → process.after_applied r ≡ true)
    → ((execute_registered_transaction process token w []).0 ≡ done tt)
      × IsDone b (execute_registered_transaction process token w []).1
execute_registered_transaction-IsDone process b token w h started acked exits restarts passes =
    let (_, returned, d) = Ends-strict (
      execute_ends process b token true w.ack (λ _. acked) (λ _. started) (λ _. exits)
        (λ _. restarts) (λ _. passes) w [] (λ _. refl) refl h) in
    (returned, d)

module _ (b : Transaction) (strict : Bool) (probe : ProcessProbe)
    (out : strict ≡ true → AreOut probe b.ident) where
  live_ends :
      (phase : Phase) (states : TargetRole → TargetState) (w : World) (fs : List Fault)
      → Quiet strict fs
      → Holds b phase states w
      → (phase ≡ binary_committed → Everywhere b IsNew w)
      → Finished b strict phase states w
      → Ends strict (Recovers b strict) (IsRecoverable b) (recover_transaction probe w fs)
  live_ends phase states w fs quiet held link finished =
      let held' : Holds b phase states (record w { memory = marker_of b phase states }) = record {
        own = record {
          temp = held.own.temp;
          helper = held.own.helper;
          ack = held.own.ack;
          lock = held.own.lock;
        };
        durable = held.durable;
        valid = held.valid;
        slots = held.slots;
      } in
      start_ends b strict probe (marker_of b phase states) w fs quiet held.durable held.valid
        (live phase states held link) (live phase states held' link) out
        (λ fs quiet.
          resolve_ends b strict phase states _ fs quiet
            (record { held = held'; link = link; memory = refl }) finished)

  committing_ends :
      (states : TargetRole → TargetState) (w : World) (fs : List Fault)
      → Quiet strict fs
      → IsClosing b IsPlaced binary_committed states w
      → Ends strict (Recovers b strict) (IsRecoverable b) (recover_transaction probe w fs)
  committing_ends states w fs quiet h =
      let h' : IsClosing b IsPlaced binary_committed states
          (record w { memory = marker_of b binary_committed states }) =
        record {
          own = record {
            temp = h.own.temp;
            helper = h.own.helper;
            ack = h.own.ack;
            lock = h.own.lock;
          };
          durable = h.durable;
          valid = h.valid;
          roles = h.roles;
        } in
      start_ends b strict probe (marker_of b binary_committed states) w fs quiet h.durable h.valid
        (committing states h) (committing states h') out
        (λ fs quiet.
          resolve_committing_ends b strict states _ fs quiet
            (record { closing = h'; memory = refl }))

-- Without a marker there is nothing to do.
missing_ends :
    (b : Transaction) (probe : ProcessProbe) (w : World) (fs : List Fault)
    → w.marker ≡ missing
    → IsRecoverable b w
    → Ends false
        (λ (_ : RecoveryOutcome) w. IsRecoverable b w)
        (IsRecoverable b)
        (recover_transaction probe w fs)
unfolding recover_transaction read_marker
missing_ends b probe w fs gone e =
    let lossy = λ (rest : List Fault) (t : false ≡ true). false_true {A = rest ≡ []} t in
    after _ _ _ fs (
      Ends-on_error _ _ _ fs
        (after _ _ _ fs (after _ _ _ fs (Ends-io _ w fs (lossy fs) e (missing_result _ w gone))))
        (λ w fs _ e.
          Ends-pure (some ambiguous) w fs (lossy fs) λ fs quiet. Ends-pure ambiguous w fs quiet e)
        (λ w e. e))

recover_transaction-IsRecoverable :
    (b : Transaction) (probe : ProcessProbe) (w : World) (fs : List Fault)
    → IsRecoverable b w
    → IsRecoverable b (recover_transaction probe w fs).1
recover_transaction-IsRecoverable b probe w fs (live phase states held link) =
    Ends-anyhow (IsRecoverable b)
      (live_ends b false probe (λ t. false_true t) phase states w fs (λ t. false_true t) held link
        (λ t. false_true t))
      (λ _ w r. r.0) (λ w e. e)
recover_transaction-IsRecoverable b probe w fs (committing states h) =
    Ends-anyhow (IsRecoverable b)
      (committing_ends b false probe (λ t. false_true t) states w fs (λ t. false_true t) h)
      (λ _ w r. r.0) (λ w e. e)
recover_transaction-IsRecoverable b probe w fs (over_old gone olds) =
    Ends-anyhow (IsRecoverable b) (missing_ends b probe w fs gone (over_old gone olds)) (λ _ w e. e)
      (λ w e. e)
recover_transaction-IsRecoverable b probe w fs (over_new gone news) =
    Ends-anyhow (IsRecoverable b) (missing_ends b probe w fs gone (over_new gone news)) (λ _ w e. e)
      (λ w e. e)

-- What a first run and any number of recoveries leave, each under its own faults.
pub data Reaches (start : World) : World → Type 0 where
  executed :
      (process : Surroundings) (token : Text) (fs : List Fault)
      → Reaches start (execute_registered_transaction process token start fs).1
  recovered :
      (probe : ProcessProbe) (fs : List Fault) {w : World}
      → Reaches start w
      → Reaches start (recover_transaction probe w fs).1

-- From a prepared transaction on, whatever the registered helper and any number of later recoveries
-- do, and whichever of their calls fail or are their last, where each call is done whole or not at
-- all: every target is as before or the new file, and the transaction can be taken up again, with
-- the old file still in its backup where a target is new and the update not committed, or it has
-- ended with all the old targets or with all the new ones.
pub Reaches-IsRecoverable :
    (b : Transaction) {start w : World} → IsPrepared b start → Reaches start w → IsRecoverable b w
Reaches-IsRecoverable b h (executed process token fs) =
    execute_registered_transaction-IsRecoverable process b token _ fs h
Reaches-IsRecoverable b h (recovered probe fs r) =
    recover_transaction-IsRecoverable b probe _ fs (Reaches-IsRecoverable b h r)

-- An update that stopped between the replacement of the binary and the note of it: the marker
-- cannot say that the update is committed, since it does not say that the binary is applied.
abbrev pub NotStuck : Transaction → World → Type 0
NotStuck b w =
    (states : TargetRole → TargetState)
    → w.marker ≡ holds (marker_of b binary_intent states)
    → ((r : TargetRole) → (w.disk r).target ≡ regular (b.new r))
    → validate_marker (marker_of b binary_committed states) ≡ true

-- A recovery of which no call fails, of a transaction that is recoverable and has a marker, where
-- no other process runs under the PID of its parent or of its helper, ends the transaction: it
-- rolls back or commits, and leaves no marker and no lock; unless all targets are new and the
-- marker, at the binary, does not allow the committed phase.
pub recover_transaction-Settles :
    (b : Transaction) (probe : ProcessProbe) (w : World)
    → IsRecoverable b w
    → w.marker ≢ missing
    → AreOut probe b.ident
    → NotStuck b w
    → (outcome : RecoveryOutcome) × ((recover_transaction probe w []).0 ≡ done outcome)
      × Settles b outcome (recover_transaction probe w []).1
recover_transaction-Settles b probe w (live phase states held link) marked out finished =
    let (outcome, returned, r) = Ends-strict (
      live_ends b true probe (λ _. out) phase states w [] (λ _. refl) held link
        (λ _ e news.
          finished states (held.durable ∙ ap (λ p. holds (marker_of b p states)) e) news)) in
    (outcome, returned, r.1 refl)
recover_transaction-Settles b probe w (committing states h) marked out finished =
    let (outcome, returned, r) =
      Ends-strict (committing_ends b true probe (λ _. out) states w [] (λ _. refl) h) in
    (outcome, returned, r.1 refl)
recover_transaction-Settles b probe w (over_old gone olds) marked out finished =
    absurd (marked gone)
recover_transaction-Settles b probe w (over_new gone news) marked out finished =
    absurd (marked gone)
