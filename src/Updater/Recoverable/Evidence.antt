-- ===== src/Updater/Recoverable/Evidence.antt =====
-- A recovery that finds a file which the transaction does not know leaves everything as it is.
use flist_walker.Prelude.{
  ◌≡◌, refl, sym, ap, ◌∙◌, subst, inr, Bool, true, false, ◌||◌, Option, none, some, List, [], ◌∷◌,
  any,
}
use flist_walker.Text.{Text}
use flist_walker.Updater.Exec.{Exec, Fault, Outcome, done, ◌>>=◌}
use flist_walker.Updater.Exec.Ends.{
  Ends-read, Ends, Quiet, after, Ends-pure, Ends-gets, Ends-io, Ends-ensure, Ends-on_error,
  Ends-anyhow, Ends-result, Ends-mono, ResultOf,
}
use flist_walker.Updater.Disk.{
  Node, absent, regular, other, digest, optional_digest, paired, hash_if_regular, sync,
}
use flist_walker.Updater.Marker.{TargetRecord, TransactionMarker}
use flist_walker.Updater.World.{
  World, MarkerFile, missing, holds, unreadable, load, read_marker, remove_artifact,
  recover_marker_update_artifacts,
}
use flist_walker.Updater.Recover.{
  RecoveryOutcome, ambiguous, ProcessProbe, TargetClassification, classify, is_unknown, settle,
  classify_target, classify_targets, or_else, resolve, recover_loaded, recover_transaction,
  live_outcome,
}
use flist_walker.Updater.Recoverable.Stuck.{LeavesOpen, IsOpen, live_outcome-IsOpen}

-- Some target is neither the old file nor the new one.
abbrev pub has_unknown : World → List TargetRecord → Bool
has_unknown w targets =
    any (λ target. is_unknown (classify target (digest (w.disk target.role).target))) targets

-- All that is on disk, but for the temporary file of the marker.
pub record SameEvidence (w w' : World) : Type 0 where
  pub same_marker : w'.marker ≡ w.marker
  pub same_disk : w'.disk ≡ w.disk
  pub same_ack : w'.ack ≡ w.ack
  pub same_helper : w'.helper ≡ w.helper
  pub same_lock : w'.lock ≡ w.lock

evidence_in :
    (start w : World) (memory : TransactionMarker) (temp : MarkerFile)
    → SameEvidence start w
    → SameEvidence start (record w { memory = memory; marker_temp = temp })
evidence_in start w memory temp h = record {
  same_marker = h.same_marker;
  same_disk = h.same_disk;
  same_ack = h.same_ack;
  same_helper = h.same_helper;
  same_lock = h.same_lock;
}

quiet : (fs : List Fault) → Quiet false fs
quiet fs t = absurd (cc t)

-- The classification asks every target, and changes nothing.
module _ (P : World → Type 0) where
  hash_result :
      (Q : Option Text → World → Type 0) (n : Node) (w : World)
      → Q (digest n) w
      → ResultOf false Q (paired (optional_digest n) w)
  hash_result Q absent w h = h
  hash_result Q (regular hash) w h = h
  hash_result Q other w h = refl

  classify_all :
      (targets : List TargetRecord) (w : World) (fs : List Fault)
      → P w
      → Ends false
          (λ classes w'. P w' × (any is_unknown classes ≡ has_unknown w targets))
          P
          (classify_targets targets w fs)
  unfolding classify_targets classify_target hash_if_regular
  classify_all [] w fs p = Ends-pure [] w fs (quiet fs) (p, refl)
  classify_all (target ∷ targets) w fs p = after _ _ _ fs (
      after _ _ _ fs (
        Ends-io _ w fs (quiet fs) p (
          hash_result _ (w.disk target.role).target w λ fs _. Ends-pure _ w fs (quiet fs) λ fs _.
            after _ _ _ fs (
              Ends-mono (classify_all targets w fs p)
                (λ classes w' k fs _. Ends-pure _ w' fs (quiet fs) (
                  k.0,
                  ap (λ t. is_unknown (classify target (digest (w.disk target.role).target)) || t)
                      k.1,
                ))
                (λ w' e. e)))))

module _ (start : World) (marker : TransactionMarker) (at : start.marker ≡ holds marker)
    (strange : has_unknown start marker.targets ≡ true) where
  abbrev EndsOpen : Outcome RecoveryOutcome × World × List Fault → Type 0
  EndsOpen =
      Ends false (λ outcome w. LeavesOpen outcome × SameEvidence start w) (SameEvidence start)

  -- The marker is in the variable.
  abbrev Loaded : World → Type 0
  Loaded w = SameEvidence start w × (w.memory ≡ marker)

  settle_open :
      (classes : List TargetClassification) (w : World) (fs : List Fault)
      → any is_unknown classes ≡ true
      → SameEvidence start w
      → EndsOpen (settle marker.phase classes w fs)
  settle_open classes w fs unknown h =
      rw unknown (Ends-pure ambiguous w fs (quiet fs) (inr refl, h))

  still_strange : (w : World) → SameEvidence start w → has_unknown w marker.targets ≡ true
  still_strange w h =
      subst
        (λ disk.
          any (λ target. is_unknown (classify target (digest (disk target.role).target)))
            marker.targets
          ≡ true)
        (sym h.same_disk) strange

  abbrev resolve_with : TransactionMarker → Exec World RecoveryOutcome
  resolve_with m = recover_marker_update_artifacts m >>= λ _.
      classify_targets m.targets >>= λ classes. settle m.phase classes

  classified_open :
      (w : World) (fs : List Fault)
      → SameEvidence start w
      → EndsOpen ((classify_targets marker.targets >>= λ classes. settle marker.phase classes) w fs)
  classified_open w fs h = after _ _ _ fs (
      Ends-mono (classify_all (SameEvidence start) marker.targets w fs h)
        (λ classes w' k fs _. settle_open classes w' fs (k.1 ∙ still_strange w h) k.0) (λ w' e. e))

  artifact_result :
      (Q : Unit {0} → World → Type 0) (temp : MarkerFile) (w : World)
      → Q tt w
      → Q tt (record w { marker_temp = missing })
      → ResultOf false Q (remove_artifact temp w)
  artifact_result Q missing w same gone = same
  artifact_result Q (holds m) w same gone = gone
  artifact_result Q unreadable w same gone = gone

  resolve_open :
      (w : World) (fs : List Fault) → SameEvidence start w → EndsOpen (resolve_with marker w fs)
  unfolding recover_marker_update_artifacts sync
  resolve_open w fs h = after _ _ _ fs (
      after _ _ _ fs (
        Ends-read _ w fs (quiet fs) h λ fs _. after _ _ _ fs (
          Ends-ensure _ w fs (quiet fs) h (λ t. absurd (cc t))
            λ _ fs _. after _ _ _ fs (
              Ends-io _ w fs (quiet fs) h (
                artifact_result _ w.marker_temp w
                  (λ fs _. Ends-io _ w fs (quiet fs) h λ fs _. classified_open w fs h)
                  (λ fs _.
                    Ends-io _ _ fs (quiet fs) (evidence_in start w w.memory missing h)
                      λ fs _. classified_open _ fs (evidence_in start w w.memory missing h)))))))

  Loaded-open :
      (probe : ProcessProbe) (w : World) (fs : List Fault)
      → Loaded w
      → EndsOpen (recover_loaded probe w fs)
  unfolding recover_loaded resolve
  Loaded-open probe w fs h = after _ _ _ fs (
      Ends-gets _ w fs (quiet fs)
        λ fs _. by_probe fs (live_outcome probe w) (live_outcome-IsOpen probe w))
    where
      by_probe :
          (fs : List Fault) (o : Option RecoveryOutcome)
          → IsOpen o
          → EndsOpen (or_else resolve o w fs)
      by_probe fs none u = after _ _ _ fs (
          Ends-gets _ w fs (quiet fs)
            λ fs _. subst (λ m. EndsOpen (resolve_with m w fs)) (sym h.1) (resolve_open w fs h.0))
      by_probe fs (some outcome) u = Ends-pure outcome w fs (quiet fs) (u, h.0)

  read_result :
      (Q : Unit {0} → World → Type 0)
      → Q tt (record start { memory = marker })
      → ResultOf false Q (load start.marker start)
  read_result Q q = subst (λ file. ResultOf false Q (load file start)) (sym at) q

  recover_open :
      (probe : ProcessProbe) (fs : List Fault) → EndsOpen (recover_transaction probe start fs)
  unfolding recover_transaction read_marker
  recover_open probe fs =
      let same : SameEvidence start start = record {
        same_marker = refl;
        same_disk = refl;
        same_ack = refl;
        same_helper = refl;
        same_lock = refl;
      } in
      let same' = evidence_in start start marker start.marker_temp same in
      after _ _ _ fs (
        Ends-on_error _ _ _ fs
          (after _ _ _ fs (
            after _ _ _ fs (
              Ends-io _ start fs (quiet fs) same (
                read_result _ λ fs _. after _ _ _ fs (
                  Ends-gets _ _ fs (quiet fs) λ fs _.
                    Ends-ensure _ _ fs (quiet fs) same' (λ t. absurd (cc t))
                      λ _ fs _.
                        Ends-pure none _ fs (quiet fs)
                          λ fs _. Loaded-open probe _ fs (same', refl))))))
          (λ w fs _ e.
            Ends-pure (some ambiguous) w fs (quiet fs)
              λ fs quiet. Ends-pure ambiguous w fs quiet (inr refl, e))
          (λ w e. e))

-- Where a target of the marker on disk is neither the old file nor the new one, a recovery keeps
-- the evidence, whatever processes live and whichever calls fail: it changes nothing on disk but
-- the temporary file of the marker, and what it returns, if anything, is that it is deferred or
-- ambiguous.
pub recover_transaction-SameEvidence :
    (marker : TransactionMarker) (probe : ProcessProbe) (w : World) (fs : List Fault)
    → w.marker ≡ holds marker
    → has_unknown w marker.targets ≡ true
    → SameEvidence w (recover_transaction probe w fs).1
      × ((outcome : RecoveryOutcome)
          → (recover_transaction probe w fs).0 ≡ done outcome
          → LeavesOpen outcome)
recover_transaction-SameEvidence marker probe w fs at strange = (
  Ends-anyhow (SameEvidence w) (recover_open w marker at strange probe fs) (λ _ w k. k.1)
      (λ w e. e),
  Ends-result LeavesOpen (recover_open w marker at strange probe fs) (λ _ w k. k.0),
)
