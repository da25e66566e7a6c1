-- ===== src/Updater/Recoverable/Committing.antt =====
-- The recovery of a transaction whose marker says that the binary is committed.
use flist_walker.Prelude.{◌≡◌, refl, sym, ap, ◌∙◌, subst, Bool, false, List, map}
use flist_walker.Updater.Exec.{Fault, ◌>>=◌}
use flist_walker.Updater.Exec.Ends.{Ends, Quiet, after, Ends-gets}
use flist_walker.Updater.Disk.{regular, digest}
use flist_walker.Updater.Marker.{
  TargetRole, order, TargetState, binary_committed, TransactionMarker,
}
use flist_walker.Updater.World.{World, missing, is_marker_file, recover_marker_update_artifacts}
use flist_walker.Updater.Recover.{classify, is_unknown, settle, classify_targets, resolve}
use flist_walker.Updater.Recoverable.{
  Transaction, marker_of, target_of, IsClosing, IsRecoverable, committing, IsPlaced, node_of,
}
use flist_walker.Updater.Recoverable.Loading.{artifacts_ends}
use flist_walker.Updater.Recoverable.Classes.{
  class_of, classify_ends, targets_all_new, none_unknown, target_placed, new_known,
}
use flist_walker.Updater.Recoverable.Commits.{Recovers, commit_ends}

-- A marker that says that the binary is committed.
module _ (b : Transaction) (strict : Bool) (states : TargetRole → TargetState) where
  pub record IsCommitting (w : World) : Type 0 where
    pub closing : IsClosing b IsPlaced binary_committed states w
    pub memory : w.memory ≡ marker_of b binary_committed states

  IsCommitting-untemp :
      (w : World) → IsCommitting w → IsCommitting (record w { marker_temp = missing })
  IsCommitting-untemp w h = record {
    closing = record {
      own = record {
        temp = refl;
        helper = h.closing.own.helper;
        ack = h.closing.own.ack;
        lock = h.closing.own.lock;
      };
      durable = h.closing.durable;
      valid = h.closing.valid;
      roles = h.closing.roles;
    };
    memory = h.memory;
  }

  placed_at :
      (w : World) → IsCommitting w → (r : TargetRole) → (w.disk r).target ≡ regular (b.new r)
  placed_at w h r = target_placed (h.closing.roles r)

  placed_digest :
      (w : World)
      → IsCommitting w
      → (r : TargetRole) → (w.disk r).target ≡ node_of (digest (w.disk r).target)
  placed_digest w h r = placed_at w h r ∙ sym (ap (λ n. node_of (digest n)) (placed_at w h r))

  placed_known :
      (w : World) → IsCommitting w → (r : TargetRole) → is_unknown (class_of b states w r) ≡ false
  placed_known w h r =
      ap (λ n. is_unknown (classify (target_of r (b.old r) (b.new r) (states r)) (digest n)))
        (placed_at w h r)
      ∙ new_known r (b.new r) (states r) (b.old r)

  settle_committing_ends :
      (w : World) (fs : List Fault)
      → Quiet strict fs
      → w.marker_temp ≡ missing
      → IsCommitting w
      → Ends strict
          (Recovers b strict)
          (IsRecoverable b)
          (settle binary_committed (map (class_of b states w) order) w fs)
  settle_committing_ends w fs quiet free h =
      let c = h.closing in
      rw (none_unknown b states w (placed_known w h), targets_all_new b states w (placed_at w h))
        (commit_ends b strict states binary_committed w fs quiet c.own (ap is_marker_file c.durable)
          h.memory free c.roles
          (λ temp t. committing states (record {
            own = record { temp = t; helper = c.own.helper; ack = c.own.ack; lock = c.own.lock };
            durable = c.durable;
            valid = c.valid;
            roles = c.roles;
          }))
          (λ _. c.valid))

  pub resolve_committing_ends :
      (w : World) (fs : List Fault)
      → Quiet strict fs
      → IsCommitting w
      → Ends strict (Recovers b strict) (IsRecoverable b) (resolve w fs)
  unfolding resolve
  resolve_committing_ends w fs quiet h = after _ _ _ fs (
      Ends-gets _ w fs quiet λ fs quiet.
        subst
          (λ (m : TransactionMarker). Ends strict (Recovers b strict) (IsRecoverable b) (
            (recover_marker_update_artifacts m >>= λ _.
            classify_targets m.targets >>= λ classes. settle m.phase classes)
              w fs))
          (sym h.memory)
          (after _ _ _ fs (
            artifacts_ends IsCommitting (λ w k. committing states k.closing) IsCommitting-untemp
              (λ w k free fs quiet. after _ _ _ fs (
                classify_ends b states w order fs (placed_digest w k) (committing states k.closing)
                  quiet (λ fs quiet. settle_committing_ends w fs quiet free k)))
              (marker_of b binary_committed states) w fs h.closing.own.temp quiet h)))
