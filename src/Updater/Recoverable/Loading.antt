-- ===== src/Updater/Recoverable/Loading.antt =====
-- The first steps of the helper and of the recovery: the marker is read, and what an interrupted
-- write of it has left is removed.
use flist_walker.Prelude.{◌≡◌, refl, sym, subst, Bool, true, List}
use flist_walker.Updater.Exec.{Fault}
use flist_walker.Updater.Exec.Ends.{
  Ends-read, Ends, Quiet, after, Ends-ensure, Ends-gets, Ends-io, ResultOf,
}
use flist_walker.Updater.Disk.{sync}
use flist_walker.Updater.Marker.{TransactionMarker, validate_marker}
use flist_walker.Updater.World.{
  World, MarkerFile, missing, holds, unreadable, load, read_marker, is_own_artifact,
  remove_artifact, recover_marker_update_artifacts,
}

load_result :
    (strict : Bool) (P : Unit {0} → World → Type 0) (marker : TransactionMarker) (file : MarkerFile)
    (w : World)
    → file ≡ holds marker
    → P tt (record w { memory = marker })
    → ResultOf strict P (load file w)
load_result strict P marker file w at h = subst (λ file. ResultOf strict P (load file w)) (sym at) h

remove_result :
    (strict : Bool) (P : Unit {0} → World → Type 0) (temp : MarkerFile) (w : World)
    → (temp ≡ missing → P tt w)
    → P tt (record w { marker_temp = missing })
    → ResultOf strict P (remove_artifact temp w)
remove_result strict P missing w same gone = same refl
remove_result strict P (holds m) w same gone = gone
remove_result strict P unreadable w same gone = gone

module _ {strict : Bool} {Q : Unit {0} → World → Type 0} {E : World → Type 0} where
  pub read_marker_ends :
      (marker : TransactionMarker) (w : World) (fs : List Fault)
      → w.marker ≡ holds marker
      → validate_marker marker ≡ true
      → Quiet strict fs
      → E w
      → E (record w { memory = marker })
      → Q tt (record w { memory = marker })
      → Ends strict Q E (read_marker w fs)
  unfolding read_marker
  read_marker_ends marker w fs at v quiet e e' q = after _ _ _ fs (
      Ends-io _ w fs quiet e (
        load_result strict _ marker w.marker w at λ fs quiet.
          after _ _ _ fs
            (Ends-gets _ _ fs quiet λ fs quiet. Ends-ensure _ _ fs quiet e' (λ _. v) (λ _. q))))

  module _ (K : World → Type 0) (lose : (w : World) → K w → E w)
      (untemp : (w : World) → K w → K (record w { marker_temp = missing }))
      (keep : (w : World) → K w → w.marker_temp ≡ missing → Q tt w) where
    pub artifacts_ends :
        (marker : TransactionMarker) (w : World) (fs : List Fault)
        → is_own_artifact marker w.marker_temp ≡ true
        → Quiet strict fs
        → K w
        → Ends strict Q E (recover_marker_update_artifacts marker w fs)
    unfolding recover_marker_update_artifacts sync
    artifacts_ends marker w fs own quiet k = after _ _ _ fs (
        Ends-read _ w fs quiet (lose w k) λ fs quiet. after _ _ _ fs (
          Ends-ensure _ w fs quiet (lose w k) (λ _. own)
            λ _ fs quiet. after _ _ _ fs (
              Ends-io _ w fs quiet (lose w k) (
                remove_result strict _ w.marker_temp w
                  (λ at fs quiet. Ends-io _ w fs quiet (lose w k) (keep w k at))
                  (λ fs quiet.
                    Ends-io _ _ fs quiet (lose _ (untemp w k)) (keep _ (untemp w k) refl))))))
