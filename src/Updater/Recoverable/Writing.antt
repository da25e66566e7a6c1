-- ===== src/Updater/Recoverable/Writing.antt =====
-- `write_as`: the marker is replaced, or the run ends before or behind its replacement.
use flist_walker.Prelude.{◌≡◌, refl, Bool, true, false, List}
use flist_walker.Text.Affix.{text_eq_refl}
use flist_walker.Updater.Exec.{Fault, ◌>>◌, on_error, io, fail}
use flist_walker.Updater.Exec.Ends.{
  Ends, Quiet, lossy-Quiet, after, Ends-io, Ends-ensure, Ends-gets, Ends-modify, Ends-fail,
  Ends-on_error,
}
use flist_walker.Updater.Disk.{sync}
use flist_walker.Updater.Marker.{TargetRole, TargetState, Phase, TransactionMarker, validate_marker}
use flist_walker.Updater.World.{
  World, MarkerFile, missing, holds, unreadable, create_temp, is_own_artifact, is_marker_file,
  write_marker_atomic, write_as, rename_temp, remove_temp,
}
use flist_walker.Updater.Recoverable.{Transaction, marker_of}

abbrev pub written : World → TransactionMarker → World
written w marker = record w { memory = marker; marker = holds marker; marker_temp = missing }

-- The variable has changed, and a temporary marker may be there.
abbrev pub halfway : World → TransactionMarker → MarkerFile → World
halfway w marker temp = record w { memory = marker; marker_temp = temp }

lossy_of_temp :
    (strict : Bool) (temp : MarkerFile)
    → (strict ≡ true → temp ≡ missing)
    → (temp ≡ missing → false ≡ true)
    → strict ≡ false
lossy_of_temp true temp free clash = absurd (cc (clash (free refl)))
lossy_of_temp false temp free clash = refl

module _ (b : Transaction) (strict : Bool) (Q : Unit {0} → World → Type 0) (E : World → Type 0)
    (phase' : Phase) (states' : TargetRole → TargetState) (w : World)
    (own : is_own_artifact b.ident w.marker_temp ≡ true) (readable : is_marker_file w.marker ≡ true)
    (interrupted : (temp : MarkerFile)
      → is_own_artifact b.ident temp ≡ true
      → E (halfway w (marker_of b phase' states') temp))
    (finished : validate_marker (marker_of b phase' states') ≡ true
      → E (written w (marker_of b phase' states')))
    (untemp : (s : World) → E s → E (record s { marker_temp = missing })) where
  abbrev next : TransactionMarker
  next = marker_of b phase' states'

  own_temp : validate_marker next ≡ true → is_own_artifact b.ident (holds next) ≡ true
  own_temp v = rw (v, text_eq_refl b.ident.transaction_id) refl

  -- The temporary marker is there.
  replace_ends :
      (fs : List Fault)
      → Quiet strict fs
      → validate_marker next ≡ true
      → Q tt (written w next)
      → Ends strict Q E (
          (on_error (io rename_temp) (io remove_temp >> fail) >> sync)
            (halfway w next (holds next))
            fs)
  replace_ends fs quiet v q = after _ _ _ fs (
      Ends-on_error _ _ _ fs
        (Ends-io _ _ fs quiet (interrupted (holds next) (own_temp v))
          λ fs quiet. unfold sync in Ends-io _ _ fs quiet (finished v) q)
        (λ s fs lossy e. after _ _ _ fs (
          Ends-io remove_temp s fs (lossy-Quiet strict fs lossy) e
            λ fs quiet. Ends-fail _ fs lossy (untemp _ e)))
        (λ s e. e))

  -- The file that is created must not be there, which an interrupted write may leave.
  create_ends :
      (temp : MarkerFile) (fs : List Fault)
      → is_own_artifact b.ident temp ≡ true
      → (strict ≡ true → temp ≡ missing)
      → Quiet strict fs
      → validate_marker next ≡ true
      → Q tt (written w next)
      → Ends strict Q E (
          (io (λ s. create_temp next s.marker_temp s)
              >> (on_error (io rename_temp) (io remove_temp >> fail) >> sync))
            (halfway w next temp)
            fs)
  create_ends missing fs t free quiet v q = after _ _ _ fs (
      Ends-io (λ s. create_temp next s.marker_temp s) _ fs quiet (interrupted missing t)
        λ fs quiet. replace_ends fs quiet v q)
  create_ends (holds m) fs t free quiet v q = after _ _ _ fs (
      Ends-io (λ s. create_temp next s.marker_temp s) _ fs quiet (interrupted (holds m) t)
        (lossy_of_temp strict (holds m) free (λ e. cc e)))
  create_ends unreadable fs t free quiet v q = absurd (cc t)

  pub write_over_ends :
      (change : TransactionMarker → TransactionMarker) (fs : List Fault)
      → change w.memory ≡ next
      → (strict ≡ true → validate_marker next ≡ true)
      → (strict ≡ true → w.marker_temp ≡ missing)
      → Quiet strict fs
      → (validate_marker next ≡ true → Q tt (written w next))
      → Ends strict Q E (write_as change w fs)
  unfolding write_as write_marker_atomic
  write_over_ends change fs m good free quiet q = after _ _ _ fs (
      Ends-modify _ w fs quiet λ fs quiet. after _ _ _ fs (
        Ends-gets _ _ fs quiet λ fs quiet. rw m (
          after _ _ _ fs (
            Ends-ensure _ _ fs quiet (interrupted w.marker_temp own) good λ v fs quiet.
              after _ _ _ fs (
                Ends-gets _ _ fs quiet λ fs quiet. after _ _ _ fs (
                  Ends-ensure _ _ fs quiet (interrupted w.marker_temp own) (λ _. readable)
                    λ _ fs quiet. create_ends w.marker_temp fs own free quiet v (q v)))))))
