-- ===== src/Updater/Recoverable/Writes.antt =====
-- Writes of the marker, and actions on the files of one role, within a transaction.
use flist_walker.Prelude.{◌≡◌, refl, ap, ◌≢◌, Bool, true, false, List}
use flist_walker.Updater.Exec.{Outcome, Exec, Fault}
use flist_walker.Updater.Exec.Ends.{Ends, returns, errs, halts, Quiet}
use flist_walker.Updater.Disk.{RoleFiles}
use flist_walker.Updater.Marker.{
  TargetRole, readme, license, notices, binary, role_eq, TargetState, Phase, binary_committed,
  rolling_back, TransactionMarker, validate_marker,
}
use flist_walker.Updater.World.{
  World, put, put_back, at_role, update, MarkerFile, missing, is_own_artifact, is_marker_file,
  write_as,
}
use flist_walker.Updater.Recoverable.{
  Transaction, marker_of, Everywhere, Holds, IsRunning, running, IsNew,
}
use flist_walker.Updater.Recoverable.Writing.{written, halfway, write_over_ends}

module _ (P : TargetRole → RoleFiles → Type 0) {f : RoleFiles} {disk : TargetRole → RoleFiles} where
  -- A change of the files of one role, seen by every role.
  pub everywhere_put :
      (r : TargetRole)
      → P r f
      → ((q : TargetRole) → role_eq q r ≡ false → P q (disk q))
      → (q : TargetRole) → P q (update r f disk q)
  everywhere_put readme k h readme = k
  everywhere_put readme k h license = h license refl
  everywhere_put readme k h notices = h notices refl
  everywhere_put readme k h binary = h binary refl
  everywhere_put license k h readme = h readme refl
  everywhere_put license k h license = k
  everywhere_put license k h notices = h notices refl
  everywhere_put license k h binary = h binary refl
  everywhere_put notices k h readme = h readme refl
  everywhere_put notices k h license = h license refl
  everywhere_put notices k h notices = k
  everywhere_put notices k h binary = h binary refl
  everywhere_put binary k h readme = h readme refl
  everywhere_put binary k h license = h license refl
  everywhere_put binary k h notices = h notices refl
  everywhere_put binary k h binary = k

module _ {A : Type 0} {strict : Bool} {P : A → RoleFiles → Type 0} {F : RoleFiles → Type 0}
    {Q : A → World → Type 0} {E : World → Type 0} where
  lifted :
      (r : TargetRole) (w : World) {x : Outcome A × RoleFiles × List Fault}
      → Ends strict P F x
      → ((a : A) (f : RoleFiles) → P a f → Q a (put w r f))
      → ((f : RoleFiles) → F f → E (put w r f))
      → Ends strict Q E (put_back r w x)
  lifted r w (returns quiet h) keep lose = returns quiet (keep _ _ h)
  lifted r w (errs lossy e) keep lose = errs lossy (lose _ e)
  lifted r w (halts lossy e) keep lose = halts lossy (lose _ e)

  pub Ends-at_role :
      (r : TargetRole) (m : Exec RoleFiles A) (w : World) (fs : List Fault)
      → Ends strict P F (m (w.disk r) fs)
      → ((a : A) (f : RoleFiles) → P a f → Q a (put w r f))
      → ((f : RoleFiles) → F f → E (put w r f))
      → Ends strict Q E (at_role r m w fs)
  unfolding at_role
  Ends-at_role r m w fs h keep lose = lifted r w h keep lose

-- What is left when the marker is being replaced.
pub Holds-temp :
    (b : Transaction) {phase : Phase} {states : TargetRole → TargetState} {w : World}
    (temp : MarkerFile)
    → is_own_artifact b.ident temp ≡ true
    → Holds b phase states w
    → Holds b phase states (record w { marker_temp = temp })
Holds-temp b temp t h = record {
  own = record { temp = t; helper = h.own.helper; ack = h.own.ack; lock = h.own.lock };
  durable = h.durable;
  valid = h.valid;
  slots = h.slots;
}

pub Holds-written :
    (b : Transaction) {phase phase' : Phase} {states states' : TargetRole → TargetState} {w : World}
    → validate_marker (marker_of b phase' states') ≡ true
    → Holds b phase states w
    → Holds b phase' states' (written w (marker_of b phase' states'))
Holds-written b v h = record {
  own = record { temp = refl; helper = h.own.helper; ack = h.own.ack; lock = h.own.lock };
  durable = refl;
  valid = v;
  slots = h.slots;
}

IsRunning-halfway :
    (b : Transaction) (undo : Bool) {phase : Phase} {states : TargetRole → TargetState} {w : World}
    (phase' : Phase) (states' : TargetRole → TargetState) (temp : MarkerFile)
    → (undo ≡ false → phase' ≢ rolling_back)
    → is_own_artifact b.ident temp ≡ true
    → Holds b phase states w
    → (phase ≡ binary_committed → Everywhere b IsNew w)
    → IsRunning b undo (halfway w (marker_of b phase' states') temp)
IsRunning-halfway b undo {phase} {states} phase' states' temp forth t h link =
    running phase states
      (record {
        own = record { temp = t; helper = h.own.helper; ack = h.own.ack; lock = h.own.lock };
        durable = h.durable;
        valid = h.valid;
        slots = h.slots;
      })
      link (phase', states', refl, forth)

IsRunning-written :
    (b : Transaction) (undo : Bool) {phase : Phase} {states : TargetRole → TargetState} {w : World}
    (phase' : Phase) (states' : TargetRole → TargetState)
    → (undo ≡ false → phase' ≢ rolling_back)
    → validate_marker (marker_of b phase' states') ≡ true
    → Holds b phase states w
    → (phase' ≡ binary_committed → Everywhere b IsNew w)
    → IsRunning b undo (written w (marker_of b phase' states'))
IsRunning-written b undo phase' states' forth v h link =
    running phase' states' (Holds-written b v h) link (phase', states', refl, forth)

IsRunning-untemp :
    (b : Transaction) (undo : Bool) {w : World}
    → IsRunning b undo w
    → IsRunning b undo (record w { marker_temp = missing })
IsRunning-untemp b undo (running phase states held link memory) =
    running phase states (Holds-temp b missing refl held) link memory

-- `write_as` within a run.
module _ (b : Transaction) (strict undo : Bool) (Q : Unit {0} → World → Type 0)
    (phase phase' : Phase) (states states' : TargetRole → TargetState) (w : World)
    (held : Holds b phase states w) (link : phase ≡ binary_committed → Everywhere b IsNew w)
    (link' : phase' ≡ binary_committed → Everywhere b IsNew w)
    (forth : undo ≡ false → phase' ≢ rolling_back) where
  pub write_ends :
      (change : TransactionMarker → TransactionMarker) (fs : List Fault)
      → change w.memory ≡ marker_of b phase' states'
      → (strict ≡ true → validate_marker (marker_of b phase' states') ≡ true)
      → (strict ≡ true → w.marker_temp ≡ missing)
      → Quiet strict fs
      → (validate_marker (marker_of b phase' states') ≡ true
          → Q tt (written w (marker_of b phase' states')))
      → Ends strict Q (IsRunning b undo) (write_as change w fs)
  write_ends =
      write_over_ends b strict Q (IsRunning b undo) phase' states' w held.own.temp
        (ap is_marker_file held.durable)
        (λ temp t. IsRunning-halfway b undo phase' states' temp forth t held link)
        (λ v. IsRunning-written b undo phase' states' forth v held link')
        (λ s e. IsRunning-untemp b undo e)
