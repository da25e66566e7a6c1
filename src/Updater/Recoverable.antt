-- ===== src/Updater/Recoverable.antt =====
-- What a run of the updater keeps true however it ends: each target is the old or the new file, the
-- old one can be restored, and the marker is a valid one of the transaction.
pub mod Slots
pub mod Applied
pub mod Writing
pub mod Writes
pub mod Verify
pub mod Undoing
pub mod Rollbacks
pub mod Validity
pub mod Applying
pub mod Removable
pub mod Closing
pub mod Activation
pub mod Loading
pub mod Execution
pub mod Suffixes
pub mod Classes
pub mod Commits
pub mod Recovery
pub mod Restarts
pub mod Committing
pub mod Safety
pub mod Stuck
pub mod Evidence
pub mod Answering
pub mod Registration
pub mod Updating
use flist_walker.Prelude.{
  ℕ, zero, suc, ◌+◌, ◌-◌, ◌*◌, ◌/◌, ◌%◌, ◌^◌, ◌≤◌, ◌<◌, min, max, ◌≡◌, refl, sym, ap, ap₂, ◌∙◌,
  subst, ◌≢◌, ◌↔◌, ◌⊎◌, inl, inr, Bool, true, false, ◌&&◌, ◌||◌, not, Option, none, some, List, [],
  ◌∷◌, ◌++◌, map, append_assoc, append-nil, arith, ℤ, compare_int, pos, negsuc, length, get_elem?,
  take, drop, is_empty, any, all, find_first, All, Member, length-append, length-take, length-drop,
  drop-append, any-append, filter_map, flat_map, length-map, drop-append_le, drop_of_get_elem?,
  get_elem?-eq-some_lt, get_elem?-eq-none_le, get_elem?_total, nil_of_length, here, there, Result,
  ◌>>=◌, try_map, ok, err, ltb, leb, ◌==◌, if◌then◌else◌, ltb→lt, lt→ltb, leb→le, le→leb, ==_iff,
  tests, Bool-cases, Option-cases, &&-eq-true, ||-eq-true, Bool-eq_of_iff, some_inj, if_both,
}
use flist_walker.Text.{Text}
use flist_walker.Updater.Disk.{Node, absent, regular, RoleFiles}
use flist_walker.Updater.Marker.{
  TargetRole, order, TargetRecord, TargetState, is_present, Phase, binary_committed, rolling_back,
  TransactionMarker, validate_marker,
}
use flist_walker.Updater.World.{World, MarkerFile, missing, holds, is_own_artifact}
use flist_walker.Updater.Cleanup.{is_optional_ack}

abbrev pub node_of : Option Text → Node
node_of none = absent
node_of (some hash) = regular hash

abbrev pub files : Node → Node → Node → RoleFiles
files target prepared backup = record {
  target = target;
  prepared = prepared;
  backup = backup;
  failed = absent;
}

-- The prepared file is there until it is in its place.
pub data IsLeftover (new : Text) : Node → Type 0 where
  gone : IsLeftover new absent
  kept : IsLeftover new (regular new)

-- The files of one role at any time of a transaction.
pub data IsSlot (old : Option Text) (new : Text) : RoleFiles → Type 0 where
  clean : {q : Node} → IsLeftover new q → IsSlot old new (files (node_of old) q absent)
  backed : {q : Node} → IsLeftover new q → IsSlot old new (files (node_of old) q (node_of old))
  promoted : {q : Node} → IsLeftover new q → IsSlot old new (files (regular new) q (node_of old))

-- The files of a role when the update is committed, and its files are being removed.
pub data IsPlaced (old : Option Text) (new : Text) : RoleFiles → Type 0 where
  placed : {q : Node} → IsLeftover new q → IsPlaced old new (files (regular new) q (node_of old))
  tidied : {q : Node} → IsLeftover new q → IsPlaced old new (files (regular new) q absent)

pub data IsOld (old : Option Text) (new : Text) : RoleFiles → Type 0 where
  as_before : {q : Node} → IsLeftover new q → IsOld old new (files (node_of old) q absent)

pub data IsNew (old : Option Text) (new : Text) : RoleFiles → Type 0 where
  replaced : {q : Node} → IsLeftover new q → IsNew old new (files (regular new) q (node_of old))

-- The files of a role that the update has not come to.
pub data IsReady (old : Option Text) (new : Text) : RoleFiles → Type 0 where
  ready : IsReady old new (files (node_of old) (regular new) absent)

abbrev pub target_of : TargetRole → Option Text → Text → TargetState → TargetRecord
target_of role old new state = record {
  role = role;
  originally_present = is_present old;
  old_hash = old;
  new_hash = new;
  state = state;
}

-- One transaction: the parts of its marker that do not change, and what it replaces by what.
pub record Transaction : Type 0 where
  pub ident : TransactionMarker
  pub old : TargetRole → Option Text
  pub new : TargetRole → Text

abbrev pub marker_of : Transaction → Phase → (TargetRole → TargetState) → TransactionMarker
marker_of b phase states = record b.ident {
  phase = phase;
  targets = map (λ r. target_of r (b.old r) (b.new r) (states r)) order;
}

module _ (b : Transaction) where
  -- A property of the files of every role.
  abbrev pub Everywhere : (Option Text → Text → RoleFiles → Type 0) → World → Type 0
  Everywhere P w = (r : TargetRole) → P (b.old r) (b.new r) (w.disk r)

  -- The variable of the running function is a marker of the transaction, which is being rolled back
  -- only if `undo` allows it.
  abbrev pub Remembers : Bool → World → Type 0
  Remembers undo w =
      (phase : Phase) × (states : TargetRole → TargetState) × (w.memory ≡ marker_of b phase states)
      × (undo ≡ false → phase ≢ rolling_back)

  -- The files beside the targets that an interrupted run leaves.
  pub record HasOwnFiles (w : World) : Type 0 where
    pub temp : is_own_artifact b.ident w.marker_temp ≡ true
    pub helper : (w.helper ≡ regular b.ident.helper_hash) ⊎ (w.helper ≡ absent)
    pub ack : is_optional_ack b.ident w.ack ≡ true
    pub lock : w.lock ≡ some (b.ident.transaction_id, b.ident.parent_pid)

  -- The marker on disk is valid, and every target can be rolled back.
  pub record Holds (phase : Phase) (states : TargetRole → TargetState) (w : World) : Type 0 where
    pub own : HasOwnFiles w
    pub durable : w.marker ≡ holds (marker_of b phase states)
    pub valid : validate_marker (marker_of b phase states) ≡ true
    pub slots : Everywhere IsSlot w

  -- A transaction under way, in a run that has not ended.
  pub data IsRunning (undo : Bool) (w : World) : Type 0 where
    running :
        (phase : Phase) (states : TargetRole → TargetState)
        → Holds phase states w
        → (phase ≡ binary_committed → Everywhere IsNew w)
        → Remembers undo w
        → IsRunning undo w

  -- The files of a transaction are being removed; `P` is about those of each role.
  pub record IsClosing (P : Option Text → Text → RoleFiles → Type 0) (phase : Phase)
      (states : TargetRole → TargetState) (w : World) : Type 0 where
    pub own : HasOwnFiles w
    pub durable : w.marker ≡ holds (marker_of b phase states)
    pub valid : validate_marker (marker_of b phase states) ≡ true
    pub roles : Everywhere P w

  -- What a run leaves, however it ends: a transaction that can be taken up again, or none, with the
  -- old files or with the new ones.
  pub data IsRecoverable (w : World) : Type 0 where
    live :
        (phase : Phase) (states : TargetRole → TargetState)
        → Holds phase states w
        → (phase ≡ binary_committed → Everywhere IsNew w)
        → IsRecoverable w
    committing :
        (states : TargetRole → TargetState)
        → IsClosing IsPlaced binary_committed states w
        → IsRecoverable w
    over_old : w.marker ≡ missing → Everywhere IsOld w → IsRecoverable w
    over_new : w.marker ≡ missing → Everywhere IsPlaced w → IsRecoverable w
