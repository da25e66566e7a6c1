-- ===== src/Updater/Recoverable/Verify.antt =====
-- `verify_bundle_hashes` of a bundle whose targets have known hashes.
use flist_walker.Prelude.{
  ◌≡◌, refl, sym, ap, subst, Bool, true, false, Option, none, some, List, [], ◌∷◌, map,
}
use flist_walker.Text.{Text}
use flist_walker.Text.Affix.{text_eq_refl}
use flist_walker.Updater.Exec.{Fault}
use flist_walker.Updater.Exec.Ends.{Ends, Quiet, after, Ends-pure, Ends-ensure, Ends-gets}
use flist_walker.Updater.Disk.{RoleFiles, regular}
use flist_walker.Updater.Marker.{TargetRole, order, TargetState, Phase, TransactionMarker}
use flist_walker.Updater.World.{World}
use flist_walker.Updater.Rollback.{verify_targets, verify_bundle_hashes, is_valid_node}
use flist_walker.Updater.Recoverable.{
  Transaction, node_of, target_of, marker_of, Everywhere, IsOld, as_before,
}
use flist_walker.Updater.Recoverable.Slots.{hash_passes, hash_eq_refl}

module _ {strict : Bool} {Q : Unit {0} → World → Type 0} {E : World → Type 0} (b : Transaction)
    (expect_new : Bool) (states : TargetRole → TargetState) (hash : TargetRole → Option Text)
    (passes : (r : TargetRole)
      → is_valid_node expect_new (target_of r (b.old r) (b.new r) (states r)) (hash r) ≡ true)
    (w : World) (at : (r : TargetRole) → (w.disk r).target ≡ node_of (hash r)) (e : E w)
    (q : Q tt w) where
  verify_targets_ends :
      (roles : List TargetRole) (fs : List Fault)
      → Quiet strict fs
      → Ends strict Q E (
          verify_targets expect_new
            (map (λ r. target_of r (b.old r) (b.new r) (states r)) roles)
            w
            fs)
  unfolding verify_targets
  verify_targets_ends [] fs quiet = Ends-pure tt w fs quiet q
  verify_targets_ends (r ∷ roles) fs quiet = after _ _ _ fs (
      hash_passes _ (hash r) w fs quiet e (at r) λ fs quiet. after _ _ _ fs (
        Ends-ensure _ w fs quiet e (λ _. passes r)
          λ _ fs quiet. verify_targets_ends roles fs quiet))

  pub verify_ends :
      (phase : Phase) (fs : List Fault)
      → w.memory ≡ marker_of b phase states
      → Quiet strict fs
      → Ends strict Q E (verify_bundle_hashes expect_new w fs)
  unfolding verify_bundle_hashes
  verify_ends phase fs memory quiet = after _ _ _ fs (
      Ends-gets _ w fs quiet λ fs quiet.
        subst (λ targets. Ends strict Q E (verify_targets expect_new targets w fs))
          (sym (ap (λ (m : TransactionMarker). m.targets) memory))
          (verify_targets_ends order fs quiet))

-- A target that is as before passes.
is_valid_old :
    (r : TargetRole) (old : Option Text) (new : Text) (state : TargetState)
    → is_valid_node false (target_of r old new state) old ≡ true
is_valid_old r none new state = refl
is_valid_old r (some h) new state = hash_eq_refl (some h)

target_old :
    {old : Option Text} {new : Text} {f : RoleFiles} → IsOld old new f → f.target ≡ node_of old
target_old (as_before l) = refl

module _ {strict : Bool} {Q : Unit {0} → World → Type 0} {E : World → Type 0} (b : Transaction)
    (phase : Phase) (states : TargetRole → TargetState) (w : World) (fs : List Fault)
    (memory : w.memory ≡ marker_of b phase states) where
  pub verify_old_bundle :
      Everywhere b IsOld w
      → Quiet strict fs
      → E w
      → Q tt w
      → Ends strict Q E (verify_bundle_hashes false w fs)
  verify_old_bundle olds quiet e q =
      verify_ends b false states b.old (λ r. is_valid_old r (b.old r) (b.new r) (states r)) w
        (λ r. target_old (olds r)) e q phase fs memory quiet

  pub verify_new_bundle :
      ((r : TargetRole) → (w.disk r).target ≡ regular (b.new r))
      → Quiet strict fs
      → E w
      → Q tt w
      → Ends strict Q E (verify_bundle_hashes true w fs)
  verify_new_bundle news quiet e q =
      verify_ends b true states (λ r. some (b.new r)) (λ r. text_eq_refl (b.new r)) w news e q phase
        fs memory quiet
