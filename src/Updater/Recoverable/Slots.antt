-- ===== src/Updater/Recoverable/Slots.antt =====
-- The actions on the files of one role, whatever they meet and however they end.
use flist_walker.Prelude.{
  ◌≡◌, refl, sym, subst, inl, inr, Bool, true, false, Option, none, some, List, if◌then◌else◌,
  Bool-cases,
}
use flist_walker.Text.{Text, text_eq}
use flist_walker.Text.Affix.{text_eq_refl, eq_of_text_eq}
use flist_walker.Updater.Exec.{Fault, ◌>>=◌, ensure, gets}
use flist_walker.Updater.Exec.Ends.{
  Ends, returns, Quiet, after, Ends-pure, Ends-io, Ends-gets, ResultOf,
}
use flist_walker.Updater.Disk.{
  Node, absent, regular, RoleFiles, hash_if_regular, hash_eq, paired, optional_digest,
  is_regular_if_present, restore_existing, sync,
}
use flist_walker.Updater.Marker.{TargetRole, TargetState, is_present}
use flist_walker.Updater.Rollback.{
  revalidate_rollback_paths, revalidate_rollback_hashes, drop_backup, rollback_present,
  rollback_absent, rollback_target,
}
use flist_walker.Updater.Recoverable.{
  node_of, files, IsLeftover, IsSlot, clean, backed, promoted, IsOld, as_before, target_of,
}

pub IsSlot-IsOld :
    {old : Option Text} {new : Text} {f : RoleFiles} → IsOld old new f → IsSlot old new f
IsSlot-IsOld (as_before q) = clean q

module _ {strict : Bool} {Q : Unit {0} → RoleFiles → Type 0} {E : RoleFiles → Type 0} where
  -- A test that passes.
  pub check_passes :
      (test : RoleFiles → Bool) (f : RoleFiles) (fs : List Fault)
      → Quiet strict fs
      → test f ≡ true
      → Q tt f
      → Ends strict Q E ((gets test >>= ensure) f fs)
  check_passes test f fs quiet e h =
      after _ _ f fs (Ends-gets test f fs quiet (λ rest q. rw e (unfold ensure in returns q h)))

  pub ensure_passes :
      (test : Bool) (f : RoleFiles) (fs : List Fault)
      → Quiet strict fs
      → test ≡ true
      → Q tt f
      → Ends strict Q E (ensure test f fs)
  unfolding ensure
  ensure_passes test f fs quiet e h = rw e (returns quiet h)

  pub sync_passes :
      (f : RoleFiles) (fs : List Fault)
      → Quiet strict fs
      → E f
      → Q tt f
      → Ends strict Q E (sync f fs)
  unfolding sync
  sync_passes f fs quiet e h = Ends-io _ f fs quiet e h

module _ {S : Type 0} {strict : Bool} {Q : Option Text → S → Type 0} {E : S → Type 0} where
  pub hash_passes :
      (path : S → Node) (hash : Option Text) (f : S) (fs : List Fault)
      → Quiet strict fs
      → E f
      → path f ≡ node_of hash
      → Q hash f
      → Ends strict Q E (hash_if_regular path f fs)
  unfolding hash_if_regular
  hash_passes path none f fs quiet e at h =
      Ends-io _ f fs quiet e
        (subst (λ n. ResultOf strict Q (paired (optional_digest n) f)) (sym at) h)
  hash_passes path (some hash) f fs quiet e at h =
      Ends-io _ f fs quiet e
        (subst (λ n. ResultOf strict Q (paired (optional_digest n) f)) (sym at) h)

pub hash_eq_refl : (hash : Option Text) → hash_eq hash hash ≡ true
hash_eq_refl none = refl
hash_eq_refl (some h) = text_eq_refl h

regular_if_present : (hash : Option Text) → is_regular_if_present (node_of hash) ≡ true
regular_if_present none = refl
regular_if_present (some h) = refl

module _ {strict : Bool} {Q : Unit {0} → RoleFiles → Type 0} {E : RoleFiles → Type 0} where
  paths_pass :
      (t b : Option Text) (q : Node) (fs : List Fault)
      → Quiet strict fs
      → Q tt (files (node_of t) q (node_of b))
      → Ends strict Q E (revalidate_rollback_paths (files (node_of t) q (node_of b)) fs)
  unfolding revalidate_rollback_paths
  paths_pass t b q fs quiet h =
      check_passes _ _ fs quiet (rw (regular_if_present t, regular_if_present b) refl) h

module _ {strict : Bool} {Q : Unit {0} → RoleFiles → Type 0} {E : RoleFiles → Type 0} where
  hashes_pass :
      (t b : Option Text) (q : Node) (fs : List Fault)
      → Quiet strict fs
      → E (files (node_of t) q (node_of b))
      → Q tt (files (node_of t) q (node_of b))
      → Ends strict Q E (revalidate_rollback_hashes t b (files (node_of t) q (node_of b)) fs)
  unfolding revalidate_rollback_hashes
  hashes_pass t b q fs quiet e h = after _ _ _ fs (
      paths_pass t b q fs quiet λ fs quiet. after _ _ _ fs (
        hash_passes _ t _ fs quiet e refl λ fs quiet. after _ _ _ fs (
          ensure_passes _ _ fs quiet (hash_eq_refl t) λ fs quiet. after _ _ _ fs (
            hash_passes _ b _ fs quiet e refl
              λ fs quiet. ensure_passes _ _ fs quiet (hash_eq_refl b) h))))

-- What the code may write about a role, as a record in any state.
module _ (role : TargetRole) (new : Text) (state : TargetState) (strict : Bool) where
  -- The end of `rollback_target`.
  abbrev Restores : Option Text → RoleFiles → List Fault → Type 0
  Restores old f fs =
      Ends strict (λ (_ : Unit {0}) f'. IsOld old new f') (IsSlot old new)
        (rollback_target (target_of role old new state) f fs)

  -- The part that looks at the paths and at the target.
  Restores-from :
      (t b old : Option Text) (q : Node) (fs : List Fault)
      → IsSlot old new (files (node_of t) q (node_of b))
      → Quiet strict fs
      → ((fs : List Fault)
          → Quiet strict fs
          → Ends strict
              (λ (_ : Unit {0}) f'. IsOld old new f')
              (IsSlot old new)
              ((if is_present old
                  then rollback_present (target_of role old new state) t
                  else rollback_absent (target_of role old new state) t)
                (files (node_of t) q (node_of b))
                fs))
      → Restores old (files (node_of t) q (node_of b)) fs
  unfolding rollback_target
  Restores-from t b old q fs slot quiet rest = after _ _ _ fs (
      paths_pass t b q fs quiet
        λ fs quiet. after _ _ _ fs (hash_passes _ t _ fs quiet slot refl λ fs quiet. rest fs quiet))

  Restores-clean_none :
      (q : Node) (fs : List Fault)
      → IsLeftover new q
      → Quiet strict fs
      → Restores none (files absent q absent) fs
  Restores-clean_none q fs l quiet =
      Restores-from none none none q fs (clean l) quiet
        λ fs quiet. unfold rollback_absent in ensure_passes _ _ fs quiet refl (as_before l)

  Restores-promoted_none :
      (q : Node) (fs : List Fault)
      → IsLeftover new q
      → Quiet strict fs
      → Restores none (files (regular new) q absent) fs
  Restores-promoted_none q fs l quiet =
      Restores-from (some new) none none q fs (promoted l) quiet λ fs quiet.
        unfold rollback_absent in
        rw (text_eq_refl new) (
          after _ _ _ fs (
            hashes_pass (some new) none q fs quiet (promoted l) λ fs quiet. after _ _ _ fs (
              Ends-io _ _ fs quiet (promoted l)
                λ fs quiet. sync_passes _ fs quiet (clean l) (as_before l))))

  Restores-clean_some :
      (h : Text) (q : Node) (fs : List Fault)
      → IsLeftover new q
      → Quiet strict fs
      → Restores (some h) (files (regular h) q absent) fs
  Restores-clean_some h q fs l quiet =
      Restores-from (some h) none (some h) q fs (clean l) quiet λ fs quiet.
        unfold rollback_present in
        rw (text_eq_refl h) (
          after _ _ _ fs (
            hash_passes _ none _ fs quiet (clean l) refl
              λ fs quiet. unfold drop_backup in Ends-pure tt _ fs quiet (as_before l)))

  Restores-backed_some :
      (h : Text) (q : Node) (fs : List Fault)
      → IsLeftover new q
      → Quiet strict fs
      → Restores (some h) (files (regular h) q (regular h)) fs
  Restores-backed_some h q fs l quiet =
      Restores-from (some h) (some h) (some h) q fs (backed l) quiet λ fs quiet.
        unfold rollback_present in
        rw (text_eq_refl h) (
          after _ _ _ fs (
            hash_passes _ (some h) _ fs quiet (backed l) refl λ fs quiet.
              unfold drop_backup in
              rw (text_eq_refl h) (
                after _ _ _ fs (
                  hashes_pass (some h) (some h) q fs quiet (backed l) λ fs quiet. after _ _ _ fs (
                    Ends-io _ _ fs quiet (backed l)
                      λ fs quiet. sync_passes _ fs quiet (clean l) (as_before l))))))

  Restores-promoted_some :
      (h : Text) (q : Node) (fs : List Fault)
      → text_eq new h ≡ false
      → IsLeftover new q
      → Quiet strict fs
      → Restores (some h) (files (regular new) q (regular h)) fs
  Restores-promoted_some h q fs differ l quiet =
      Restores-from (some new) (some h) (some h) q fs (promoted l) quiet λ fs quiet.
        unfold rollback_present in
        rw (differ, text_eq_refl new)
          (after _ _ _ fs (
            hash_passes _ (some h) _ fs quiet (promoted l) refl λ fs quiet. rw (text_eq_refl h) (
              after _ _ _ fs (
                hashes_pass (some new) (some h) q fs quiet (promoted l) λ fs quiet.
                  unfold restore_existing in
                  after _ _ _ fs (
                    Ends-io _ _ fs quiet (promoted l)
                      λ fs quiet. sync_passes _ fs quiet (clean l) (as_before l))))))

  pub restores :
      (old : Option Text) {f : RoleFiles} (fs : List Fault)
      → IsSlot old new f
      → Quiet strict fs
      → Restores old f fs
  restores none fs (clean l) quiet = Restores-clean_none _ fs l quiet
  restores none fs (backed l) quiet = Restores-clean_none _ fs l quiet
  restores none fs (promoted l) quiet = Restores-promoted_none _ fs l quiet
  restores (some h) fs (clean l) quiet = Restores-clean_some h _ fs l quiet
  restores (some h) fs (backed l) quiet = Restores-backed_some h _ fs l quiet
  restores (some h) fs (promoted l) quiet = elim (Bool-cases (text_eq new h)) [
    | inl same ↦ rw (← eq_of_text_eq new h same) (Restores-backed_some new _ fs l quiet)
    | inr differ ↦ Restores-promoted_some h _ fs differ l quiet
  ]
