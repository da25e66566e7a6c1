-- ===== src/Updater/Recoverable/Applied.antt =====
-- `apply_one_target` on files that are ready: how each of its ends leaves them.
use flist_walker.Prelude.{◌≡◌, refl, sym, subst, Bool, Option, none, some, List}
use flist_walker.Text.{Text, text_eq}
use flist_walker.Text.Affix.{text_eq_refl}
use flist_walker.Updater.Exec.{Fault, ◌>>=◌, ensure}
use flist_walker.Updater.Exec.Ends.{Ends, Quiet, after, Ends-pure, Ends-io, ResultOf}
use flist_walker.Updater.Disk.{
  Node, absent, regular, RoleFiles, sha256_file, digest, paired, replace_existing,
  promote_absent_no_overwrite,
}
use flist_walker.Updater.Marker.{TargetRole, TargetState}
use flist_walker.Updater.Apply.{revalidate_operation_paths, revalidate_old_hash, apply_one_target}
use flist_walker.Updater.Recoverable.{
  node_of, files, gone, kept, IsSlot, clean, backed, promoted, IsNew, replaced, IsReady, ready,
  target_of,
}
use flist_walker.Updater.Recoverable.Slots.{check_passes, ensure_passes, sync_passes}

module _ {S : Type 0} {strict : Bool} {Q : Text → S → Type 0} {E : S → Type 0} where
  pub digest_passes :
      (path : S → Node) (hash : Text) (f : S) (fs : List Fault)
      → Quiet strict fs
      → E f
      → path f ≡ regular hash
      → Q hash f
      → Ends strict Q E (sha256_file path f fs)
  unfolding sha256_file
  digest_passes path hash f fs quiet e at h =
      Ends-io _ f fs quiet e (subst (λ n. ResultOf strict Q (paired (digest n) f)) (sym at) h)

module _ (role : TargetRole) (new : Text) (state : TargetState) (strict : Bool) where
  abbrev Applies : Option Text → RoleFiles → List Fault → Type 0
  Applies old f fs =
      Ends strict (λ (_ : Unit {0}) f'. IsNew old new f') (IsSlot old new)
        (apply_one_target (target_of role old new state) f fs)

  -- The hash is looked at once more when the file is in place.
  module _ {old : Option Text} where
    installed :
        (fs : List Fault)
        → Quiet strict fs
        → Ends strict
            (λ (_ : Unit {0}) f'. IsNew old new f')
            (IsSlot old new)
            ((sha256_file (λ f. f.target) >>= λ actual. ensure (text_eq actual new))
              (files (regular new) absent (node_of old))
              fs)
    installed fs quiet = after _ _ _ fs (
        digest_passes _ new _ fs quiet (promoted gone) refl
          λ fs quiet. ensure_passes _ _ fs quiet (text_eq_refl new) (replaced gone))

  Applies-none :
      (fs : List Fault) → Quiet strict fs → Applies none (files absent (regular new) absent) fs
  unfolding apply_one_target revalidate_operation_paths
  Applies-none fs quiet = after _ _ _ fs (
      after _ _ _ fs (
        check_passes _ _ fs quiet refl λ fs quiet. after _ _ _ fs (
          digest_passes _ new _ fs quiet (clean kept) refl λ fs quiet. after _ _ _ fs (
            ensure_passes _ _ fs quiet (text_eq_refl new) λ fs quiet.
              Ends-pure tt _ fs quiet λ fs quiet.
                unfold promote_absent_no_overwrite in
                after _ _ _ fs (
                  after _ _ _ fs (
                    Ends-io _ _ fs quiet (clean kept) λ fs quiet. after _ _ _ fs (
                      sync_passes _ fs quiet (promoted kept) λ fs quiet. after _ _ _ fs (
                        Ends-io _ _ fs quiet (promoted kept) λ fs quiet.
                          sync_passes _ fs quiet (promoted gone)
                            λ fs quiet. installed fs quiet))))))))

  Applies-some :
      (h : Text) (fs : List Fault)
      → Quiet strict fs
      → Applies (some h) (files (regular h) (regular new) absent) fs
  unfolding apply_one_target revalidate_operation_paths
  Applies-some h fs quiet = after _ _ _ fs (
      after _ _ _ fs (
        check_passes _ _ fs quiet refl λ fs quiet. after _ _ _ fs (
          digest_passes _ new _ fs quiet (clean kept) refl λ fs quiet. after _ _ _ fs (
            ensure_passes _ _ fs quiet (text_eq_refl new) λ fs quiet.
              unfold revalidate_old_hash in
              after _ _ _ fs (
                digest_passes _ h _ fs quiet (clean kept) refl λ fs quiet.
                  ensure_passes _ _ fs quiet (text_eq_refl h) λ fs quiet.
                    unfold replace_existing in
                    after _ _ _ fs (
                      after _ _ _ fs (
                        Ends-io _ _ fs quiet (clean kept) λ fs quiet. after _ _ _ fs (
                          sync_passes _ fs quiet (backed kept) λ fs quiet. after _ _ _ fs (
                            Ends-io _ _ fs quiet (backed kept) λ fs quiet.
                              sync_passes _ fs quiet (promoted gone)
                                λ fs quiet. installed fs quiet)))))))))

  pub applies :
      (old : Option Text) {f : RoleFiles} (fs : List Fault)
      → IsReady old new f
      → Quiet strict fs
      → Applies old f fs
  applies none fs ready quiet = Applies-none fs quiet
  applies (some h) fs ready quiet = Applies-some h fs quiet
