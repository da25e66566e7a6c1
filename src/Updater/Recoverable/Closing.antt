-- ===== src/Updater/Recoverable/Closing.antt =====
-- The removal of the files of a transaction: the targets stay as they are, and the marker goes last.
use flist_walker.Prelude.{
  ◌≡◌, refl, sym, ap, ap₂, ◌∙◌, subst, inl, inr, Bool, true, ◌&&◌, Option, none, some, List, [],
  ◌∷◌, map, if◌then◌else◌, ==_iff,
}
use flist_walker.Text.{Text}
use flist_walker.Text.Affix.{text_eq_refl}
use flist_walker.Updater.Exec.{Fault, ◌>>=◌, io}
use flist_walker.Updater.Exec.Ends.{
  Ends-read, Ends, Quiet, after, Ends-pure, Ends-ensure, Ends-gets, Ends-io, ResultOf,
}
use flist_walker.Updater.Disk.{Node, absent, RoleFiles}
use flist_walker.Updater.Marker.{TargetRole, order, TargetState, Phase}
use flist_walker.Updater.World.{World, put, missing, is_marker_file}
use flist_walker.Updater.Cleanup.{
  is_optional_hash, validate_optional_hash, validate_roles, validate_cleanup_artifacts, remove_role,
  remove_roles, remove_with, cleanup_transaction_artifacts, remove_with, is_own_lock,
}
use flist_walker.Updater.Recoverable.{Transaction, target_of, marker_of, Everywhere, IsClosing}
use flist_walker.Updater.Recoverable.Removable.{CanGo}
use flist_walker.Updater.Recoverable.Writes.{Ends-at_role, everywhere_put}

module _ (b : Transaction) (P : Option Text → Text → RoleFiles → Type 0) (can : CanGo P)
    (phase : Phase) (states : TargetRole → TargetState) (strict : Bool) (E : World → Type 0)
    (still : (w : World) → IsClosing b P phase states w → E w)
    (over : (w : World) → w.marker ≡ missing → Everywhere b P w → E w) where
  abbrev Closing : World → Type 0
  Closing = IsClosing b P phase states

  -- One call that removes one file.
  removes :
      (Q : Unit {0} → World → Type 0) (f : World → World) (w : World) (fs : List Fault)
      → Quiet strict fs
      → E w
      → Q tt (f w)
      → Ends strict Q E (io (λ s. some (tt, f s)) w fs)
  removes Q f w fs quiet e q = Ends-io _ w fs quiet e q

  removes_role :
      (r : TargetRole) (f : RoleFiles) (fs : List Fault)
      → Quiet strict fs
      → P (b.old r) (b.new r) f
      → Ends strict
          (λ (_ : Unit {0}) f'. P (b.old r) (b.new r) f')
          (P (b.old r) (b.new r))
          (remove_role f fs)
  removes_role r f fs quiet h0 =
      let h1 = can.no_prepared (b.old r) (b.new r) f h0 in
      let h2 = can.no_backup (b.old r) (b.new r) _ h1 in
      after _ _ _ fs (
        Ends-io _ f fs quiet h0 λ fs quiet. after _ _ _ fs (
          Ends-io _ _ fs quiet h1
            λ fs quiet. Ends-io _ _ fs quiet h2 (can.no_failed (b.old r) (b.new r) _ h2)))

  Closing-put :
      (w : World) (r : TargetRole) (f : RoleFiles)
      → P (b.old r) (b.new r) f
      → Closing w
      → Closing (put w r f)
  Closing-put w r f k h = record {
    own = record { temp = h.own.temp; helper = h.own.helper; ack = h.own.ack; lock = h.own.lock };
    durable = h.durable;
    valid = h.valid;
    roles = everywhere_put (λ q f. P (b.old q) (b.new q) f) r k (λ q _. h.roles q);
  }

  removes_roles :
      (Q : Unit {0} → World → Type 0) (roles : List TargetRole) (w : World) (fs : List Fault)
      → Quiet strict fs
      → Closing w
      → ((w : World) → Closing w → Q tt w)
      → Ends strict Q E (remove_roles roles w fs)
  unfolding remove_roles
  removes_roles Q [] w fs quiet h q = Ends-pure tt w fs quiet (q w h)
  removes_roles Q (r ∷ roles) w fs quiet h q = after _ _ _ fs (
      Ends-at_role r _ w fs (removes_role r _ fs quiet (h.roles r))
        (λ a f k fs quiet. removes_roles Q roles _ fs quiet (Closing-put w r f k h) q)
        (λ f k. still _ (Closing-put w r f k h)))

  optional_hash_ends :
      (Q : Unit {0} → World → Type 0) (expected : Option Text) (path : World → Node) (w : World)
      (fs : List Fault)
      → Quiet strict fs
      → E w
      → is_optional_hash expected (path w) ≡ true
      → Q tt w
      → Ends strict Q E (validate_optional_hash expected path w fs)
  unfolding validate_optional_hash
  optional_hash_ends Q expected path w fs quiet e h q = Ends-io _ w fs quiet e (
      subst
        (λ (t : Bool).
          let o : Option (Unit {0} × World) = if t then some (tt, w) else none in
          ResultOf strict Q o)
        (sym h) q)

  validates_roles :
      (Q : Unit {0} → World → Type 0) (roles : List TargetRole) (w : World) (fs : List Fault)
      → Quiet strict fs
      → Closing w
      → Q tt w
      → Ends strict Q E
          (validate_roles (map (λ r. target_of r (b.old r) (b.new r) (states r)) roles) w fs)
  unfolding validate_roles
  validates_roles Q [] w fs quiet h q = Ends-pure tt w fs quiet q
  validates_roles Q (r ∷ roles) w fs quiet h q =
      let e = still w h in
      after _ _ _ fs (
        optional_hash_ends _ _ _ w fs quiet e (can.prepared_hash (b.old r) (b.new r) _ (h.roles r))
          λ fs quiet. after _ _ _ fs (
            optional_hash_ends _ _ _ w fs quiet e
              (can.backup_hash (b.old r) (b.new r) _ (h.roles r))
              λ fs quiet. after _ _ _ fs (
                optional_hash_ends _ _ _ w fs quiet e
                  (can.failed_hash (b.old r) (b.new r) _ (h.roles r))
                  λ fs quiet. validates_roles Q roles w fs quiet h q)))

  own_lock : (w : World) → Closing w → is_own_lock (marker_of b phase states) w.lock ≡ true
  own_lock w h =
      ap (is_own_lock (marker_of b phase states)) h.own.lock
      ∙ ap₂ ◌&&◌ (text_eq_refl b.ident.transaction_id)
          ((==_iff b.ident.parent_pid b.ident.parent_pid).1 refl)

  own_helper : (w : World) → Closing w → is_optional_hash (some b.ident.helper_hash) w.helper ≡ true
  own_helper w h = elim (h.own.helper) [
    | inl e ↦ ap (is_optional_hash (some b.ident.helper_hash)) e ∙ text_eq_refl b.ident.helper_hash
    | inr e ↦ ap (is_optional_hash (some b.ident.helper_hash)) e
  ]

  validates :
      (Q : Unit {0} → World → Type 0) (w : World) (fs : List Fault)
      → Quiet strict fs
      → Closing w
      → Q tt w
      → Ends strict Q E (validate_cleanup_artifacts (marker_of b phase states) w fs)
  unfolding validate_cleanup_artifacts
  validates Q w fs quiet h q =
      let e = still w h in
      after _ _ _ fs (
        validates_roles _ order w fs quiet h λ fs quiet. after _ _ _ fs (
          Ends-read _ w fs quiet e λ fs quiet. after _ _ _ fs (
            Ends-ensure _ w fs quiet e (λ _. h.own.ack)
              λ _ fs quiet. after _ _ _ fs (
                optional_hash_ends _ _ _ w fs quiet e (own_helper w h) λ fs quiet. after _ _ _ fs (
                  Ends-read _ w fs quiet e λ fs quiet. after _ _ _ fs (
                    Ends-ensure _ w fs quiet e (λ _. h.own.temp)
                      λ _ fs quiet. after _ _ _ fs (
                        Ends-gets _ w fs quiet λ fs quiet. after _ _ _ fs (
                          Ends-ensure _ w fs quiet e (λ _. ap is_marker_file h.durable)
                            λ _ fs quiet. after _ _ _ fs (
                              Ends-read _ w fs quiet e λ fs quiet.
                                Ends-ensure _ w fs quiet e (λ _. own_lock w h) λ _. q)))))))))

  abbrev Closed : Unit {0} → World → Type 0
  Closed _ w = (w.marker ≡ missing) × (w.lock ≡ none) × Everywhere b P w

  without_ack : (w : World) → Closing w → Closing (record w { ack = none })
  without_ack w h = record {
    own = record { temp = h.own.temp; helper = h.own.helper; ack = refl; lock = h.own.lock };
    durable = h.durable;
    valid = h.valid;
    roles = h.roles;
  }

  without_helper : (w : World) → Closing w → Closing (record w { helper = absent })
  without_helper w h = record {
    own = record { temp = h.own.temp; helper = inr refl; ack = h.own.ack; lock = h.own.lock };
    durable = h.durable;
    valid = h.valid;
    roles = h.roles;
  }

  without_temp : (w : World) → Closing w → Closing (record w { marker_temp = missing })
  without_temp w h = record {
    own = record { temp = refl; helper = h.own.helper; ack = h.own.ack; lock = h.own.lock };
    durable = h.durable;
    valid = h.valid;
    roles = h.roles;
  }

  -- The calls behind the removal of the files of the roles.
  removes_rest :
      (w : World) (fs : List Fault)
      → Quiet strict fs
      → Closing w
      → Ends strict Closed E (
          (remove_with (λ w. record w { ack = none }) >>= λ _.
          remove_with (λ w. record w { helper = absent }) >>= λ _.
          remove_with (λ w. record w { marker_temp = missing }) >>= λ _.
          remove_with (λ w. record w { marker = missing }) >>= λ _.
          remove_with (λ w. record w { lock = none }) >>= λ _. io (λ w. some (tt, w)))
            w fs)
  removes_rest w fs quiet h0 =
      let h1 = without_ack w h0 in
      let h2 = without_helper _ h1 in
      let h3 = without_temp _ h2 in
      after _ _ _ fs (
        removes _ (λ w. record w { ack = none }) w fs quiet (still w h0)
          λ fs quiet. after _ _ _ fs (
            removes _ (λ w. record w { helper = absent }) _ fs quiet (still _ h1)
              λ fs quiet. after _ _ _ fs (
                removes _ (λ w. record w { marker_temp = missing }) _ fs quiet (still _ h2)
                  λ fs quiet. after _ _ _ fs (
                    removes _ (λ w. record w { marker = missing }) _ fs quiet (still _ h3)
                      λ fs quiet. after _ _ _ fs (
                        removes _ (λ w. record w { lock = none }) _ fs quiet (over _ refl h0.roles)
                          λ fs quiet.
                            removes _ (λ w. w) _ fs quiet (over _ refl h0.roles)
                              (refl, refl, h0.roles))))))

  pub cleanup_ends :
      (w : World) (fs : List Fault)
      → Quiet strict fs
      → Closing w
      → Ends strict Closed E (cleanup_transaction_artifacts (marker_of b phase states) w fs)
  unfolding cleanup_transaction_artifacts
  cleanup_ends w fs quiet h = after _ _ _ fs (
      validates _ w fs quiet h λ fs quiet.
        after _ _ _ fs
          (removes_roles _ order w fs quiet h λ w h fs quiet. removes_rest w fs quiet h))
