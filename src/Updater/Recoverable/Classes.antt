-- ===== src/Updater/Recoverable/Classes.antt =====
-- `classify_target` within a transaction: every target is old or new.
use flist_walker.Prelude.{
  ◌≡◌, refl, sym, ap, ap₂, ◌∙◌, subst, inl, inr, Bool, true, false, ◌&&◌, ◌||◌, Option, none, some,
  List, [], ◌∷◌, map, arith, any, all, Bool-cases, &&-eq-true,
}
use flist_walker.Text.{Text, text_eq}
use flist_walker.Text.Affix.{text_eq_refl, eq_of_text_eq}
use flist_walker.Updater.Exec.{Fault}
use flist_walker.Updater.Exec.Ends.{Ends, Quiet, after, Ends-pure}
use flist_walker.Updater.Disk.{absent, regular, RoleFiles, digest}
use flist_walker.Updater.Marker.{TargetRole, readme, license, notices, binary, order, TargetState}
use flist_walker.Updater.World.{World}
use flist_walker.Updater.Recover.{
  TargetClassification, classify, classify_target, classify_targets, is_unknown, is_new,
}
use flist_walker.Updater.Recoverable.{
  Transaction, node_of, target_of, IsSlot, clean, backed, promoted, IsPlaced, placed, tidied, files,
}
use flist_walker.Updater.Recoverable.Slots.{hash_passes}

digest-node_of : (hash : Option Text) → node_of hash ≡ node_of (digest (node_of hash))
digest-node_of none = refl
digest-node_of (some h) = refl

pub slot_digest :
    {old : Option Text} {new : Text} {f : RoleFiles}
    → IsSlot old new f
    → f.target ≡ node_of (digest f.target)
slot_digest {old} (clean l) = digest-node_of old
slot_digest {old} (backed l) = digest-node_of old
slot_digest (promoted l) = refl

module _ (r : TargetRole) (new : Text) (state : TargetState) where
  known_old :
      (old : Option Text)
      → is_unknown (classify (target_of r old new state) (digest (node_of old))) ≡ false
  known_old none = refl
  known_old (some h) = elim (Bool-cases (text_eq h new)) [
    | inl same ↦ rw same refl
    | inr differ ↦ rw (differ, text_eq_refl h) refl
  ]

  pub slot_known :
      (old : Option Text) {f : RoleFiles}
      → IsSlot old new f
      → is_unknown (classify (target_of r old new state) (digest f.target)) ≡ false
  slot_known old (clean l) = known_old old
  slot_known old (backed l) = known_old old
  slot_known old (promoted l) = rw (text_eq_refl new) refl

  -- A target that is classified as new has the new hash.
  pub new_hash :
      (old hash : Option Text)
      → is_new (classify (target_of r old new state) hash) ≡ true
      → hash ≡ some new
  new_hash old none h = absurd (never_new old h)
    where
      never_new :
          (old : Option Text) → is_new (classify (target_of r old new state) none) ≡ true → ⊥
      never_new none h = cc h
      never_new (some g) h = cc h
  new_hash old (some g) h = elim (Bool-cases (text_eq g new)) [
    | inl same ↦ ap some (eq_of_text_eq g new same)
    | inr differ ↦ absurd (other_hash old g differ h)
  ]
    where
      other_hash :
          (old : Option Text) (g : Text)
          → text_eq g new ≡ false
          → is_new (classify (target_of r old new state) (some g)) ≡ true
          → ⊥
      other_hash none g differ h = ground (arith)
      other_hash (some k) g differ h = ground (arith)

  pub new_known :
      (old : Option Text) → is_unknown (classify (target_of r old new state) (some new)) ≡ false
  new_known old = rw (text_eq_refl new) refl

  pub new_is_new :
      (old : Option Text) → is_new (classify (target_of r old new state) (some new)) ≡ true
  new_is_new old = rw (text_eq_refl new) refl

all_four :
    (P : TargetRole → Type 0) → P readme → P license → P notices → P binary → (r : TargetRole) → P r
all_four P h0 h1 h2 h3 readme = h0
all_four P h0 h1 h2 h3 license = h1
all_four P h0 h1 h2 h3 notices = h2
all_four P h0 h1 h2 h3 binary = h3

module _ (b : Transaction) (states : TargetRole → TargetState) (w : World) where
  abbrev pub class_of : TargetRole → TargetClassification
  class_of r = classify (target_of r (b.old r) (b.new r) (states r)) (digest (w.disk r).target)

  pub classify_ends :
      (roles : List TargetRole) (fs : List Fault) {strict : Bool}
      {Q : List TargetClassification → World → Type 0} {E : World → Type 0}
      → ((r : TargetRole) → (w.disk r).target ≡ node_of (digest (w.disk r).target))
      → E w
      → Quiet strict fs
      → Q (map class_of roles) w
      → Ends strict Q E
          (classify_targets (map (λ r. target_of r (b.old r) (b.new r) (states r)) roles) w fs)
  unfolding classify_targets classify_target
  classify_ends [] fs at e quiet q = Ends-pure [] w fs quiet q
  classify_ends (r ∷ roles) fs at e quiet q = after _ _ _ fs (
      after _ _ _ fs (
        hash_passes _ (digest (w.disk r).target) w fs quiet e (at r) λ fs quiet.
          Ends-pure _ w fs quiet λ fs quiet.
            after _ _ _ fs
              (classify_ends roles fs at e quiet λ fs quiet. Ends-pure _ w fs quiet q)))

  abbrev AllNew : Type 0
  AllNew = (r : TargetRole) → (w.disk r).target ≡ regular (b.new r)

  pub all_new_targets :
      ((r : TargetRole) → (w.disk r).target ≡ node_of (digest (w.disk r).target))
      → all is_new (map class_of order) ≡ true
      → AllNew
  all_new_targets at h =
      let (h0, t0) = &&-eq-true _ _ h in
      let (h1, t1) = &&-eq-true _ _ t0 in
      let (h2, t2) = &&-eq-true _ _ t1 in
      let (h3, t3) = &&-eq-true _ _ t2 in
      all_four (λ r. (w.disk r).target ≡ regular (b.new r)) (new_at h0) (new_at h1) (new_at h2)
        (new_at h3)
    where
      new_at : {r : TargetRole} → is_new (class_of r) ≡ true → (w.disk r).target ≡ regular (b.new r)
      new_at {r} h = at r ∙ ap node_of (new_hash r (b.new r) (states r) (b.old r) _ h)

  pub targets_all_new : AllNew → all is_new (map class_of order) ≡ true
  targets_all_new news =
      ap₂ ◌&&◌ (one readme)
        (ap₂ ◌&&◌ (one license) (ap₂ ◌&&◌ (one notices) (ap₂ ◌&&◌ (one binary) refl)))
    where
      one : (r : TargetRole) → is_new (class_of r) ≡ true
      one r =
          ap (λ n. is_new (classify (target_of r (b.old r) (b.new r) (states r)) (digest n)))
            (news r)
          ∙ new_is_new r (b.new r) (states r) (b.old r)

  pub none_unknown :
      ((r : TargetRole) → is_unknown (class_of r) ≡ false)
      → any is_unknown (map class_of order) ≡ false
  none_unknown known =
      ap₂ ◌||◌ (known readme)
        (ap₂ ◌||◌ (known license) (ap₂ ◌||◌ (known notices) (ap₂ ◌||◌ (known binary) refl)))

-- A role whose target is new can be left as it is.
pub slot-IsPlaced :
    {old : Option Text} {new : Text} {f : RoleFiles}
    → IsSlot old new f
    → f.target ≡ regular new
    → IsPlaced old new f
slot-IsPlaced {old} {new} (clean {q} l) e =
    subst (λ t. IsPlaced old new (files t q absent)) (sym e) (tidied l)
slot-IsPlaced {old} {new} (backed {q} l) e =
    subst (λ t. IsPlaced old new (files t q (node_of old))) (sym e) (placed l)
slot-IsPlaced (promoted l) e = placed l

pub target_placed :
    {old : Option Text} {new : Text} {f : RoleFiles} → IsPlaced old new f → f.target ≡ regular new
target_placed (placed l) = refl
target_placed (tidied l) = refl
