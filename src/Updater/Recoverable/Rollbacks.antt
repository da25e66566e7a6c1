-- ===== src/Updater/Recoverable/Rollbacks.antt =====
-- `rollback_transaction` as a whole.
use flist_walker.Prelude.{
  ℕ, ◌≤◌, ◌≡◌, refl, sym, ap, ◌∙◌, subst, ◌≢◌, inl, inr, Bool, true, false, List, arith, length,
  if◌then◌else◌, Bool-cases,
}
use flist_walker.Updater.Exec.{Exec, Fault, pure, ◌>>=◌, gets}
use flist_walker.Updater.Exec.Ends.{Ends, Quiet, after, Ends-pure, Ends-gets}
use flist_walker.Updater.Marker.{
  TargetRole, TargetState, Phase, prepared_parent_owned, helper_registered, applying_sidecars,
  binary_intent, binary_committed, rolling_back, phase_eq, TransactionMarker, validate_marker,
  role_code,
}
use flist_walker.Updater.World.{World, missing, write_as}
use flist_walker.Updater.Rollback.{
  rollback_below, verify_bundle_hashes, with_phase, rollback_transaction,
}
use flist_walker.Updater.Recoverable.{
  Transaction, marker_of, Everywhere, Holds, IsRunning, running, IsOld, IsNew,
}
use flist_walker.Updater.Recoverable.Writes.{write_ends, Holds-written}
use flist_walker.Updater.Recoverable.Verify.{verify_old_bundle}
use flist_walker.Updater.Recoverable.Undoing.{rolled, IsUndoing, undoing, below}

abbrev pub all_rolled_back : TargetRole → TargetState
all_rolled_back r = TargetState.rolled_back

-- The transaction is rolled back, in memory, in the marker and on disk.
pub record IsUndone (b : Transaction) (w : World) : Type 0 where
  pub held : Holds b Phase.rolled_back all_rolled_back w
  pub memory : w.memory ≡ marker_of b Phase.rolled_back all_rolled_back
  pub olds : Everywhere b IsOld w
  pub free : w.marker_temp ≡ missing

rolling_of_eq : (phase : Phase) → phase_eq phase rolling_back ≡ true → phase ≡ rolling_back
rolling_of_eq rolling_back h = refl
rolling_of_eq prepared_parent_owned h = cc
rolling_of_eq helper_registered h = cc
rolling_of_eq applying_sidecars h = cc
rolling_of_eq binary_intent h = cc
rolling_of_eq binary_committed h = cc
rolling_of_eq Phase.rolled_back h = cc

no_role_from_four : (q : TargetRole) → 4 ≤ role_code q → ⊥
no_role_from_four TargetRole.readme h = omega arith
no_role_from_four TargetRole.license h = omega arith
no_role_from_four TargetRole.notices h = omega arith
no_role_from_four TargetRole.binary h = omega arith

module _ (b : Transaction) (strict : Bool) (states : TargetRole → TargetState)
    (good : (n : ℕ)
      → strict ≡ true
      → validate_marker (marker_of b rolling_back (rolled n states)) ≡ true)
    (good_end : strict ≡ true
      → validate_marker (marker_of b Phase.rolled_back all_rolled_back) ≡ true) where
  abbrev Undone : Unit {0} → World → Type 0
  Undone _ w = IsUndone b w

  -- Behind the loop.
  finish_ends :
      (w : World) (fs : List Fault)
      → Quiet strict fs
      → IsUndoing b strict states 0 w
      → Ends strict Undone
          (IsRunning b true)
          ((verify_bundle_hashes false >>= λ _. write_as (with_phase Phase.rolled_back)) w fs)
  finish_ends w fs quiet (undoing phase durable held open_phase memory olds free) =
      let all_old : Everywhere b IsOld w = λ q. olds q (omega arith) in
      let e : IsRunning b true w =
        running phase durable held (λ e. absurd (open_phase e))
          (rolling_back, rolled 0 states, memory, λ e. absurd (cc e)) in
      after _ _ _ fs (
        verify_old_bundle b rolling_back (rolled 0 states) w fs memory all_old quiet e λ fs quiet.
          write_ends b strict true Undone phase Phase.rolled_back durable all_rolled_back w held
            (λ e. absurd (open_phase e)) (λ e. absurd (cc e)) (λ e. absurd (cc e))
            (with_phase Phase.rolled_back) fs (ap (with_phase Phase.rolled_back) memory) good_end
            free quiet
            (λ v. record {
              held = Holds-written b v held;
              memory = refl;
              olds = all_old;
              free = refl;
            }))

  abbrev rest_of_rollback : Exec World (Unit {0})
  rest_of_rollback = gets (λ w. length w.memory.targets) >>= λ count. rollback_below count >>= λ _.
      verify_bundle_hashes false >>= λ _. write_as (with_phase Phase.rolled_back)

  -- From the loop on.
  loop_ends :
      (w : World) (fs : List Fault)
      → Quiet strict fs
      → IsUndoing b strict states 4 w
      → Ends strict Undone (IsRunning b true) (rest_of_rollback w fs)
  loop_ends w fs quiet (undoing phase durable held open_phase memory olds free) =
      let count : length w.memory.targets ≡ 4 =
        ap (λ (m : TransactionMarker). length m.targets) memory in
      after _ _ _ fs (
        Ends-gets _ w fs quiet λ fs quiet. rw count (
          after _ _ _ fs (
            below b strict states good _ (λ w h fs quiet. finish_ends w fs quiet h) w fs quiet
              (undoing phase durable held open_phase memory olds free))))

  module _ (phase phase' : Phase) (durable : TargetRole → TargetState) (w : World)
      (held : Holds b phase durable w) (link : phase ≡ binary_committed → Everywhere b IsNew w)
      (memory : w.memory ≡ marker_of b phase' states)
      (same : phase' ≡ rolling_back → phase ≢ binary_committed)
      (free : strict ≡ true → w.marker_temp ≡ missing) where
    abbrev begin : Bool → Exec World (Unit {0})
    begin already = if already then pure tt else write_as (with_phase rolling_back)

    begin_ends :
        (fs : List Fault)
        → Quiet strict fs
        → Ends strict Undone
            (IsRunning b true)
            ((begin (phase_eq phase' rolling_back) >>= λ _. rest_of_rollback) w fs)
    begin_ends fs quiet = elim (Bool-cases (phase_eq phase' rolling_back)) [
      | inl already ↦
          let e = rolling_of_eq phase' already in
          rw already (
            after _ _ _ fs (
              Ends-pure tt w fs quiet λ fs quiet. loop_ends w fs quiet (
                undoing phase durable held (same e) (memory ∙ ap (λ p. marker_of b p states) e)
                  (λ q le. absurd (no_role_from_four q le)) free)))
      | inr fresh ↦ rw fresh (
          after _ _ _ fs (
            write_ends b strict true _ phase rolling_back durable states w held link
              (λ e. absurd (cc e)) (λ e. absurd (cc e)) (with_phase rolling_back) fs
              (ap (with_phase rolling_back) memory) (good 4) free quiet
              λ v fs quiet. loop_ends _ fs quiet (
                undoing rolling_back states (Holds-written b v held) (λ e. absurd (cc e)) refl
                  (λ q le. absurd (no_role_from_four q le)) (λ _. refl))))
    ]

    -- However it ends, the transaction can be taken up again.
    pub rollback_ends :
        (fs : List Fault)
        → Quiet strict fs
        → Ends strict Undone (IsRunning b true) (rollback_transaction w fs)
    unfolding rollback_transaction
    rollback_ends fs quiet = after _ _ _ fs (
        Ends-gets _ w fs quiet λ fs quiet.
          let p : w.memory.phase ≡ phase' = ap (λ (m : TransactionMarker). m.phase) memory in
          subst
            (λ q.
              Ends strict Undone (IsRunning b true)
                ((begin (phase_eq q rolling_back) >>= λ _. rest_of_rollback) w fs))
            (sym p) (begin_ends fs quiet))
