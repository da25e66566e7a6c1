-- ===== src/Updater/Recoverable/Suffixes.antt =====
-- A valid marker stays valid through every step of its rollback.
use flist_walker.Prelude.{
  ℕ, zero, suc, ◌<◌, ◌≡◌, refl, sym, ap₂, subst, Bool, true, false, ◌&&◌, ◌||◌, not, Option, none,
  some, List, [], ◌∷◌, arith, take, lt→ltb, &&-eq-true,
}
use mathlib.Core.Path.{fun_ext}
use flist_walker.Text.{Text}
use flist_walker.Updater.Marker.{
  TargetRole, readme, license, notices, binary, role_code, TargetState, TargetRecord, prepared,
  intent, applied, Phase, prepared_parent_owned, helper_registered, applying_sidecars,
  binary_intent, binary_committed, rolling_back, state_eq, TransactionMarker, validate_marker,
  validate_identity, validate_phase, validate_registered_helper, validate_optional_helper,
  registered_helper, optional_helper, no_helper, state_at, is_rollback_suffix, is_forward_prefix,
  all_states,
}
use flist_walker.Updater.Recoverable.{Transaction, marker_of, target_of}
use flist_walker.Updater.Recoverable.Undoing.{rolled}
use flist_walker.Updater.Recoverable.Rollbacks.{all_rolled_back}

-- A test of every state.
every : (TargetState → Bool) → Bool
every f = f prepared && f intent && f applied && f TargetState.rolled_back

every_sound : (f : TargetState → Bool) → every f ≡ true → (s : TargetState) → f s ≡ true
unfolding every
every_sound f h prepared = ground arith
every_sound f h intent = ground arith
every_sound f h applied = ground arith
every_sound f h TargetState.rolled_back = ground arith

implies : Bool → Bool → Bool
implies a b = not a || b

implies_sound : (a b : Bool) → implies a b ≡ true → a ≡ true → b ≡ true
unfolding implies
implies_sound true b h e = h
implies_sound false b h e = cc

-- What `validate_phase` asks of the states.
phase_states : Phase → List TargetRecord → Bool
phase_states prepared_parent_owned targets = all_states targets prepared
phase_states helper_registered targets = all_states targets prepared
phase_states applying_sidecars targets =
    state_at 3 (λ s. state_eq s prepared) targets && is_forward_prefix (take 3 targets)
phase_states binary_intent targets =
    all_states (take 3 targets) applied
    && state_at 3 (λ s. not (state_eq s TargetState.rolled_back)) targets
phase_states binary_committed targets = all_states targets applied
phase_states rolling_back targets = is_rollback_suffix targets
phase_states Phase.rolled_back targets = all_states targets TargetState.rolled_back

optional_of_registered :
    (pid : Option ℕ) (token : Option Text)
    → registered_helper pid token ≡ true
    → optional_helper pid token ≡ true
unfolding registered_helper optional_helper
optional_of_registered none token h = cc
optional_of_registered (some pid) none h = cc
optional_of_registered (some pid) (some token) h = h

optional_of_none :
    (pid : Option ℕ) (token : Option Text)
    → no_helper pid token ≡ true
    → optional_helper pid token ≡ true
unfolding optional_helper
optional_of_none none none h = refl
optional_of_none none (some token) h = cc
optional_of_none (some pid) token h = cc

-- The parts of `validate_phase`.
phase_parts :
    (phase : Phase) (marker : TransactionMarker)
    → validate_phase phase marker ≡ true
    → (validate_optional_helper marker ≡ true) × (phase_states phase marker.targets ≡ true)
unfolding validate_phase phase_states validate_registered_helper validate_optional_helper
phase_parts prepared_parent_owned m h =
    let (helper, states) = &&-eq-true _ _ h in
    (optional_of_none m.helper_pid m.helper_start_token helper, states)
phase_parts helper_registered m h =
    let (helper, states) = &&-eq-true _ _ h in
    (optional_of_registered m.helper_pid m.helper_start_token helper, states)
phase_parts applying_sidecars m h =
    let (front, last) = &&-eq-true _ _ h in
    let (helper, states) = &&-eq-true _ _ front in
    (optional_of_registered m.helper_pid m.helper_start_token helper, ap₂ ◌&&◌ states last)
phase_parts binary_intent m h =
    let (front, last) = &&-eq-true _ _ h in
    let (helper, states) = &&-eq-true _ _ front in
    (optional_of_registered m.helper_pid m.helper_start_token helper, ap₂ ◌&&◌ states last)
phase_parts binary_committed m h =
    let (helper, states) = &&-eq-true _ _ h in
    (optional_of_registered m.helper_pid m.helper_start_token helper, states)
phase_parts rolling_back m h = &&-eq-true _ _ h
phase_parts Phase.rolled_back m h = &&-eq-true _ _ h

below_four : (m : ℕ) (q : TargetRole) → role_code q < suc (suc (suc (suc m)))
below_four m readme = omega arith
below_four m license = omega arith
below_four m notices = omega arith
below_four m binary = omega arith

module _ (b : Transaction) where
  abbrev four : TargetState → TargetState → TargetState → TargetState → List TargetRecord
  four s t u v =
      target_of readme (b.old readme) (b.new readme) s
      ∷ target_of license (b.old license) (b.new license) t
      ∷ target_of notices (b.old notices) (b.new notices) u
      ∷ target_of binary (b.old binary) (b.new binary) v
      ∷ []

  -- The states from the last record on, rolled back one by one.
  undoable : TargetState → TargetState → TargetState → TargetState → Bool
  unfolding is_rollback_suffix
  undoable s t u v =
      let r = TargetState.rolled_back in
      is_rollback_suffix (four s t u v)
      && is_rollback_suffix (four s t u r)
      && is_rollback_suffix (four s t r r)
      && is_rollback_suffix (four s r r r)

  -- Every combination of states, by evaluation.
  table : Phase → Bool
  table phase = every λ s.
      every
        λ t. every λ u. every λ v. implies (phase_states phase (four s t u v)) (undoable s t u v)

  table_holds : (phase : Phase) → table phase ≡ true
  unfolding table every implies phase_states undoable all_states is_forward_prefix
      is_rollback_suffix
  table_holds prepared_parent_owned = refl
  table_holds helper_registered = refl
  table_holds applying_sidecars = refl
  table_holds binary_intent = refl
  table_holds binary_committed = refl
  table_holds rolling_back = refl
  table_holds Phase.rolled_back = refl

  undoable_of :
      (phase : Phase) (s t u v : TargetState)
      → phase_states phase (four s t u v) ≡ true
      → undoable s t u v ≡ true
  unfolding table
  undoable_of phase s t u v h =
      let all_s = every_sound _ (table_holds phase) s in
      let all_t = every_sound _ all_s t in
      let all_u = every_sound _ all_t u in implies_sound _ _ (every_sound _ all_u v) h

  below_stays :
      (n : ℕ) (states : TargetRole → TargetState) (q : TargetRole)
      → role_code q < n
      → rolled n states q ≡ states q
  below_stays n states q h = rw (lt→ltb (role_code q) n h)

  rolled_from_four :
      (m : ℕ) (states : TargetRole → TargetState) → rolled (suc (suc (suc (suc m)))) states ≡ states
  rolled_from_four m states = fun_ext (λ q. below_stays _ states q (below_four m q))

  suffix_of :
      (n : ℕ) (states : TargetRole → TargetState)
      → undoable (states readme) (states license) (states notices) (states binary) ≡ true
      → is_rollback_suffix (marker_of b rolling_back (rolled n states)).targets ≡ true
  unfolding undoable is_rollback_suffix
  suffix_of zero states h = refl
  suffix_of (suc zero) states h = (&&-eq-true _ _ h).1
  suffix_of (suc (suc zero)) states h = (&&-eq-true _ _ (&&-eq-true _ _ h).0).1
  suffix_of (suc (suc (suc zero))) states h =
      (&&-eq-true _ _ (&&-eq-true _ _ (&&-eq-true _ _ h).0).0).1
  suffix_of (suc (suc (suc (suc m)))) states h =
      subst
        (λ (st : TargetRole → TargetState).
          is_rollback_suffix (marker_of b rolling_back st).targets ≡ true)
        (sym (rolled_from_four m states)) (&&-eq-true _ _ (&&-eq-true _ _ (&&-eq-true _ _ h).0).0).0

  module _ (phase : Phase) (states : TargetRole → TargetState)
      (valid : validate_marker (marker_of b phase states) ≡ true) where
    pub valid_rolling :
        (n : ℕ) → validate_marker (marker_of b rolling_back (rolled n states)) ≡ true
    unfolding validate_marker validate_identity validate_phase
    valid_rolling n =
        let (identity, ok_phase) = &&-eq-true _ _ valid in
        let (helper, ok_states) = phase_parts phase (marker_of b phase states) ok_phase in
        ap₂ ◌&&◌ identity (
          ap₂ ◌&&◌ helper (
            suffix_of n states (
              undoable_of phase (states readme) (states license) (states notices) (states binary)
                ok_states)))

    pub valid_rolled_back : validate_marker (marker_of b Phase.rolled_back all_rolled_back) ≡ true
    unfolding validate_marker validate_identity validate_phase all_states
    valid_rolled_back =
        let (identity, ok_phase) = &&-eq-true _ _ valid in
        let (helper, ok_states) = phase_parts phase (marker_of b phase states) ok_phase in
        ap₂ ◌&&◌ identity (ap₂ ◌&&◌ helper refl)
