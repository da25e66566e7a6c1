-- ===== src/Updater/Recoverable/Validity.antt =====
-- Which markers of a transaction `validate_marker` lets pass.
use flist_walker.Prelude.{ℕ, suc, ◌≡◌, refl, true, arith, ltb, ◌==◌, if◌then◌else◌, &&-eq-true}
use flist_walker.Updater.Marker.{
  TargetRole, readme, license, notices, binary, role_code, TargetState, prepared, intent, applied,
  Phase, helper_registered, applying_sidecars, binary_intent, binary_committed, validate_marker,
  validate_identity, validate_phase, validate_registered_helper, registered_helper,
  is_forward_prefix, all_states,
}
use flist_walker.Updater.Recoverable.{Transaction, marker_of}

abbrev pub all_prepared : TargetRole → TargetState
all_prepared r = prepared

-- The states when the records below `n` are applied.
abbrev pub forward : ℕ → TargetRole → TargetState
forward n q = if ltb (role_code q) n then applied else prepared

-- The states while the record of one role is being applied.
abbrev pub intent_at : TargetRole → TargetRole → TargetState
intent_at r q =
    if ltb (role_code q) (role_code r)
    then applied
    else if role_code q == role_code r
    then intent
    else prepared

-- The phase in which the target of a role is replaced.
abbrev pub phase_at : TargetRole → Phase
phase_at readme = applying_sidecars
phase_at license = applying_sidecars
phase_at notices = applying_sidecars
phase_at binary = binary_intent

module _ (b : Transaction) where
  -- The parts of a marker that do not change.
  pub record IsSound : Type 0 where
    pub identity : validate_identity (marker_of b helper_registered all_prepared) ≡ true
    pub helper : registered_helper b.ident.helper_pid b.ident.helper_start_token ≡ true

  pub IsSound-registered :
      validate_marker (marker_of b helper_registered all_prepared) ≡ true → IsSound
  unfolding validate_marker validate_phase validate_registered_helper
  IsSound-registered v =
      let (identity, phase) = &&-eq-true _ _ v in
      let (helper, states) = &&-eq-true _ _ phase in record { identity = identity; helper = helper }

  module _ (sound : IsSound) where
    valid_of :
        (phase : Phase) (states : TargetRole → TargetState)
        → validate_phase phase (marker_of b phase states) ≡ true
        → validate_marker (marker_of b phase states) ≡ true
    unfolding validate_marker validate_identity
    valid_of phase states h = rw h (ground (arith, sound.identity))

    abbrev Valid : Phase → (TargetRole → TargetState) → Type 0
    Valid phase states = validate_marker (marker_of b phase states) ≡ true

    pub Valid-intent : (r : TargetRole) → Valid (phase_at r) (intent_at r)
    unfolding validate_phase validate_registered_helper is_forward_prefix all_states
    Valid-intent readme = valid_of applying_sidecars (intent_at readme) (rw sound.helper refl)
    Valid-intent license = valid_of applying_sidecars (intent_at license) (rw sound.helper refl)
    Valid-intent notices = valid_of applying_sidecars (intent_at notices) (rw sound.helper refl)
    Valid-intent binary = valid_of binary_intent (intent_at binary) (rw sound.helper refl)

    pub Valid-forward : (r : TargetRole) → Valid (phase_at r) (forward (suc (role_code r)))
    unfolding validate_phase validate_registered_helper is_forward_prefix all_states
    Valid-forward readme = valid_of applying_sidecars (forward 1) (rw sound.helper refl)
    Valid-forward license = valid_of applying_sidecars (forward 2) (rw sound.helper refl)
    Valid-forward notices = valid_of applying_sidecars (forward 3) (rw sound.helper refl)
    Valid-forward binary = valid_of binary_intent (forward 4) (rw sound.helper refl)

    pub Valid-applying : Valid applying_sidecars all_prepared
    unfolding validate_phase validate_registered_helper is_forward_prefix all_states
    Valid-applying = valid_of applying_sidecars all_prepared (rw sound.helper refl)

    pub Valid-binary_intent : Valid binary_intent (forward 3)
    unfolding validate_phase validate_registered_helper is_forward_prefix all_states
    Valid-binary_intent = valid_of binary_intent (forward 3) (rw sound.helper refl)

    pub Valid-committed : Valid binary_committed (forward 4)
    unfolding validate_phase validate_registered_helper is_forward_prefix all_states
    Valid-committed = valid_of binary_committed (forward 4) (rw sound.helper refl)
