-- ===== src/Tests/Updates.antt =====
-- Runs of the updater on a small bundle.
pub mod Bundle
use flist_walker.Prelude.{
  ℕ, zero, suc, ◌+◌, ◌-◌, ◌*◌, ◌/◌, ◌%◌, ◌^◌, ◌≤◌, ◌<◌, min, max, ◌≡◌, refl, sym, ap, ap₂, ◌∙◌,
  subst, ◌≢◌, ◌↔◌, ◌⊎◌, inl, inr, Bool, true, false, ◌&&◌, ◌||◌, not, Option, none, some, List, [],
  ◌∷◌, ◌++◌, map, append_assoc, append-nil, arith, ℤ, compare_int, pos, negsuc, length, get_elem?,
  take, drop, is_empty, any, all, find_first, All, Member, length-append, length-take, length-drop,
  drop-append, any-append, filter_map, flat_map, length-map, drop-append_le, drop_of_get_elem?,
  get_elem?-eq-some_lt, get_elem?-eq-none_le, get_elem?_total, nil_of_length, here, there, Result,
  try_map, ok, err, ltb, leb, ◌==◌, if◌then◌else◌, ltb→lt, lt→ltb, leb→le, le→leb, ==_iff, tests,
  Bool-cases, Option-cases, &&-eq-true, ||-eq-true, Bool-eq_of_iff, some_inj, if_both,
}
use flist_walker.Text.{Text, text_eq, len}
use flist_walker.Updater.Exec.{
  read, Outcome, done, failed, Fault, works, stops, pure, fail, io, gets, ensure, modify, ◌>>=◌,
  on_error,
}
use flist_walker.Updater.Marker.{
  role_eq, TargetRole, readme, license, notices, binary, order, Phase, prepared_parent_owned,
  helper_registered, applying_sidecars, binary_intent, binary_committed, prepared,
  TransactionMarker, is_lower_hex, is_sha256, validate_transaction_id, validate_start_token,
  is_safe_basename, all_states, is_forward_from, is_forward_prefix, is_rollback_suffix,
  registered_helper, validate_registered_helper, optional_helper, validate_optional_helper,
  validate_phase, validate_hashes, validate_identity, validate_marker,
}
use flist_walker.Updater.Disk.{
  absent, regular, RoleFiles, hash_if_regular, sha256_file, sync, replace_existing,
  promote_absent_no_overwrite, restore_existing,
}
use flist_walker.Updater.World.{
  World, MarkerFile, missing, holds, unreadable, at_role, read_marker, write_marker_atomic,
  write_as, recover_marker_update_artifacts,
}
use flist_walker.Updater.Rollback.{
  revalidate_rollback_paths, revalidate_rollback_hashes, drop_backup, unless_touched,
  rollback_present, rollback_absent, rollback_target, record_at, rollback_below, verify_targets,
  verify_bundle_hashes, rollback_transaction,
}
use flist_walker.Updater.Cleanup.{
  validate_ack, validate_optional_hash, validate_roles, validate_cleanup_artifacts, remove_roles,
  cleanup_transaction_artifacts, cleanup_committed, cleanup_rolled_back,
}
use flist_walker.Updater.Apply.{
  Surroundings, revalidate_old_hash, revalidate_operation_paths, apply_one_target, give_up,
  apply_index, apply_from, apply_all, activate, execute_registered_transaction,
}
use flist_walker.Updater.Recover.{
  ProcessProbe, RecoveryOutcome, rolled_back, committed, classify_target, classify_targets,
  live_outcome, roll_back, commit, resolve, recover_loaded, recover_transaction,
}
use flist_walker.Updater.Recoverable.{
  Transaction, marker_of, target_of, node_of, files, ready, HasOwnFiles, IsSlot, clean, backed,
  promoted, gone, kept, IsRecoverable, live,
}
use flist_walker.Updater.Recoverable.Validity.{all_prepared, intent_at}
use flist_walker.Updater.Recoverable.Execution.{IsPrepared}
use flist_walker.Updater.Recoverable.Activation.{IsDone}
use flist_walker.Updater.Recoverable.Restarts.{IsOut, AreOut}
use flist_walker.Updater.Recoverable.Commits.{Settles}
use flist_walker.Updater.Recoverable.Safety.{
  executed, recovered, Reaches-IsRecoverable, recover_transaction-Settles,
  execute_registered_transaction-IsDone,
}
use flist_walker.Updater.Register.{HelperProcess}
use flist_walker.Updater.Recoverable.Answering.{registered_by, IsEither}
use flist_walker.Updater.Recoverable.Registration.{IsOwned}
use flist_walker.Updater.Recoverable.Updating.{update_by, update_by-IsRecoverable, update_by-IsDone}
use flist_walker.Updater.Recoverable.Evidence.{
  has_unknown, SameEvidence, recover_transaction-SameEvidence,
}
use flist_walker.Updater.Recoverable.Stuck.{IsStuck, LeavesOpen, recover_transaction-IsStuck}
use flist_walker.Tests.Updates.Bundle.{
  repeat, registered, token, old_hash, new_hash, bundle, start, usual, dead, after,
}

-- The calls of the registered helper, of which the last that is listed never returns.
abbrev run : ℕ → Outcome (Unit {0}) × World × List Fault
run n = execute_registered_transaction usual token start (after n)

abbrev outcome_of : ℕ → Outcome RecoveryOutcome
outcome_of n = (recover_transaction dead (run n).1 []).0

abbrev half_files : TargetRole → RoleFiles
half_files readme = files (regular (new_hash readme)) absent (node_of (old_hash readme))
half_files license = files (regular (new_hash license)) absent (node_of (old_hash license))
half_files notices =
    files (node_of (old_hash notices)) (regular (new_hash notices)) (node_of (old_hash notices))
half_files binary = files (node_of (old_hash binary)) (regular (new_hash binary)) absent

-- The license is in its place, and the notices are being replaced.
abbrev half_done : World
half_done = record start {
  marker = holds (marker_of bundle applying_sidecars (intent_at notices));
  disk = half_files;
}

-- The binary is in its place, and the marker does not say so yet.
abbrev unnoted : World
unnoted = record start {
  marker = holds (marker_of bundle binary_intent (intent_at binary));
  disk = λ r. files (regular (new_hash r)) absent (node_of (old_hash r));
}

start_valid : validate_marker (marker_of bundle helper_registered all_prepared) ≡ true
unfolding validate_marker validate_identity validate_hashes validate_phase optional_helper
    registered_helper validate_registered_helper validate_optional_helper is_rollback_suffix
    is_forward_prefix is_forward_from all_states is_safe_basename validate_start_token
    validate_transaction_id is_sha256 is_lower_hex text_eq len
start_valid = refl

half_done_valid : validate_marker (marker_of bundle applying_sidecars (intent_at notices)) ≡ true
unfolding validate_marker validate_identity validate_hashes validate_phase optional_helper
    registered_helper validate_registered_helper validate_optional_helper is_rollback_suffix
    is_forward_prefix is_forward_from all_states is_safe_basename validate_start_token
    validate_transaction_id is_sha256 is_lower_hex text_eq len
half_done_valid = refl

unnoted_valid : validate_marker (marker_of bundle binary_intent (intent_at binary)) ≡ true
unfolding validate_marker validate_identity validate_hashes validate_phase optional_helper
    registered_helper validate_registered_helper validate_optional_helper is_rollback_suffix
    is_forward_prefix is_forward_from all_states is_safe_basename validate_start_token
    validate_transaction_id is_sha256 is_lower_hex text_eq len
unnoted_valid = refl

unnoted_refused : validate_marker (marker_of bundle binary_committed (intent_at binary)) ≡ false
unfolding validate_marker validate_identity validate_hashes validate_phase optional_helper
    registered_helper validate_registered_helper validate_optional_helper is_rollback_suffix
    is_forward_prefix is_forward_from all_states is_safe_basename validate_start_token
    validate_transaction_id is_sha256 is_lower_hex text_eq len
unnoted_refused = refl

-- The files of the updater are the same in all three.
own_files : (w : World) → HasOwnFiles bundle (record start { marker = w.marker; disk = w.disk })
unfolding text_eq
own_files w = record { temp = refl; helper = inl refl; ack = refl; lock = refl }

start-IsPrepared : IsPrepared bundle start
start-IsPrepared = record {
  own = own_files start;
  durable = refl;
  valid = start_valid;
  readies = λ r. ready;
}

half_slots : (r : TargetRole) → IsSlot (old_hash r) (new_hash r) (half_files r)
half_slots readme = promoted gone
half_slots license = promoted gone
half_slots notices = backed kept
half_slots binary = clean kept

applying_intent : {A : Type 0} → applying_sidecars ≡ binary_intent → A
applying_intent e = absurd (cc e)

applying_committed : {A : Type 0} → applying_sidecars ≡ binary_committed → A
applying_committed e = absurd (cc e)

abbrev phase_of : MarkerFile → Phase
phase_of missing = helper_registered
phase_of (holds marker) = marker.phase
phase_of unreadable = helper_registered

half_done-IsRecoverable : IsRecoverable bundle half_done
half_done-IsRecoverable =
    live applying_sidecars (intent_at notices)
      (record {
        own = own_files half_done;
        durable = refl;
        valid = half_done_valid;
        slots = half_slots;
      })
      (λ e. applying_committed e)

unnoted-IsStuck : IsStuck bundle (intent_at binary) unnoted
unnoted-IsStuck = record {
  held = record {
    own = own_files unnoted;
    durable = refl;
    valid = unnoted_valid;
    slots = λ r. promoted gone;
  };
  news = λ r. refl;
  refused = unnoted_refused;
}

Reaches-IsRecoverable_example :
    IsRecoverable bundle
      (recover_transaction dead
        (execute_registered_transaction usual token start (after 20)).1
        (after 5)).1
Reaches-IsRecoverable_example =
    Reaches-IsRecoverable bundle start-IsPrepared
      (recovered dead (after 5) (executed usual token (after 20)))

-- The program that recovers is the only one that runs, under the PID that its helper once had.
abbrev reused : ProcessProbe
reused = record {
  is_alive = λ pid. pid == 9;
  executable_matches = λ pid. false;
  is_current_process = λ pid. pid == 9;
}

reused-AreOut : AreOut reused registered
reused-AreOut = (inl refl, λ pid e. subst (IsOut reused) (some_inj e) (inr refl))

recover_transaction-Settles_example :
    (outcome : RecoveryOutcome) × ((recover_transaction reused half_done []).0 ≡ done outcome)
    × Settles bundle outcome (recover_transaction reused half_done []).1
recover_transaction-Settles_example =
    recover_transaction-Settles bundle reused half_done half_done-IsRecoverable (λ e. cc e)
      reused-AreOut (λ states e news. applying_intent (ap phase_of e))

execute_registered_transaction-IsDone_example :
    ((execute_registered_transaction usual token start []).0 ≡ done tt)
    × IsDone bundle (execute_registered_transaction usual token start []).1
execute_registered_transaction-IsDone_example =
    execute_registered_transaction-IsDone usual bundle token start start-IsPrepared refl refl refl
      refl (λ r. refl)

recover_transaction-IsStuck_example :
    IsStuck bundle (intent_at binary) (recover_transaction dead unnoted []).1
    × ((outcome : RecoveryOutcome)
        → (recover_transaction dead unnoted []).0 ≡ done outcome
        → LeavesOpen outcome)
recover_transaction-IsStuck_example =
    recover_transaction-IsStuck bundle (intent_at binary) dead unnoted [] unnoted-IsStuck

-- Somebody has put another file in the place of the notices.
abbrev replaced_notices : World
replaced_notices = record start {
  disk = λ r.
      files (if role_eq r notices then regular (repeat 64 b'9') else node_of (old_hash r))
        (regular (new_hash r)) absent;
}

replaced_notices_unknown : has_unknown replaced_notices registered.targets ≡ true
unfolding text_eq
replaced_notices_unknown = refl

recover_transaction-SameEvidence_example :
    SameEvidence replaced_notices (recover_transaction dead replaced_notices (after 9)).1
    × ((outcome : RecoveryOutcome)
        → (recover_transaction dead replaced_notices (after 9)).0 ≡ done outcome
        → LeavesOpen outcome)
recover_transaction-SameEvidence_example =
    recover_transaction-SameEvidence registered dead replaced_notices (after 9) refl
      replaced_notices_unknown

-- The update reaches that state where only its first 58 calls are done, and a recovery then fails;
-- it ends the transaction where the update has stopped earlier or later.
interrupted_runs :
    ((run 58).1.marker ≡ unnoted.marker)
    × (map outcome_of (20 ∷ 56 ∷ 58 ∷ 62 ∷ [])
        ≡ done rolled_back ∷ done rolled_back ∷ failed ∷ done committed ∷ [])
unfolding pure fail io read gets ensure modify ◌>>=◌ on_error is_lower_hex is_sha256
    validate_transaction_id validate_start_token is_safe_basename all_states is_forward_from
    is_forward_prefix is_rollback_suffix registered_helper validate_registered_helper
    optional_helper validate_optional_helper validate_phase validate_hashes validate_identity
    validate_marker hash_if_regular sha256_file sync replace_existing promote_absent_no_overwrite
    restore_existing at_role read_marker write_marker_atomic write_as
    recover_marker_update_artifacts revalidate_rollback_paths revalidate_rollback_hashes drop_backup
    unless_touched rollback_present rollback_absent rollback_target record_at rollback_below
    verify_targets verify_bundle_hashes rollback_transaction validate_ack validate_optional_hash
    validate_roles validate_cleanup_artifacts remove_roles cleanup_transaction_artifacts
    cleanup_committed cleanup_rolled_back revalidate_old_hash revalidate_operation_paths
    apply_one_target give_up apply_index apply_from apply_all activate
    execute_registered_transaction classify_target classify_targets live_outcome roll_back commit
    resolve recover_loaded recover_transaction text_eq len
interrupted_runs = (refl, refl)
