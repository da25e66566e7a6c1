-- ===== src/Tests/Registering.antt =====
-- A whole update of the small bundle, from the registration of its helper.
use flist_walker.Prelude.{◌≡◌, refl, true, none, []}
use flist_walker.Text.{text_eq, len}
use flist_walker.Updater.Exec.{done}
use flist_walker.Updater.Marker.{
  prepared_parent_owned, is_lower_hex, is_sha256, validate_transaction_id, validate_start_token,
  is_safe_basename, all_states, validate_phase, validate_hashes, validate_identity, validate_marker,
}
use flist_walker.Updater.World.{World, holds}
use flist_walker.Updater.Recoverable.{Transaction, marker_of, ready}
use flist_walker.Updater.Recoverable.Validity.{all_prepared}
use flist_walker.Updater.Recoverable.Activation.{IsDone}
use flist_walker.Updater.Register.{HelperProcess}
use flist_walker.Updater.Recoverable.Answering.{registered_by, IsEither}
use flist_walker.Updater.Recoverable.Registration.{IsOwned}
use flist_walker.Updater.Recoverable.Updating.{update_by, update_by-IsRecoverable, update_by-IsDone}
use flist_walker.Tests.Updates.Bundle.{token, registered, bundle, start, usual, after}

-- The same update before its helper is registered.
abbrev unregistered : Transaction
unregistered = record bundle {
  ident = record registered { helper_pid = none; helper_start_token = none };
}

abbrev parent_owned : World
parent_owned = record start {
  marker = holds (marker_of unregistered prepared_parent_owned all_prepared);
  ack = none;
}

unregistered_valid :
    validate_marker (marker_of unregistered prepared_parent_owned all_prepared) ≡ true
unfolding validate_marker validate_identity validate_hashes validate_phase all_states
    is_safe_basename validate_transaction_id is_sha256 is_lower_hex text_eq len
unregistered_valid = refl

token_valid : validate_start_token token ≡ true
unfolding validate_start_token len
token_valid = refl

parent_owned-IsOwned : IsOwned unregistered parent_owned
parent_owned-IsOwned = record {
  temp = refl;
  helper = refl;
  silent = refl;
  lock = refl;
  unregistered = refl;
  durable = refl;
  valid = unregistered_valid;
  readies = λ r. ready;
}

abbrev helper_9 : HelperProcess
helper_9 = record { pid = 9; is_own_path = true; is_parent_alive = true; process = usual }

update_by-IsRecoverable_example :
    IsEither unregistered 9 token
      (update_by helper_9 unregistered.ident.transaction_id token parent_owned (after 12)).1
update_by-IsRecoverable_example =
    update_by-IsRecoverable helper_9 unregistered token parent_owned (after 12) parent_owned-IsOwned

update_by-IsDone_example :
    ((update_by helper_9 unregistered.ident.transaction_id token parent_owned []).0 ≡ done true)
    × IsDone
        (registered_by 9 token unregistered)
        (update_by helper_9 unregistered.ident.transaction_id token parent_owned []).1
update_by-IsDone_example =
    update_by-IsDone helper_9 unregistered token parent_owned parent_owned-IsOwned (λ e. cc e)
      token_valid refl refl refl (λ r. refl)
