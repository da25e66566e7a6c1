-- ===== src/Updater/Recoverable/Registration.antt =====
-- The registration of the helper: what it leaves however it ends, and that it prepares the update.
use flist_walker.Prelude.{
  ℕ, ◌≡◌, refl, ap, ap₂, ◌≢◌, inl, inr, Bool, true, ◌&&◌, not, none, some, List, arith, ◌==◌,
  &&-eq-true,
}
use flist_walker.Text.{Text}
use flist_walker.Updater.Exec.{Fault}
use flist_walker.Updater.Exec.Ends.{Ends, Quiet, after, Ends-gets, Ends-ensure}
use flist_walker.Updater.Disk.{regular}
use flist_walker.Updater.Marker.{
  all_states, prepared_parent_owned, helper_registered, TransactionMarker, validate_marker,
  validate_start_token, validate_phase, validate_identity, validate_registered_helper,
  registered_helper,
}
use flist_walker.Updater.World.{World, MarkerFile, missing, holds, is_marker_file, is_own_artifact}
use flist_walker.Updater.Cleanup.{is_optional_ack}
use flist_walker.Updater.Recoverable.Answering.{
  registered_by, IsEither, IsAwaiting, prepared-Either,
}
use flist_walker.Updater.Recoverable.Commits.{IsRecoverable-untemp}
use flist_walker.Updater.Register.{is_parent_owned, with_helper, register_helper}
use flist_walker.Updater.Recoverable.{Transaction, marker_of, Everywhere, IsReady, live}
use flist_walker.Updater.Recoverable.Writing.{written, write_over_ends}
use flist_walker.Updater.Recoverable.Validity.{all_prepared}
use flist_walker.Updater.Recoverable.Activation.{IsSlot-IsReady}
use flist_walker.Updater.Recoverable.Loading.{read_marker_ends}
use flist_walker.Updater.Recoverable.Execution.{IsPrepared}

-- What the preparation leaves: no helper is registered, and none has answered.
pub record IsOwned (b : Transaction) (w : World) : Type 0 where
  pub temp : w.marker_temp ≡ missing
  pub helper : w.helper ≡ regular b.ident.helper_hash
  pub silent : w.ack ≡ none
  pub lock : w.lock ≡ some (b.ident.transaction_id, b.ident.parent_pid)
  pub unregistered : b.ident.helper_pid ≡ none
  pub durable : w.marker ≡ holds (marker_of b prepared_parent_owned all_prepared)
  pub valid : validate_marker (marker_of b prepared_parent_owned all_prepared) ≡ true
  pub readies : Everywhere b IsReady w

-- A marker that is valid without a helper is valid with one.
registered_valid :
    (b : Transaction) (pid : ℕ) (token : Text)
    → pid ≢ 0
    → validate_start_token token ≡ true
    → validate_marker (marker_of b prepared_parent_owned all_prepared) ≡ true
    → validate_marker (marker_of (registered_by pid token b) helper_registered all_prepared) ≡ true
unfolding validate_marker validate_phase validate_identity validate_registered_helper
    registered_helper all_states
registered_valid b pid token positive good v =
    let (identity, phase) = &&-eq-true _ _ v in
    let (none_yet, states) = &&-eq-true _ _ phase in
    ap₂ ◌&&◌ identity (ap₂ ◌&&◌ (ap₂ ◌&&◌ (not_zero pid positive) good) states)
  where
    not_zero : (pid : ℕ) → pid ≢ 0 → not (pid == 0) ≡ true
    not_zero pid positive = ground arith

module _ (b : Transaction) (pid : ℕ) (token : Text) (strict : Bool)
    (positive : strict ≡ true → pid ≢ 0)
    (good : strict ≡ true → validate_start_token token ≡ true) where
  abbrev after_it : Transaction
  after_it = registered_by pid token b

  abbrev Either : World → Type 0
  Either = IsEither b pid token

  owned :
      (w : World) (memory : TransactionMarker) (temp : MarkerFile)
      → is_own_artifact b.ident temp ≡ true
      → IsOwned b w
      → Either (record w { memory = memory; marker_temp = temp })
  owned w memory temp t h = inl (
      live prepared_parent_owned all_prepared
        (record {
          own = record {
            temp = t;
            helper = inl h.helper;
            ack = ap (is_optional_ack b.ident) h.silent;
            lock = h.lock;
          };
          durable = h.durable;
          valid = h.valid;
          slots = λ r. IsSlot-IsReady (h.readies r);
        })
        (λ e. absurd (cc e)))

  prepared :
      (w : World)
      → IsOwned b w
      → validate_marker (marker_of after_it helper_registered all_prepared) ≡ true
      → IsPrepared after_it (written w (marker_of after_it helper_registered all_prepared))
  prepared w h v = record {
    own = record {
      temp = refl;
      helper = inl h.helper;
      ack = ap (is_optional_ack after_it.ident) h.silent;
      lock = h.lock;
    };
    durable = refl;
    valid = v;
    readies = h.readies;
  }

  -- The variable is no part of what is on disk.
  IsOwned-in :
      (w : World) (memory : TransactionMarker)
      → IsOwned b w
      → IsOwned b (record w { memory = memory })
  IsOwned-in w memory h = record {
    temp = h.temp;
    helper = h.helper;
    silent = h.silent;
    lock = h.lock;
    unregistered = h.unregistered;
    durable = h.durable;
    valid = h.valid;
    readies = h.readies;
  }

  untemp : (w : World) → Either w → Either (record w { marker_temp = missing })
  untemp w (inl e) = inl (IsRecoverable-untemp b w e)
  untemp w (inr e) = inr (IsRecoverable-untemp after_it w e)

  owned-Either : (w : World) → IsOwned b w → Either w
  owned-Either w h = owned w w.memory w.marker_temp (ap (is_own_artifact b.ident) h.temp) h

  pub register_ends :
      (w : World) (fs : List Fault)
      → Quiet strict fs
      → IsOwned b w
      → Ends strict (λ _ w. IsAwaiting b pid token w) Either (register_helper pid token w fs)
  unfolding register_helper
  register_ends w fs quiet h =
      let marker = marker_of b prepared_parent_owned all_prepared in
      let h' = IsOwned-in w marker h in
      let e' = owned-Either _ h' in
      after _ _ _ fs (
        Ends-ensure _ w fs quiet (owned-Either w h) good λ _ fs quiet. after _ _ _ fs (
          read_marker_ends marker w fs h.durable h.valid quiet (owned-Either w h) e' λ fs quiet.
            after _ _ _ fs (
              Ends-gets _ _ fs quiet λ fs quiet. after _ _ _ fs (
                Ends-ensure _ _ fs quiet e'
                  (λ _. ap (λ p. is_parent_owned (record marker { helper_pid = p })) h.unregistered)
                  λ _ fs quiet.
                    write_over_ends after_it strict _ Either helper_registered all_prepared _
                      (ap (is_own_artifact b.ident) h.temp) (ap is_marker_file h.durable)
                      (λ temp t. owned _ _ temp t h')
                      (λ v. prepared-Either b pid token _ (prepared _ h' v)) untemp
                      (with_helper pid token) fs refl
                      (λ t. registered_valid b pid token (positive t) (good t) h.valid)
                      (λ _. h.temp) quiet
                      (λ v. record {
                        ready = prepared _ h' v;
                        silent = h.silent;
                        present = h.helper;
                      })))))
