-- ===== src/Updater/Recoverable/Execution.antt =====
-- `execute_registered_transaction` on a prepared transaction.
use flist_walker.Prelude.{◌≡◌, refl, ap, ◌∙◌, Bool, true, false, Option, none, some, List, arith}
use flist_walker.Text.{Text}
use flist_walker.Text.Affix.{text_eq_refl}
use flist_walker.Updater.Exec.{Fault, ◌>>=◌, ensure}
use flist_walker.Updater.Exec.Ends.{
  Ends-read, Ends, Quiet, lossy-Quiet, after, Ends-fail, Ends-ensure, Ends-gets, Ends-mono,
}
use flist_walker.Updater.Marker.{TargetRole, helper_registered, validate_marker}
use flist_walker.Updater.World.{World, missing, holds}
use flist_walker.Updater.Cleanup.{is_ack, validate_ack}
use flist_walker.Updater.Apply.{
  Surroundings, is_registered, give_up, wait_or_give_up, execute_registered_transaction,
}
use flist_walker.Updater.Recoverable.{
  Transaction, marker_of, Everywhere, Holds, HasOwnFiles, IsRecoverable, live, over_old, IsReady,
}
use flist_walker.Updater.Recoverable.Writes.{Holds-temp}
use flist_walker.Updater.Recoverable.Rollbacks.{rollback_ends}
use flist_walker.Updater.Recoverable.Validity.{IsSound-registered, all_prepared}
use flist_walker.Updater.Recoverable.Loading.{read_marker_ends, artifacts_ends}
use flist_walker.Updater.Recoverable.Activation.{
  IsRecoverable-IsRunning, IsSlot-IsReady, IsStarted, IsDone, activate_ends,
  cleanup_rolled_back_ends, lossy_of_passes, strict_and_lossy,
}

-- What the preparation leaves when the helper is registered.
pub record IsPrepared (b : Transaction) (w : World) : Type 0 where
  pub own : HasOwnFiles b w
  pub durable : w.marker ≡ holds (marker_of b helper_registered all_prepared)
  pub valid : validate_marker (marker_of b helper_registered all_prepared) ≡ true
  pub readies : Everywhere b IsReady w

-- The variable is no part of what is on disk.
held_in :
    (b : Transaction) (w : World)
    → Holds b helper_registered all_prepared w
    → Holds b helper_registered all_prepared
        (record w { memory = marker_of b helper_registered all_prepared })
held_in b w h = record {
  own = record { temp = h.own.temp; helper = h.own.helper; ack = h.own.ack; lock = h.own.lock };
  durable = h.durable;
  valid = h.valid;
  slots = h.slots;
}

module _ (process : Surroundings) (b : Transaction) (token : Text) (strict : Bool)
    (acked : Option (Text × Text))
    (acks : strict ≡ true → acked ≡ some (b.ident.transaction_id, token))
    (tokens : strict ≡ true → b.ident.helper_start_token ≡ some token)
    (exits : strict ≡ true → process.parent_exits ≡ some true)
    (restarts : strict ≡ true → process.restarts ≡ true)
    (passes : strict ≡ true → (r : TargetRole) → process.after_applied r ≡ true) where
  -- The marker is in the variable; nothing else has changed.
  record IsLoaded (w : World) : Type 0 where
    pub held : Holds b helper_registered all_prepared w
    pub memory : w.memory ≡ marker_of b helper_registered all_prepared
    pub readies : Everywhere b IsReady w
    pub ack : w.ack ≡ acked

  IsLoaded-untemp : (w : World) → IsLoaded w → IsLoaded (record w { marker_temp = missing })
  IsLoaded-untemp w h = record {
    held = Holds-temp b missing refl h.held;
    memory = h.memory;
    readies = h.readies;
    ack = h.ack;
  }

  recoverable : (w : World) → IsLoaded w → IsRecoverable b w
  recoverable w h = live helper_registered all_prepared h.held (λ e. absurd (cc e))

  abbrev Achieves : Unit {0} → World → Type 0
  Achieves _ w = IsDone b w

  -- The parent did not end in time: the transaction is rolled back and removed.
  give_up_ends :
      (w : World) (fs : List Fault)
      → strict ≡ false
      → IsLoaded w
      → Ends strict Achieves (IsRecoverable b) (give_up w fs)
  unfolding give_up
  give_up_ends w fs lossy h = after _ _ _ fs (
      Ends-mono
        (rollback_ends b strict all_prepared (λ n t. absurd (strict_and_lossy strict t lossy))
          (λ t. absurd (strict_and_lossy strict t lossy)) helper_registered helper_registered
          all_prepared w h.held (λ e. absurd (cc e)) h.memory (λ e. absurd (cc e))
          (λ t. absurd (strict_and_lossy strict t lossy)) fs (lossy-Quiet strict fs lossy))
        (λ _ w undone fs quiet. after _ _ _ fs (
          Ends-mono (cleanup_rolled_back_ends b strict w fs quiet undone)
            (λ _ w gone fs quiet. Ends-fail w fs lossy (over_old gone.0 gone.2)) (λ w e. e)))
        (λ w e. IsRecoverable-IsRunning e))

  started : (w : World) → w.marker_temp ≡ missing → IsLoaded w → IsStarted b w
  started w free h = record { held = h.held; memory = h.memory; readies = h.readies; free = free }

  wait_ends :
      (exited : Option Bool) (w : World) (fs : List Fault)
      → (strict ≡ true → exited ≡ some true)
      → w.marker_temp ≡ missing
      → Quiet strict fs
      → IsLoaded w
      → Ends strict Achieves (IsRecoverable b) (wait_or_give_up process exited w fs)
  wait_ends none w fs exits free quiet h =
      Ends-fail w fs (lossy_of_passes strict false (λ t. cc (exits t)) refl) (recoverable w h)
  wait_ends (some true) w fs exits free quiet h =
      Ends-mono
        (activate_ends process b strict (IsSound-registered b h.held.valid) passes w fs quiet
          restarts (started w free h))
        (λ _ w e. e) (λ w e. IsRecoverable-IsRunning e)
  wait_ends (some false) w fs exits free quiet h =
      give_up_ends w fs (lossy_of_passes strict false (λ t. ground (arith, exits t)) refl) h

  registered_token :
      b.ident.helper_start_token ≡ some token
      → is_registered token (marker_of b helper_registered all_prepared) ≡ true
  registered_token e = rw e (text_eq_refl token)

  own_ack :
      is_ack
        (marker_of b helper_registered all_prepared)
        token
        (some (b.ident.transaction_id, token))
      ≡ true
  own_ack = rw (text_eq_refl b.ident.transaction_id, text_eq_refl token) refl

  -- Behind the reading of the marker.
  loaded_ends :
      (w : World) (fs : List Fault)
      → w.marker_temp ≡ missing
      → Quiet strict fs
      → IsLoaded w
      → Ends strict Achieves (IsRecoverable b) (
          (ensure (is_registered token (marker_of b helper_registered all_prepared)) >>= λ _.
          validate_ack (marker_of b helper_registered all_prepared) token >>= λ _.
          wait_or_give_up process process.parent_exits)
            w fs)
  unfolding validate_ack
  loaded_ends w fs free quiet h = after _ _ _ fs (
      Ends-ensure _ w fs quiet (recoverable w h) (λ t. registered_token (tokens t))
        λ _ fs quiet. after _ _ _ fs (
          after _ _ _ fs (
            Ends-read _ w fs quiet (recoverable w h) λ fs quiet.
              Ends-ensure _ w fs quiet (recoverable w h)
                (λ t.
                  ap (is_ack (marker_of b helper_registered all_prepared) token) (h.ack ∙ acks t)
                  ∙ own_ack)
                λ _ fs quiet. wait_ends process.parent_exits w fs exits free quiet h)))

  pub execute_ends :
      (w : World) (fs : List Fault)
      → Quiet strict fs
      → w.ack ≡ acked
      → IsPrepared b w
      → Ends strict Achieves (IsRecoverable b) (execute_registered_transaction process token w fs)
  unfolding execute_registered_transaction
  execute_ends w fs quiet ack h =
      let held : Holds b helper_registered all_prepared w = record {
        own = h.own;
        durable = h.durable;
        valid = h.valid;
        slots = λ r. IsSlot-IsReady (h.readies r);
      } in
      let k : IsLoaded (record w { memory = marker_of b helper_registered all_prepared }) = record {
        held = held_in b w held;
        memory = refl;
        readies = h.readies;
        ack = ack;
      } in
      after _ _ _ fs (
        read_marker_ends _ w fs h.durable h.valid quiet
          (live helper_registered all_prepared held (λ e. absurd (cc e))) (recoverable _ k)
          λ fs quiet. after _ _ _ fs (
            Ends-gets _ _ fs quiet λ fs quiet. after _ _ _ fs (
              artifacts_ends IsLoaded recoverable IsLoaded-untemp
                (λ w k free fs quiet. loaded_ends w fs free quiet k) _ _ fs h.own.temp quiet k)))
