-- ===== src/Updater/Recoverable/Answering.antt =====
-- The answer of the registered helper.
use flist_walker.Prelude.{
  ℕ, ◌≡◌, refl, sym, subst, ◌⊎◌, inr, Bool, true, ◌&&◌, none, some, List, arith, ◌==◌,
}
use flist_walker.Text.{Text}
use flist_walker.Text.Affix.{text_eq_refl}
use flist_walker.Updater.Exec.{Fault}
use flist_walker.Updater.Exec.Ends.{Ends, Quiet, after, Ends-gets, Ends-io, Ends-ensure, ResultOf}
use flist_walker.Updater.Disk.{regular, sync}
use flist_walker.Updater.Marker.{helper_registered, TransactionMarker}
use flist_walker.Updater.World.{World}
use flist_walker.Updater.Recoverable.Applied.{digest_passes}
use flist_walker.Updater.Register.{
  with_helper, is_this_helper, create_ack, acknowledge_registered_helper,
}
use flist_walker.Updater.Recoverable.{Transaction, marker_of, IsRecoverable, live}
use flist_walker.Updater.Recoverable.Validity.{all_prepared}
use flist_walker.Updater.Recoverable.Activation.{IsSlot-IsReady}
use flist_walker.Updater.Recoverable.Loading.{read_marker_ends}
use flist_walker.Updater.Recoverable.Execution.{IsPrepared}

-- The transaction, once its helper is registered.
abbrev pub registered_by : ℕ → Text → Transaction → Transaction
registered_by pid token b = record b { ident = with_helper pid token b.ident }

-- The transaction without its helper, or with it.
abbrev pub IsEither : Transaction → ℕ → Text → World → Type 0
IsEither b pid token w = IsRecoverable b w ⊎ IsRecoverable (registered_by pid token b) w

pub same_helper :
    (pid : ℕ) (token : Text) (b : Transaction)
    → is_this_helper pid token
        (marker_of (registered_by pid token b) helper_registered all_prepared)
      ≡ true
same_helper pid token b = rw (text_eq_refl token) (same_pid pid)
  where
    same_pid : (pid : ℕ) → (pid == pid && true) ≡ true
    same_pid pid = ground arith

module _ (b : Transaction) (pid : ℕ) (token : Text) where
  abbrev after_it : Transaction
  after_it = registered_by pid token b

  abbrev Either : World → Type 0
  Either = IsEither b pid token

  -- The helper is registered, and has not answered.
  pub record IsAwaiting (w : World) : Type 0 where
    pub ready : IsPrepared after_it w
    pub silent : w.ack ≡ none
    pub present : w.helper ≡ regular b.ident.helper_hash

  pub prepared-Either : (w : World) → IsPrepared after_it w → Either w
  prepared-Either w h = inr (
      live helper_registered all_prepared
        (record {
          own = h.own;
          durable = h.durable;
          valid = h.valid;
          slots = λ r. IsSlot-IsReady (h.readies r);
        })
        (λ e. absurd (cc e)))

  -- The helper has answered.
  abbrev pub HasAnswered : World → Type 0
  HasAnswered w = IsPrepared after_it w × (w.ack ≡ some (b.ident.transaction_id, token))

  ack_result :
      (strict : Bool) (Q : Unit {0} → World → Type 0) (ack : Text × Text) (w : World)
      → w.ack ≡ none
      → Q tt (record w { ack = some ack })
      → ResultOf strict Q (create_ack ack w.ack w)
  ack_result strict Q ack w silent q =
      subst (λ a. ResultOf strict Q (create_ack ack a w)) (sym silent) q

  answered :
      (w : World)
      → IsAwaiting w
      → HasAnswered (record w { ack = some (b.ident.transaction_id, token) })
  answered w h = (
    record {
      own = record {
        temp = h.ready.own.temp;
        helper = h.ready.own.helper;
        ack = rw (text_eq_refl b.ident.transaction_id, text_eq_refl token) refl;
        lock = h.ready.own.lock;
      };
      durable = h.ready.durable;
      valid = h.ready.valid;
      readies = h.ready.readies;
    },
    refl,
  )

  pub IsAwaiting-in :
      (w : World) (memory : TransactionMarker)
      → IsAwaiting w
      → IsAwaiting (record w { memory = memory })
  IsAwaiting-in w memory h = record {
    ready = record {
      own = record {
        temp = h.ready.own.temp;
        helper = h.ready.own.helper;
        ack = h.ready.own.ack;
        lock = h.ready.own.lock;
      };
      durable = h.ready.durable;
      valid = h.ready.valid;
      readies = h.ready.readies;
    };
    silent = h.silent;
    present = h.present;
  }

  pub acknowledge_ends :
      (strict : Bool) (is_own_path : Bool) (w : World) (fs : List Fault)
      → (strict ≡ true → is_own_path ≡ true)
      → Quiet strict fs
      → IsAwaiting w
      → Ends strict
          (λ _ w. HasAnswered w)
          Either
          (acknowledge_registered_helper pid token is_own_path w fs)
  unfolding acknowledge_registered_helper sync
  acknowledge_ends strict is_own_path w fs own quiet h =
      let marker = marker_of after_it helper_registered all_prepared in
      let h' = IsAwaiting-in w marker h in
      let e' = prepared-Either _ h'.ready in
      after _ _ _ fs (
        read_marker_ends marker w fs h.ready.durable h.ready.valid quiet (prepared-Either w h.ready)
          e'
          λ fs quiet. after _ _ _ fs (
            Ends-gets _ _ fs quiet λ fs quiet. after _ _ _ fs (
              Ends-ensure _ _ fs quiet e' (λ _. same_helper pid token b)
                λ _ fs quiet. after _ _ _ fs (
                  Ends-ensure _ _ fs quiet e' own λ _ fs quiet. after _ _ _ fs (
                    digest_passes _ b.ident.helper_hash _ fs quiet e' h.present λ fs quiet.
                      after _ _ _ fs (
                        Ends-ensure _ _ fs quiet e' (λ _. text_eq_refl b.ident.helper_hash)
                          λ _ fs quiet. after _ _ _ fs (
                            Ends-io _ _ fs quiet e' (
                              ack_result strict _ _ _ h.silent λ fs quiet.
                                Ends-io _ _ fs quiet (prepared-Either _ (answered _ h').0)
                                  (answered _ h')))))))))
