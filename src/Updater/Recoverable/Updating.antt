-- ===== src/Updater/Recoverable/Updating.antt =====
-- A whole update of a prepared transaction: the helper is registered, answers, and applies the files.
use flist_walker.Prelude.{◌≡◌, refl, ap, ◌∙◌, ◌≢◌, inr, Bool, true, false, some, List, []}
use flist_walker.Text.{Text}
use flist_walker.Updater.Exec.{Exec, Fault, Outcome, done, ◌>>◌}
use flist_walker.Updater.Exec.Ends.{
  Ends, Quiet, after, Ends-mono, Ends-pure, Ends-gets, Ends-ensure, Ends-anyhow, Ends-strict,
}
use flist_walker.Updater.Marker.{
  TargetRole, helper_registered, binary_committed, validate_start_token,
}
use flist_walker.Updater.World.{World}
use flist_walker.Updater.Register.{HelperProcess, register_helper, helper_turn}
use flist_walker.Updater.Recoverable.{Transaction, marker_of, live}
use flist_walker.Updater.Recoverable.Validity.{forward, all_prepared}
use flist_walker.Text.Affix.{text_eq_refl}
use flist_walker.Updater.Recoverable.Loading.{read_marker_ends}
use flist_walker.Updater.Recoverable.Activation.{IsDone}
use flist_walker.Updater.Recoverable.Execution.{execute_ends}
use flist_walker.Updater.Recoverable.Answering.{
  registered_by, IsEither, IsAwaiting, IsAwaiting-in, prepared-Either, same_helper,
  acknowledge_ends,
}
use flist_walker.Updater.Recoverable.Registration.{IsOwned, register_ends}

-- The parent registers the helper that it has started, and then the helper takes a turn.
unfoldable pub update_by : HelperProcess → Text → Text → Exec World Bool
unfolding helper_turn
update_by helper transaction_id token =
    register_helper helper.pid token >> helper_turn helper transaction_id token

module _ (helper : HelperProcess) (b : Transaction) (token : Text) (strict : Bool)
    (positive : strict ≡ true → helper.pid ≢ 0)
    (good : strict ≡ true → validate_start_token token ≡ true)
    (own : strict ≡ true → helper.is_own_path ≡ true)
    (exits : strict ≡ true → helper.process.parent_exits ≡ some true)
    (restarts : strict ≡ true → helper.process.restarts ≡ true)
    (passes : strict ≡ true → (r : TargetRole) → helper.process.after_applied r ≡ true) where
  abbrev after_it : Transaction
  after_it = registered_by helper.pid token b

  abbrev Updates : Outcome Bool × World × List Fault → Type 0
  Updates = Ends strict (λ did w. (did ≡ true) × IsDone after_it w) (IsEither b helper.pid token)

  turn_ends :
      (w : World) (fs : List Fault)
      → Quiet strict fs
      → IsAwaiting b helper.pid token w
      → Updates (helper_turn helper b.ident.transaction_id token w fs)
  unfolding helper_turn
  turn_ends w fs quiet h =
      let marker = marker_of after_it helper_registered all_prepared in
      let h' = IsAwaiting-in b helper.pid token w marker h in
      let e' = prepared-Either b helper.pid token _ h'.ready in
      after _ _ _ fs (
        read_marker_ends marker w fs h.ready.durable h.ready.valid quiet
          (prepared-Either b helper.pid token w h.ready) e'
          λ fs quiet. after _ _ _ fs (
            Ends-gets _ _ fs quiet λ fs quiet. after _ _ _ fs (
              Ends-ensure _ _ fs quiet e' (λ _. text_eq_refl b.ident.transaction_id)
                λ _ fs quiet. after _ _ _ fs (
                  after _ _ _ fs (
                    after _ _ _ fs (
                      Ends-ensure _ _ fs quiet e' (λ _. same_helper helper.pid token b)
                        λ _ fs quiet.
                          Ends-mono
                            (acknowledge_ends b helper.pid token strict helper.is_own_path _ fs own
                              quiet h')
                            (λ _ w k fs quiet.
                              Ends-mono
                                (execute_ends helper.process after_it token strict w.ack (λ _. k.1)
                                  (λ _. refl) exits restarts passes w fs quiet refl k.0)
                                (λ _ w d fs quiet. Ends-pure true w fs quiet (refl, d))
                                (λ w e. inr e))
                            (λ w e. e)))))))

  update_ends :
      (w : World) (fs : List Fault)
      → Quiet strict fs
      → IsOwned b w
      → Updates (update_by helper b.ident.transaction_id token w fs)
  unfolding update_by
  update_ends w fs quiet h = after _ _ _ fs (
      Ends-mono (register_ends b helper.pid token strict positive good w fs quiet h)
        (λ _ w k fs quiet. turn_ends w fs quiet k) (λ w e. e))

false_true : {A : Type 0} → false ≡ true → A
false_true t = absurd (cc t)

-- From what the preparation leaves, registering a helper, and then one turn of its loop, leaves the
-- transaction as it was or that of the registered helper, in a form that a recovery can take up,
-- whichever calls fail or are the last, where each call is done whole or not at all.
pub update_by-IsRecoverable :
    (helper : HelperProcess) (b : Transaction) (token : Text) (w : World) (fs : List Fault)
    → IsOwned b w
    → IsEither b helper.pid token (update_by helper b.ident.transaction_id token w fs).1
update_by-IsRecoverable helper b token w fs h =
    Ends-anyhow (IsEither b helper.pid token)
      (update_ends helper b token false (λ t. false_true t) (λ t. false_true t) (λ t. false_true t)
        (λ t. false_true t) (λ t. false_true t) (λ t. false_true t) w fs (λ t. false_true t) h)
      (λ _ w d. inr (live binary_committed (forward 4) d.1.held (λ _. d.1.news))) (λ w e. e)

-- From what the preparation leaves, registering a helper, and then one turn of its loop, replaces
-- every target: the helper returns with every old target in its backup and the committed marker on
-- disk, where no call fails, the token of the helper is valid and its PID not zero, it runs from
-- its own path, the parent exits and the new program starts.
pub update_by-IsDone :
    (helper : HelperProcess) (b : Transaction) (token : Text) (w : World)
    → IsOwned b w
    → helper.pid ≢ 0
    → validate_start_token token ≡ true
    → helper.is_own_path ≡ true
    → helper.process.parent_exits ≡ some true
    → helper.process.restarts ≡ true
    → ((r : TargetRole) → helper.process.after_applied r ≡ true)
    → ((update_by helper b.ident.transaction_id token w []).0 ≡ done true)
      × IsDone
          (registered_by helper.pid token b)
          (update_by helper b.ident.transaction_id token w []).1
update_by-IsDone helper b token w h positive good own exits restarts passes =
    let (did, returned, d) = Ends-strict (
      update_ends helper b token true (λ _. positive) (λ _. good) (λ _. own) (λ _. exits)
        (λ _. restarts) (λ _. passes) w [] (λ _. refl) h) in
    (returned ∙ ap done d.0, d.1)
