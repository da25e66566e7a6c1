-- ===== src/Updater/Recoverable/Applying.antt =====
-- The loop of `execute_registered_transaction`: every target is replaced, or the run ends where it
-- can be rolled back.
use flist_walker.Prelude.{
  ℕ, suc, ◌≤◌, ◌<◌, ◌≡◌, refl, ap, ◌∙◌, ◌≢◌, Bool, true, false, Option, List, arith, if◌then◌else◌,
}
use flist_walker.Text.{Text}
use flist_walker.Updater.Exec.{Exec, Fault, pure, ◌>>=◌, ensure}
use flist_walker.Updater.Exec.Ends.{Ends, Quiet, after, Ends-pure, Ends-ensure}
use flist_walker.Updater.Disk.{RoleFiles}
use flist_walker.Updater.Marker.{
  TargetRole, readme, license, notices, binary, role_code, role_eq, TargetState, intent, applied,
  Phase, applying_sidecars, binary_intent, binary_committed, rolling_back,
}
use flist_walker.Updater.World.{World, update, missing, set_state, write_as, at_role}
use flist_walker.Updater.Rollback.{with_phase}
use flist_walker.Updater.Apply.{Surroundings, apply_index, apply_from, apply_one_target}
use flist_walker.Updater.Recoverable.{
  Transaction, target_of, marker_of, Holds, IsRunning, running, IsSlot, IsNew, replaced, promoted,
  IsReady,
}
use flist_walker.Updater.Recoverable.Applied.{applies}
use flist_walker.Updater.Recoverable.Writes.{
  Ends-at_role, everywhere_put, write_ends, Holds-written,
}
use flist_walker.Updater.Recoverable.Undoing.{record_at_ends, Holds-put}
use flist_walker.Updater.Recoverable.Validity.{
  IsSound, forward, intent_at, phase_at, Valid-intent, Valid-forward, Valid-binary_intent,
}

pub IsSlot-IsNew :
    {old : Option Text} {new : Text} {f : RoleFiles} → IsNew old new f → IsSlot old new f
IsSlot-IsNew (replaced l) = promoted l

-- Within the loop, before the record at `n`.
pub data IsApplying (b : Transaction) (strict : Bool) (phase' : Phase) (n : ℕ) (w : World)
    : Type 0 where
  applying :
      (phase : Phase) (durable : TargetRole → TargetState)
      → Holds b phase durable w
      → phase ≢ binary_committed
      → w.memory ≡ marker_of b phase' (forward n)
      → ((q : TargetRole) → role_code q < n → IsNew (b.old q) (b.new q) (w.disk q))
      → ((q : TargetRole) → n ≤ role_code q → IsReady (b.old q) (b.new q) (w.disk q))
      → (strict ≡ true → w.marker_temp ≡ missing)
      → IsApplying b strict phase' n w

set_intent :
    (b : Transaction) (phase : Phase) (r : TargetRole)
    → set_state (role_code r) intent (marker_of b phase (forward (role_code r)))
      ≡ marker_of b phase (intent_at r)
set_intent b phase readme = refl
set_intent b phase license = refl
set_intent b phase notices = refl
set_intent b phase binary = refl

set_applied :
    (b : Transaction) (phase : Phase) (r : TargetRole)
    → set_state (role_code r) applied (marker_of b phase (intent_at r))
      ≡ marker_of b phase (forward (suc (role_code r)))
set_applied b phase readme = refl
set_applied b phase license = refl
set_applied b phase notices = refl
set_applied b phase binary = refl

phase_at_open : (r : TargetRole) → phase_at r ≢ binary_committed
phase_at_open readme e = cc
phase_at_open license e = cc
phase_at_open notices e = cc
phase_at_open binary e = cc

phase_at_forth : (r : TargetRole) → phase_at r ≢ rolling_back
phase_at_forth readme e = cc
phase_at_forth license e = cc
phase_at_forth notices e = cc
phase_at_forth binary e = cc

news_put :
    (b : Transaction) (r : TargetRole) {f : RoleFiles} {disk : TargetRole → RoleFiles}
    → IsNew (b.old r) (b.new r) f
    → ((q : TargetRole) → role_code q < role_code r → IsNew (b.old q) (b.new q) (disk q))
    → (q : TargetRole) → role_code q < suc (role_code r)
    → IsNew (b.old q) (b.new q) (update r f disk q)
news_put b r k news =
    everywhere_put (λ q f. role_code q < suc (role_code r) → IsNew (b.old q) (b.new q) f) r (λ _. k)
      (λ q ne lt. news q (ground arith))

readies_put :
    (b : Transaction) (r : TargetRole) (f : RoleFiles) {disk : TargetRole → RoleFiles}
    → ((q : TargetRole) → role_code r ≤ role_code q → IsReady (b.old q) (b.new q) (disk q))
    → (q : TargetRole) → suc (role_code r) ≤ role_code q
    → IsReady (b.old q) (b.new q) (update r f disk q)
readies_put b r f readies =
    everywhere_put (λ q f. suc (role_code r) ≤ role_code q → IsReady (b.old q) (b.new q) f) r
      (λ le. absurd (omega arith)) (λ q ne le. readies q (omega arith))

module _ (process : Surroundings) (b : Transaction) (strict : Bool) (sound : IsSound b)
    (passes : strict ≡ true → (r : TargetRole) → process.after_applied r ≡ true) where
  module _ (Q : Unit {0} → World → Type 0) (r : TargetRole)
      (q : (w : World) → IsApplying b strict (phase_at r) (suc (role_code r)) w → Q tt w) where
    abbrev behind : TargetRole → TargetState
    behind = forward (suc (role_code r))

    -- The files of the role are in place; the intent is what the marker says.
    note_applied :
        (w : World) (fs : List Fault)
        → Quiet strict fs
        → w.memory ≡ marker_of b (phase_at r) (intent_at r)
        → Holds b (phase_at r) (intent_at r) w
        → ((q : TargetRole)
            → role_code q < suc (role_code r)
            → IsNew (b.old q) (b.new q) (w.disk q))
        → ((q : TargetRole)
            → suc (role_code r) ≤ role_code q
            → IsReady (b.old q) (b.new q) (w.disk q))
        → (strict ≡ true → w.marker_temp ≡ missing)
        → Ends strict Q (IsRunning b false) (
            (write_as (set_state (role_code r) applied) >>= λ _. ensure (process.after_applied r)) w
              fs)
    note_applied w fs quiet memory held news readies free =
        let shut = phase_at_open r in
        after _ _ _ fs (
          write_ends b strict false _ (phase_at r) (phase_at r) (intent_at r) behind w held
            (λ e. absurd (shut e)) (λ e. absurd (shut e)) (λ _. phase_at_forth r)
            (set_state (role_code r) applied) fs
            (ap (set_state (role_code r) applied) memory ∙ set_applied b (phase_at r) r)
            (λ _. Valid-forward b sound r) free quiet
            λ v fs quiet.
              let held' = Holds-written b v held in
              Ends-ensure _ _ fs quiet
                (running (phase_at r) behind held' (λ e. absurd (shut e))
                  (phase_at r, behind, refl, λ _. phase_at_forth r))
                (λ t. passes t r)
                (λ _. q _ (applying (phase_at r) behind held' shut refl news readies (λ _. refl))))

    abbrev replace : Exec World (Unit {0})
    replace = write_as (set_state (role_code r) intent) >>= λ _.
        at_role r (apply_one_target (target_of r (b.old r) (b.new r) (forward (role_code r) r)))
        >>= λ _.
            write_as (set_state (role_code r) applied) >>= λ _. ensure (process.after_applied r)

    -- From the write of the intent on.
    replace_ends :
        (w : World) (fs : List Fault)
        → Quiet strict fs
        → IsApplying b strict (phase_at r) (role_code r) w
        → Ends strict Q (IsRunning b false) (replace w fs)
    replace_ends w fs quiet (applying phase durable held open_phase memory news readies free) =
        after _ _ _ fs (
          write_ends b strict false _ phase (phase_at r) durable (intent_at r) w held
            (λ e. absurd (open_phase e)) (λ e. absurd (phase_at_open r e)) (λ _. phase_at_forth r)
            (set_state (role_code r) intent) fs
            (ap (set_state (role_code r) intent) memory ∙ set_intent b (phase_at r) r)
            (λ _. Valid-intent b sound r) free quiet
            λ v fs quiet.
              let held' = Holds-written b v held in
              after _ _ _ fs (
                Ends-at_role r _ _ fs
                  (applies r (b.new r) _ strict (b.old r) fs (readies r (omega arith)) quiet)
                  (λ a f k fs quiet.
                    note_applied _ fs quiet refl (Holds-put b r (IsSlot-IsNew k) held')
                      (news_put b r k news) (readies_put b r f readies) (λ _. refl))
                  (λ f slot.
                    running (phase_at r) (intent_at r) (Holds-put b r slot held')
                      (λ e. absurd (phase_at_open r e))
                      (phase_at r, intent_at r, refl, λ _. phase_at_forth r))))

  -- The phase changes before the binary, and before no other target.
  begin_ends :
      (Q : Unit {0} → World → Type 0) (r : TargetRole) (w : World) (fs : List Fault)
      → Quiet strict fs
      → IsApplying b strict applying_sidecars (role_code r) w
      → ((w : World) → IsApplying b strict (phase_at r) (role_code r) w → Q tt w)
      → Ends strict Q
          (IsRunning b false)
          ((if role_eq r binary then write_as (with_phase binary_intent) else pure tt) w fs)
  begin_ends Q readme w fs quiet h q = Ends-pure tt w fs quiet (q w h)
  begin_ends Q license w fs quiet h q = Ends-pure tt w fs quiet (q w h)
  begin_ends Q notices w fs quiet h q = Ends-pure tt w fs quiet (q w h)
  begin_ends Q binary w fs quiet (applying phase durable held open_phase memory news readies free)
        q =
      write_ends b strict false Q phase binary_intent durable (forward 3) w held
        (λ e. absurd (open_phase e)) (λ e. absurd (cc e)) (λ _ e. absurd (cc e))
        (with_phase binary_intent) fs (ap (with_phase binary_intent) memory)
        (λ _. Valid-binary_intent b sound) free quiet
        (λ v. q _ (
          applying binary_intent (forward 3) (Holds-written b v held) (λ e. absurd (cc e)) refl news
            readies (λ _. refl)))

  apply_index_ends :
      (Q : Unit {0} → World → Type 0) (r : TargetRole) (w : World) (fs : List Fault)
      → Quiet strict fs
      → IsApplying b strict applying_sidecars (role_code r) w
      → ((w : World) → IsApplying b strict (phase_at r) (suc (role_code r)) w → Q tt w)
      → Ends strict Q (IsRunning b false) (apply_index process (role_code r) w fs)
  unfolding apply_index
  apply_index_ends Q r w fs quiet (applying phase durable held open_phase memory news readies free)
        q =
      after _ _ _ fs (
        record_at_ends b applying_sidecars (forward (role_code r)) r w fs memory quiet λ fs quiet.
          after _ _ _ fs (
            begin_ends _ r w fs quiet
              (applying phase durable held open_phase memory news readies free)
              λ w h fs quiet. replace_ends Q r q w fs quiet h))

  -- The loop over the four records.
  pub apply_from_ends :
      (Q : Unit {0} → World → Type 0) (w : World) (fs : List Fault)
      → Quiet strict fs
      → IsApplying b strict applying_sidecars 0 w
      → ((w : World) → IsApplying b strict binary_intent 4 w → Q tt w)
      → Ends strict Q (IsRunning b false) (apply_from process 4 0 w fs)
  unfolding apply_from
  apply_from_ends Q w fs quiet h q = after _ _ _ fs (
      apply_index_ends _ readme w fs quiet h λ w h fs quiet. after _ _ _ fs (
        apply_index_ends _ license w fs quiet h λ w h fs quiet. after _ _ _ fs (
          apply_index_ends _ notices w fs quiet h λ w h fs quiet. after _ _ _ fs (
            apply_index_ends _ binary w fs quiet h
              λ w h fs quiet. Ends-pure tt w fs quiet (q w h)))))
