-- ===== src/Updater/Recoverable/Undoing.antt =====
-- `rollback_transaction`: every target is restored, or the run ends where it can be taken up again.
use flist_walker.Prelude.{
  ℕ, suc, ◌≤◌, ◌≡◌, refl, ap, ◌∙◌, ◌≢◌, Bool, true, some, List, arith, get_elem?, ltb,
  if◌then◌else◌,
}
use flist_walker.Updater.Exec.{Fault}
use flist_walker.Updater.Exec.Ends.{Ends, Quiet, after, Ends-pure, Ends-gets}
use flist_walker.Updater.Disk.{RoleFiles}
use flist_walker.Updater.Marker.{
  TargetRole, readme, license, notices, binary, role_code, TargetState, TargetRecord, Phase,
  binary_committed, rolling_back, TransactionMarker, validate_marker,
}
use flist_walker.Updater.World.{World, put, update, missing, set_state}
use flist_walker.Updater.Rollback.{record_at, rollback_below}
use flist_walker.Updater.Recoverable.{
  Transaction, target_of, marker_of, Holds, IsRunning, running, IsSlot, IsOld,
}
use flist_walker.Updater.Recoverable.Slots.{restores, IsSlot-IsOld}
use flist_walker.Updater.Recoverable.Writes.{
  Ends-at_role, everywhere_put, write_ends, Holds-written,
}

pub get_target :
    (b : Transaction) (phase : Phase) (states : TargetRole → TargetState) (r : TargetRole)
    → get_elem? (marker_of b phase states).targets (role_code r)
      ≡ some (target_of r (b.old r) (b.new r) (states r))
get_target b phase states readme = refl
get_target b phase states license = refl
get_target b phase states notices = refl
get_target b phase states binary = refl

pub record_at_ends :
    {strict : Bool} {Q : TargetRecord → World → Type 0} {E : World → Type 0} (b : Transaction)
    (phase : Phase) (states : TargetRole → TargetState) (r : TargetRole) (w : World)
    (fs : List Fault)
    → w.memory ≡ marker_of b phase states
    → Quiet strict fs
    → Q (target_of r (b.old r) (b.new r) (states r)) w
    → Ends strict Q E (record_at (role_code r) w fs)
unfolding record_at
record_at_ends b phase states r w fs memory quiet q =
    let e : get_elem? w.memory.targets (role_code r)
        ≡ some (target_of r (b.old r) (b.new r) (states r)) =
      ap (λ (m : TransactionMarker). get_elem? m.targets (role_code r)) memory
      ∙ get_target b phase states r in
    after _ _ _ fs (Ends-gets _ _ fs quiet λ fs quiet. rw e (Ends-pure _ _ fs quiet q))

-- A new set of files for one role.
pub Holds-put :
    (b : Transaction) {phase : Phase} {states : TargetRole → TargetState} {w : World}
    (r : TargetRole) {f : RoleFiles}
    → IsSlot (b.old r) (b.new r) f
    → Holds b phase states w
    → Holds b phase states (put w r f)
Holds-put b r slot h = record {
  own = record { temp = h.own.temp; helper = h.own.helper; ack = h.own.ack; lock = h.own.lock };
  durable = h.durable;
  valid = h.valid;
  slots = everywhere_put (λ q f. IsSlot (b.old q) (b.new q) f) r slot (λ q _. h.slots q);
}

-- The states when the records from `n` on are rolled back.
abbrev pub rolled : ℕ → (TargetRole → TargetState) → TargetRole → TargetState
rolled n states q = if ltb (role_code q) n then states q else TargetState.rolled_back

set_rolled :
    (b : Transaction) (phase : Phase) (states : TargetRole → TargetState) (r : TargetRole)
    → set_state
        (role_code r)
        TargetState.rolled_back
        (marker_of b phase (rolled (suc (role_code r)) states))
      ≡ marker_of b phase (rolled (role_code r) states)
set_rolled b phase states readme = refl
set_rolled b phase states license = refl
set_rolled b phase states notices = refl
set_rolled b phase states binary = refl

-- Within the loop, when the records from `n` on are rolled back.
pub data IsUndoing (b : Transaction) (strict : Bool) (states : TargetRole → TargetState) (n : ℕ)
    (w : World) : Type 0 where
  undoing :
      (phase : Phase) (durable : TargetRole → TargetState)
      → Holds b phase durable w
      → phase ≢ binary_committed
      → w.memory ≡ marker_of b rolling_back (rolled n states)
      → ((q : TargetRole) → n ≤ role_code q → IsOld (b.old q) (b.new q) (w.disk q))
      → (strict ≡ true → w.marker_temp ≡ missing)
      → IsUndoing b strict states n w

-- One more role is as before.
olds_put :
    (b : Transaction) (r : TargetRole) {f : RoleFiles} {disk : TargetRole → RoleFiles}
    → IsOld (b.old r) (b.new r) f
    → ((q : TargetRole) → suc (role_code r) ≤ role_code q → IsOld (b.old q) (b.new q) (disk q))
    → (q : TargetRole) → role_code r ≤ role_code q
    → IsOld (b.old q) (b.new q) (update r f disk q)
olds_put b r old olds =
    everywhere_put (λ q f. role_code r ≤ role_code q → IsOld (b.old q) (b.new q) f) r (λ _. old)
      (λ q ne le. olds q (ground arith))

module _ (b : Transaction) (strict : Bool) (states : TargetRole → TargetState)
    (good : (n : ℕ)
      → strict ≡ true
      → validate_marker (marker_of b rolling_back (rolled n states)) ≡ true) where
  abbrev pub Undoes : ℕ → (Unit {0} → World → Type 0) → Type 0
  Undoes n Q =
      (w : World) (fs : List Fault)
      → Quiet strict fs
      → IsUndoing b strict states n w
      → Ends strict Q (IsRunning b true) (rollback_below n w fs)

  step :
      (Q : Unit {0} → World → Type 0) (r : TargetRole)
      → Undoes (role_code r) Q
      → Undoes (suc (role_code r)) Q
  unfolding rollback_below
  step Q r rest w fs quiet (undoing phase durable held open_phase memory olds free) =
      after _ _ _ fs (
        record_at_ends b rolling_back (rolled (suc (role_code r)) states) r w fs memory quiet
          λ fs quiet. after _ _ _ fs (
            Ends-at_role r _ w fs
              (restores r (b.new r) (rolled (suc (role_code r)) states r) strict (b.old r) fs
                (held.slots r) quiet)
              (λ a f old fs quiet. after _ _ _ fs (
                write_ends b strict true _ phase rolling_back durable (rolled (role_code r) states)
                  (put w r f) (Holds-put b r (IsSlot-IsOld old) held) (λ e. absurd (open_phase e))
                  (λ e. absurd (cc e)) (λ e. absurd (cc e))
                  (set_state (role_code r) TargetState.rolled_back) fs
                  (ap (set_state (role_code r) TargetState.rolled_back) memory
                    ∙ set_rolled b rolling_back states r)
                  (good (role_code r)) free quiet
                  λ v fs quiet. rest _ fs quiet (
                    undoing rolling_back (rolled (role_code r) states)
                      (Holds-written b v (Holds-put b r (IsSlot-IsOld old) held))
                      (λ e. absurd (cc e)) refl (olds_put b r old olds) (λ _. refl))))
              (λ f slot.
                running phase durable (Holds-put b r slot held) (λ e. absurd (open_phase e))
                  (rolling_back, rolled (suc (role_code r)) states, memory, λ e. absurd (cc e)))))

  -- The loop over the four records.
  pub below :
      (Q : Unit {0} → World → Type 0)
      → ((w : World) → IsUndoing b strict states 0 w → Q tt w)
      → Undoes 4 Q
  below Q end = step Q binary (
      step Q notices (
        step Q license (
          step Q readme
            (λ w fs quiet h. unfold rollback_below in Ends-pure tt w fs quiet (end w h)))))
