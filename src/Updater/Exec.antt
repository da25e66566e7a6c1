-- ===== src/Updater/Exec.antt =====
-- Actions of the updater on files: each call of the file system can succeed, fail with an error, or
-- never return because the process or the machine stops. What was written before stays written.
pub mod Ends
use flist_walker.Prelude.{
  ℕ, zero, suc, ◌+◌, ◌-◌, ◌*◌, ◌/◌, ◌%◌, ◌^◌, ◌≤◌, ◌<◌, min, max, ◌≡◌, refl, sym, ap, ap₂, ◌∙◌,
  subst, ◌≢◌, ◌↔◌, ◌⊎◌, inl, inr, Bool, true, false, ◌&&◌, ◌||◌, not, Option, none, some, List, [],
  ◌∷◌, ◌++◌, map, append_assoc, append-nil, arith, ℤ, compare_int, pos, negsuc, length, get_elem?,
  take, drop, is_empty, any, all, find_first, All, Member, length-append, length-take, length-drop,
  drop-append, any-append, filter_map, flat_map, length-map, drop-append_le, drop_of_get_elem?,
  get_elem?-eq-some_lt, get_elem?-eq-none_le, get_elem?_total, nil_of_length, here, there, Result,
  try_map, ok, err, ltb, leb, ◌==◌, if◌then◌else◌, ltb→lt, lt→ltb, leb→le, le→leb, ==_iff, tests,
  Bool-cases, Option-cases, &&-eq-true, ||-eq-true, Bool-eq_of_iff, some_inj, if_both,
}

pub data Outcome (A : Type 0) : Type 0 where
  done : A → Outcome A
  failed : Outcome A
  crashed : Outcome A

-- What happens to the next call.
pub data Fault : Type 0 where
  works : Fault
  fails : Fault
  stops : Fault

-- A state, and the schedule of the calls to come; past its end every call works.
abbrev pub Exec : Type 0 → Type 0 → Type 0
Exec S A = S → List Fault → Outcome A × S × List Fault

module _ {S A : Type 0} where
  unfoldable pub pure : A → Exec S A
  pure a s fs = (done a, s, fs)

  unfoldable pub fail : Exec S A
  fail s fs = (failed, s, fs)

  abbrev pub perform : Option (A × S) → S → List Fault → Outcome A × S × List Fault
  perform none s fs = (failed, s, fs)
  perform (some (a, s')) s fs = (done a, s', fs)

  abbrev pub under_fault : (S → Option (A × S)) → S → List Fault → Outcome A × S × List Fault
  under_fault f s [] = perform (f s) s []
  under_fault f s (works ∷ fs) = perform (f s) s fs
  under_fault f s (fails ∷ fs) = (failed, s, fs)
  under_fault f s (stops ∷ fs) = (crashed, s, fs)

  -- One call of the file system: `f` is `none` where the state makes it fail.
  unfoldable pub io : (S → Option (A × S)) → Exec S A
  io f s fs = under_fault f s fs

  -- A file is read.
  unfoldable pub read : (S → A) → Exec S A
  read f s fs = under_fault (λ s. some (f s, s)) s fs

  unfoldable pub gets : (S → A) → Exec S A
  gets f s fs = (done (f s), s, fs)

module _ {S : Type 0} where
  unfoldable pub ensure : Bool → Exec S (Unit {0})
  ensure test s fs = if test then (done tt, s, fs) else (failed, s, fs)

  unfoldable pub modify : (S → S) → Exec S (Unit {0})
  modify f s fs = (done tt, f s, fs)

module _ {S A B : Type 0} where
  abbrev pub continue : (A → Exec S B) → Outcome A × S × List Fault → Outcome B × S × List Fault
  continue f (done a, s, fs) = f a s fs
  continue f (failed, s, fs) = (failed, s, fs)
  continue f (crashed, s, fs) = (crashed, s, fs)

  infixl 5 ◌>>=◌ ◌>>◌
  unfoldable pub ◌>>=◌ : Exec S A → (A → Exec S B) → Exec S B
  ◌>>=◌ m f s fs = continue f (m s fs)

  abbrev pub ◌>>◌ : Exec S A → Exec S B → Exec S B
  m >> n = m >>= λ _. n

module _ {S A : Type 0} where
  abbrev pub recover_by : Exec S A → Outcome A × S × List Fault → Outcome A × S × List Fault
  recover_by handler (done a, s, fs) = (done a, s, fs)
  recover_by handler (failed, s, fs) = handler s fs
  recover_by handler (crashed, s, fs) = (crashed, s, fs)

  -- A `match` on an error, whose handler decides how the action ends.
  unfoldable pub on_error : Exec S A → Exec S A → Exec S A
  on_error m handler s fs = recover_by handler (m s fs)
