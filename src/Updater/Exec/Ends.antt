-- ===== src/Updater/Exec/Ends.antt =====
-- What holds however an action ends, one rule for each way to build an action.
use flist_walker.Prelude.{
  ◌≡◌, refl, sym, subst, Bool, true, false, Option, none, some, List, [], ◌∷◌,
}
use flist_walker.Updater.Exec.{
  Outcome, done, failed, crashed, Fault, works, fails, stops, Exec, pure, fail, io, read, gets,
  ensure, modify, under_fault, continue, ◌>>=◌, recover_by, on_error,
}

-- With `strict` the schedule is used up, so that no call fails for a reason of its own.
abbrev pub Quiet : Bool → List Fault → Type 0
Quiet strict fs = strict ≡ true → fs ≡ []

-- `Q` where the action returns, and `E` where it fails or stops, which it does only if not strict.
pub data Ends {S A : Type 0} (strict : Bool) (Q : A → S → Type 0) (E : S → Type 0)
    : Outcome A × S × List Fault → Type 0 where
  returns :
      {a : A} {s : S} {fs : List Fault} → Quiet strict fs → Q a s → Ends strict Q E (done a, s, fs)
  errs : {s : S} {fs : List Fault} → strict ≡ false → E s → Ends strict Q E (failed, s, fs)
  halts : {s : S} {fs : List Fault} → strict ≡ false → E s → Ends strict Q E (crashed, s, fs)

-- What the result of a call has to satisfy.
abbrev pub ResultOf : {S A : Type 0} → Bool → (A → S → Type 0) → Option (A × S) → Type 0
ResultOf strict Q none = strict ≡ false
ResultOf strict Q (some (a, s)) = Q a s

lossy_of : (strict : Bool) (f : Fault) (fs : List Fault) → Quiet strict (f ∷ fs) → strict ≡ false
lossy_of true f fs quiet = absurd (cc (quiet refl))
lossy_of false f fs quiet = refl

pub lossy-Quiet : (strict : Bool) (fs : List Fault) → strict ≡ false → Quiet strict fs
lossy-Quiet true fs lossy t = absurd (cc)
lossy-Quiet false fs lossy t = absurd (cc)

lossy_of_test : (strict : Bool) → (strict ≡ true → false ≡ true) → strict ≡ false
lossy_of_test true passes = absurd (cc (passes refl))
lossy_of_test false passes = refl

module _ {S A : Type 0} {strict : Bool} {Q : A → S → Type 0} {E : S → Type 0} where
  pub Ends-pure :
      (a : A) (s : S) (fs : List Fault) → Quiet strict fs → Q a s → Ends strict Q E (pure a s fs)
  unfolding pure
  Ends-pure a s fs quiet h = returns quiet h

  pub Ends-fail :
      (s : S) (fs : List Fault) → strict ≡ false → E s → Ends strict Q E (fail {A = A} s fs)
  unfolding fail
  Ends-fail s fs lossy h = errs lossy h

  pub Ends-gets :
      (f : S → A) (s : S) (fs : List Fault)
      → Quiet strict fs
      → Q (f s) s
      → Ends strict Q E (gets f s fs)
  unfolding gets
  Ends-gets f s fs quiet h = returns quiet h

  Ends-perform :
      (o : Option (A × S)) (s : S) (fs : List Fault)
      → Quiet strict fs
      → E s
      → ResultOf strict Q o
      → Ends strict Q E (under_fault (λ _. o) s fs)
  Ends-perform none s [] quiet e h = errs h e
  Ends-perform (some (a, s')) s [] quiet e h = returns quiet h
  Ends-perform none s (works ∷ fs) quiet e h = errs h e
  Ends-perform (some (a, s')) s (works ∷ fs) quiet e h = returns (λ t. absurd (cc (quiet t))) h
  Ends-perform o s (fails ∷ fs) quiet e h = errs (lossy_of strict _ fs quiet) e
  Ends-perform o s (stops ∷ fs) quiet e h = halts (lossy_of strict _ fs quiet) e

  pub Ends-io :
      (f : S → Option (A × S)) (s : S) (fs : List Fault)
      → Quiet strict fs
      → E s
      → ResultOf strict Q (f s)
      → Ends strict Q E (io f s fs)
  unfolding io
  Ends-io f s [] quiet e h = Ends-perform (f s) s [] quiet e h
  Ends-io f s (works ∷ fs) quiet e h = Ends-perform (f s) s (works ∷ fs) quiet e h
  Ends-io f s (fails ∷ fs) quiet e h = errs (lossy_of strict _ fs quiet) e
  Ends-io f s (stops ∷ fs) quiet e h = halts (lossy_of strict _ fs quiet) e

module _ {S A : Type 0} {strict : Bool} {Q : A → S → Type 0} {E : S → Type 0} where
  pub Ends-read :
      (f : S → A) (s : S) (fs : List Fault)
      → Quiet strict fs
      → E s
      → Q (f s) s
      → Ends strict Q E (read f s fs)
  unfolding read io
  Ends-read f s fs quiet e h = Ends-io (λ s. some (f s, s)) s fs quiet e h

module _ {S : Type 0} {strict : Bool} {Q : Unit {0} → S → Type 0} {E : S → Type 0} where
  -- A test that a strict run passes.
  pub Ends-ensure :
      (test : Bool) (s : S) (fs : List Fault)
      → Quiet strict fs
      → E s
      → (strict ≡ true → test ≡ true)
      → (test ≡ true → Q tt s)
      → Ends strict Q E (ensure test s fs)
  unfolding ensure
  Ends-ensure true s fs quiet e passes h = returns quiet (h refl)
  Ends-ensure false s fs quiet e passes h = errs (lossy_of_test strict passes) e

  pub Ends-modify :
      (f : S → S) (s : S) (fs : List Fault)
      → Quiet strict fs
      → Q tt (f s)
      → Ends strict Q E (modify f s fs)
  unfolding modify
  Ends-modify f s fs quiet h = returns quiet h

module _ {S A B : Type 0} {strict : Bool} {P : A → S → Type 0} {Q : B → S → Type 0}
    {E : S → Type 0} where
  Ends-continue :
      {x : Outcome A × S × List Fault} (f : A → Exec S B)
      → Ends strict P E x
      → ((a : A) (s : S) (fs : List Fault) → Quiet strict fs → P a s → Ends strict Q E (f a s fs))
      → Ends strict Q E (continue f x)
  Ends-continue f (returns quiet h) next = next _ _ _ quiet h
  Ends-continue f (errs lossy e) next = errs lossy e
  Ends-continue f (halts lossy e) next = halts lossy e

  pub Ends-bind :
      (m : Exec S A) (f : A → Exec S B) (s : S) (fs : List Fault)
      → Ends strict P E (m s fs)
      → ((a : A) (s : S) (fs : List Fault) → Quiet strict fs → P a s → Ends strict Q E (f a s fs))
      → Ends strict Q E ((m >>= f) s fs)
  unfolding ◌>>=◌
  Ends-bind m f s fs first next = Ends-continue f first next

module _ {S A : Type 0} {strict : Bool} {P Q : A → S → Type 0} {E F : S → Type 0} where
  pub Ends-mono :
      {x : Outcome A × S × List Fault}
      → Ends strict P E x
      → ((a : A) (s : S) → P a s → Q a s)
      → ((s : S) → E s → F s)
      → Ends strict Q F x
  Ends-mono (returns quiet h) keep lose = returns quiet (keep _ _ h)
  Ends-mono (errs lossy e) keep lose = errs lossy (lose _ e)
  Ends-mono (halts lossy e) keep lose = halts lossy (lose _ e)

module _ {S A : Type 0} {strict : Bool} {Q : A → S → Type 0} {E F : S → Type 0} where
  Ends-recover :
      {x : Outcome A × S × List Fault} (handler : Exec S A)
      → Ends strict Q E x
      → ((s : S) (fs : List Fault) → strict ≡ false → E s → Ends strict Q F (handler s fs))
      → ((s : S) → E s → F s)
      → Ends strict Q F (recover_by handler x)
  Ends-recover handler (returns quiet h) next lose = returns quiet h
  Ends-recover handler (errs lossy e) next lose = next _ _ lossy e
  Ends-recover handler (halts lossy e) next lose = halts lossy (lose _ e)

  pub Ends-on_error :
      (m handler : Exec S A) (s : S) (fs : List Fault)
      → Ends strict Q E (m s fs)
      → ((s : S) (fs : List Fault) → strict ≡ false → E s → Ends strict Q F (handler s fs))
      → ((s : S) → E s → F s)
      → Ends strict Q F (on_error m handler s fs)
  unfolding on_error
  Ends-on_error m handler s fs first next lose = Ends-recover handler first next lose

-- A sequence by the weakest precondition of its rest.
module _ {S A B : Type 0} {strict : Bool} {Q : B → S → Type 0} {E : S → Type 0} where
  pub after :
      (m : Exec S A) (k : A → Exec S B) (s : S) (fs : List Fault)
      → Ends strict
          (λ a s'. (rest : List Fault) → Quiet strict rest → Ends strict Q E (k a s' rest))
          E
          (m s fs)
      → Ends strict Q E ((m >>= k) s fs)
  after m k s fs first = Ends-bind m k s fs first (λ a s' rest quiet next. next rest quiet)

module _ {S A : Type 0} {Q : A → S → Type 0} {E : S → Type 0} where
  -- What holds of the state however a run ends.
  pub Ends-anyhow :
      {x : Outcome A × S × List Fault} (R : S → Type 0)
      → Ends false Q E x
      → ((a : A) (s : S) → Q a s → R s)
      → ((s : S) → E s → R s)
      → R x.1
  Ends-anyhow R (returns quiet h) good bad = good _ _ h
  Ends-anyhow R (errs lossy e) good bad = bad _ e
  Ends-anyhow R (halts lossy e) good bad = bad _ e

  -- A strict run returns.
  pub Ends-strict :
      {x : Outcome A × S × List Fault} → Ends true Q E x → (a : A) × (x.0 ≡ done a) × Q a x.1
  Ends-strict (returns quiet h) = (_, refl, h)
  Ends-strict (errs lossy e) = absurd (cc lossy)
  Ends-strict (halts lossy e) = absurd (cc lossy)

not_failed : {A : Type 0} {a : A} → Outcome.done a ≡ failed → ⊥
not_failed e = cc

not_crashed : {A : Type 0} {a : A} → Outcome.done a ≡ crashed → ⊥
not_crashed e = cc

done_inj : {A : Type 0} {a a' : A} → Outcome.done a ≡ Outcome.done a' → a ≡ a'
done_inj e = cc

module _ {S A : Type 0} {strict : Bool} {Q : A → S → Type 0} {E : S → Type 0} where
  -- What holds of a result.
  pub Ends-result :
      {x : Outcome A × S × List Fault} (R : A → Type 0)
      → Ends strict Q E x
      → ((a : A) (s : S) → Q a s → R a)
      → (a : A) → x.0 ≡ done a
      → R a
  Ends-result R (returns quiet h) good a e = subst R (done_inj e) (good _ _ h)
  Ends-result R (errs lossy f) good a e = absurd (not_failed (sym e))
  Ends-result R (halts lossy f) good a e = absurd (not_crashed (sym e))
