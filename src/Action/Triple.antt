-- ===== src/Action/Triple.antt =====
-- Partial and total correctness of actions: what holds before, after a success and after a failure.
use koupang.Prelude.{◌≡◌, refl, sym, subst, Bool, true, false, if◌then◌else◌}
use koupang.Errors.{Result, ok, err}
use koupang.Action.{
  Outcome, done, failed, panicked, Action, pure, fail, gets, lift, continue, ◌>>=◌, map_err,
  with_transaction, commit_or_restore, map_failed, attempt, attempted,
}

-- `Q` holds after a success, `F` after a failure, and nothing panics.
abbrev pub Ends : {S E A : Type 0} → (A → S → Type 0) → (E → S → Type 0) → Outcome E A → S → Type 0
Ends Q F (done a) s = Q a s
Ends Q F (failed e) s = F e s
Ends Q F panicked s = ⊥

-- Nothing is claimed after a failure: its transaction is rolled back.
abbrev pub Anything : {S E : Type 0} → E → S → Type 0
Anything e s = Unit

pub record Triple {S E A : Type 0} (P : S → Type 0) (m : Action S E A) (Q : A → S → Type 0)
    (F : E → S → Type 0) : Type 0 where
  pub at : (s : S) → P s → Ends Q F (m s).0 (m s).1

module _ {S E A : Type 0} {P : S → Type 0} {Q : A → S → Type 0} {F : E → S → Type 0} where
  pub Triple-pure : (a : A) → ((s : S) → P s → Q a s) → Triple P (pure a) Q F
  unfolding pure
  Triple-pure a h = record { at = h }

  pub Triple-fail : (e : E) → ((s : S) → P s → F e s) → Triple P (fail e) Q F
  unfolding fail
  Triple-fail e h = record { at = h }

  pub Triple-gets : (f : S → A) → ((s : S) → P s → Q (f s) s) → Triple P (gets f) Q F
  unfolding gets
  Triple-gets f h = record { at = h }

  pub Triple-lift :
      (r : Result E A)
      → ((a : A) (s : S) → r ≡ ok a → P s → Q a s)
      → ((e : E) (s : S) → r ≡ err e → P s → F e s)
      → Triple P (lift r) Q F
  unfolding lift
  Triple-lift (ok a) h k = record { at = λ s p. h a s refl p }
  Triple-lift (err e) h k = record { at = λ s p. k e s refl p }

  pub Triple-if :
      (b : Bool) (m n : Action S E A)
      → (b ≡ true → Triple P m Q F)
      → (b ≡ false → Triple P n Q F)
      → Triple P (if b then m else n) Q F
  Triple-if true m n km kn = km refl
  Triple-if false m n km kn = kn refl

module _ {S E A B : Type 0} {Q : B → S → Type 0} {F : E → S → Type 0} where
  continue-Ends :
      (R : A → S → Type 0) (r : Outcome E A) (f : A → Action S E B) (s : S)
      → ((a : A) → Triple (R a) (f a) Q F)
      → Ends R F r s
      → Ends Q F (continue r f s).0 (continue r f s).1
  continue-Ends R (done a) f s k h = (k a).at s h
  continue-Ends R (failed e) f s k h = h
  continue-Ends R panicked f s k h = h

  -- `R` is what holds between the two steps.
  pub Triple-bind :
      {P : S → Type 0} {m : Action S E A} {f : A → Action S E B} (R : A → S → Type 0)
      → Triple P m R F
      → ((a : A) → Triple (R a) (f a) Q F)
      → Triple P (m >>= f) Q F
  unfolding ◌>>=◌
  Triple-bind {P} {m} {f} R km kf = record {
    at = λ s p. let (r, s') = m s in continue-Ends R r f s' kf (km.at s p);
  }

module _ {S E A : Type 0} where
  pub Triple-weaken :
      {P P' : S → Type 0} {Q Q' : A → S → Type 0} {F : E → S → Type 0} {m : Action S E A}
      → Triple P m Q F
      → ((s : S) → P' s → P s)
      → ((a : A) (s : S) → Q a s → Q' a s)
      → Triple P' m Q' F
  Triple-weaken {P} {P'} {Q} {Q'} {F} {m} k hp hq = record {
    at = λ s p. weaken (m s).0 (m s).1 (k.at s (hp s p));
  }
    where
      weaken : (r : Outcome E A) (s : S) → Ends Q F r s → Ends Q' F r s
      weaken (done a) s h = hq a s h
      weaken (failed e) s h = h
      weaken panicked s h = h

  -- What does not depend on the state is known while the step runs.
  pub Triple-given :
      {C : Type 0} {P : S → Type 0} {Q : A → S → Type 0} {F : E → S → Type 0} {m : Action S E A}
      → (C → Triple P m Q F)
      → Triple (λ s. C × P s) m Q F
  Triple-given k = record { at = λ s p. (k p.0).at s p.1 }

module _ {S E A : Type 0} (Q : A → S → Type 0) (F : S → Type 0) where
  settled :
      (D : E → S → Type 0) (r : Outcome E A) (restored reached : S)
      → F restored
      → Ends Q D r reached
      → Ends Q (λ _. F) r (commit_or_restore r restored reached)
  settled D (done a) restored reached f h = h
  settled D (failed e) restored reached f h = f
  settled D panicked restored reached f h = h

  mapped :
      {G : Type 0} (f : E → G) (r : Outcome E A) (s : S)
      → Ends Q (λ _. F) r s
      → Ends Q (λ _. F) (map_failed f r) s
  mapped f (done a) s h = h
  mapped f (failed e) s h = h
  mapped f panicked s h = h

module _ {S E A : Type 0} {P F : S → Type 0} {Q : A → S → Type 0} where
  -- After a rollback only the state before the transaction matters.
  pub Triple-with_transaction :
      {D : E → S → Type 0} {m : Action S E A} (restore : S → S → S)
      → Triple P m Q D
      → ((s s' : S) → P s → F (restore s s'))
      → Triple P (with_transaction restore m) Q (λ _. F)
  unfolding with_transaction
  Triple-with_transaction {D} {m} restore k back = record {
    at = λ s p. let (r, s') = m s in settled Q F D r (restore s s') s' (back s s' p) (k.at s p);
  }

  pub Triple-map_err :
      {G : Type 0} {m : Action S E A} (f : E → G)
      → Triple P m Q (λ _. F)
      → Triple P (map_err f m) Q (λ _. F)
  unfolding map_err
  Triple-map_err {G} {m} f k = record { at = λ s p. mapped Q F f (m s).0 (m s).1 (k.at s p) }

-- A test whose branches go on in the same way.
pub Triple-if_bind :
    {S E A B : Type 0} {P : S → Type 0} {Q : B → S → Type 0} {F : E → S → Type 0} (b : Bool)
    (m n : Action S E A) (rest : A → Action S E B)
    → (b ≡ true → Triple P (m >>= rest) Q F)
    → (b ≡ false → Triple P (n >>= rest) Q F)
    → Triple P ((if b then m else n) >>= rest) Q F
Triple-if_bind true m n rest km kn = km refl
Triple-if_bind false m n rest km kn = kn refl

-- From one known state.
pub Triple-start :
    {S E A : Type 0} {Q : A → S → Type 0} {F : E → S → Type 0} (before : S) (m : Action S E A)
    → Ends Q F (m before).0 (m before).1
    → Triple (λ s. s ≡ before) m Q F
Triple-start {Q} {F} before m h = record {
  at = λ s e. subst (λ x. Ends Q F (m x).0 (m x).1) (sym e) h;
}

-- An action whose error is matched on.
pub Triple-attempt :
    {S E F A : Type 0} {P R : S → Type 0} {G : F → S → Type 0} {m : Action S E A}
    → Triple P m (λ _. R) (λ _. R)
    → Triple P (attempt {F = F} m) (λ _. R) G
unfolding attempt
Triple-attempt {S = S} {E = E} {F = F} {A = A} {R = R} {G = G} {m = m} k = record {
  at = λ s p. matched (m s).0 (m s).1 (k.at s p);
}
  where
    matched :
        (r : Outcome E A) (s : S)
        → Ends (λ _. R) (λ _. R) r s
        → Ends (λ _. R) G (attempted {F = F} r) s
    matched (done a) s h = h
    matched (failed e) s h = h
    matched panicked s h = h
