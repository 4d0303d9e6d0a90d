-- ===== src/Action/Keeps.antt =====
-- Invariants of actions: one rule for each way to build an action.
use koupang.Prelude.{Bool, true, false, if◌then◌else◌}
use koupang.Errors.{Result, ok, err}
use koupang.Action.{
  Outcome, done, failed, panicked, Action, pure, fail, gets, lift, continue, ◌>>=◌, map_err, ignore,
  with_transaction, commit_or_restore,
}

-- `m` keeps `P`, however it ends.
pub record Keeps {S E A : Type 0} (P : S → Type 0) (m : Action S E A) : Type 0 where
  pub at : (s : S) → P s → P (m s).1

module _ {S E A : Type 0} {P : S → Type 0} where
  pub Keeps-pure : (a : A) → Keeps {E = E} P (pure a)
  unfolding pure
  Keeps-pure a = record { at = λ s h. h }

  pub Keeps-fail : (e : E) → Keeps {A = A} P (fail e)
  unfolding fail
  Keeps-fail e = record { at = λ s h. h }

  pub Keeps-gets : (f : S → A) → Keeps {E = E} P (gets f)
  unfolding gets
  Keeps-gets f = record { at = λ s h. h }

  pub Keeps-lift : (r : Result E A) → Keeps P (lift r)
  unfolding lift
  Keeps-lift (ok a) = record { at = λ s h. h }
  Keeps-lift (err e) = record { at = λ s h. h }

  pub Keeps-if :
      (b : Bool) (m n : Action S E A) → Keeps P m → Keeps P n → Keeps P (if b then m else n)
  Keeps-if true m n km kn = km
  Keeps-if false m n km kn = kn

  pub Keeps-ignore : (m : Action S E A) → Keeps P m → Keeps P (ignore m)
  unfolding ignore
  Keeps-ignore m k = record { at = λ s h. k.at s h }

module _ {S E F A : Type 0} {P : S → Type 0} where
  pub Keeps-map_err : (f : E → F) (m : Action S E A) → Keeps P m → Keeps P (map_err f m)
  unfolding map_err
  Keeps-map_err f m k = record { at = λ s h. k.at s h }

module _ {S E A B : Type 0} {P : S → Type 0} where
  continue-Keeps :
      (r : Outcome E A) (f : A → Action S E B) (s : S)
      → ((a : A) → Keeps P (f a))
      → P s
      → P (continue r f s).1
  continue-Keeps (done a) f s k h = (k a).at s h
  continue-Keeps (failed e) f s k h = h
  continue-Keeps panicked f s k h = h

  pub Keeps-bind :
      (m : Action S E A) (rest : A → Action S E B)
      → Keeps P m
      → ((a : A) → Keeps P (rest a))
      → Keeps P (m >>= rest)
  unfolding ◌>>=◌
  Keeps-bind m rest first then_rest = record {
    at = λ before h. continue-Keeps (m before).0 rest (m before).1 then_rest (first.at before h);
  }

module _ {S E A : Type 0} where
  commit_or_restore-Keeps :
      (P : S → Type 0) (r : Outcome E A) (x y : S) → P x → P y → P (commit_or_restore r x y)
  commit_or_restore-Keeps P (done a) x y hx hy = hy
  commit_or_restore-Keeps P (failed e) x y hx hy = hx
  commit_or_restore-Keeps P panicked x y hx hy = hx

  pub Keeps-with_transaction :
      {P : S → Type 0} (restore : S → S → S) (m : Action S E A)
      → ((s s' : S) → P s → P (restore s s'))
      → Keeps P m
      → Keeps P (with_transaction restore m)
  unfolding with_transaction
  Keeps-with_transaction {P} restore m back k = record {
    at = λ s h.
        let (r, s') = m s in commit_or_restore-Keeps P r (restore s s') s' (back s s' h) (k.at s h);
  }

pub ruleset keeps_rules = (
  Keeps-pure, Keeps-fail, Keeps-gets, Keeps-lift, Keeps-if, Keeps-ignore, Keeps-map_err, Keeps-bind,
)
