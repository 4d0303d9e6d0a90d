-- ===== src/Action.antt =====
-- Code that changes a state and may fail. What was written before a failure stays written, until
-- a transaction is rolled back. A failed assertion is an outcome of its own.
pub mod Keeps
pub mod Triple
use koupang.Prelude.{Bool, if◌then◌else◌}
use koupang.Errors.{Result, ok, err}

pub data Outcome (E A : Type 0) : Type 0 where
  done : A → Outcome E A
  failed : E → Outcome E A
  panicked : Outcome E A

abbrev pub Action : Type 0 → Type 0 → Type 0 → Type 0
Action S E A = S → Outcome E A × S

module _ {S E A : Type 0} where
  unfoldable pub pure : A → Action S E A
  pure a s = (done a, s)

  unfoldable pub fail : E → Action S E A
  fail e s = (failed e, s)

  unfoldable pub gets : (S → A) → Action S E A
  gets f s = (done (f s), s)

  unfoldable pub lift : Result E A → Action S E A
  lift (ok a) s = (done a, s)
  lift (err e) s = (failed e, s)

  -- A step that reads the state, changes it and does not fail.
  unfoldable pub state : (S → A × S) → Action S E A
  state f s = let (a, s') = f s in (done a, s')

-- How a block goes on from an outcome.
abbrev pub continue : {S E A B : Type 0} → Outcome E A → (A → Action S E B) → S → Outcome E B × S
continue (done a) f s = f a s
continue (failed e) f s = (failed e, s)
continue panicked f s = (panicked, s)

infixl 5 ◌>>=◌ ◌>>◌
-- Opening this opens the ways to build an action above.
unfoldable pub ◌>>=◌ : {S E A B : Type 0} → Action S E A → (A → Action S E B) → Action S E B
unfolding pure fail gets lift state
◌>>=◌ m f s = let (r, s') = m s in continue r f s'

abbrev pub ◌>>◌ : {S E A B : Type 0} → Action S E A → Action S E B → Action S E B
m >> k = m >>= λ _. k

-- The outcome with its error mapped.
abbrev pub map_failed : {E F A : Type 0} → (E → F) → Outcome E A → Outcome F A
map_failed f (done a) = done a
map_failed f (failed e) = failed (f e)
map_failed f panicked = panicked

unfoldable pub map_err : {S E F A : Type 0} → (E → F) → Action S E A → Action S F A
map_err f m s = let (r, s') = m s in (map_failed f r, s')

abbrev pub attempted : {E F A : Type 0} → Outcome E A → Outcome F (Result E A)
attempted (done a) = done (ok a)
attempted (failed e) = done (err e)
attempted panicked = panicked

-- A step whose error the caller matches on. What was written stays written.
unfoldable pub attempt : {S E F A : Type 0} → Action S E A → Action S F (Result E A)
attempt m s = let (r, s') = m s in (attempted r, s')

abbrev pub forget : {E A : Type 0} → Outcome E A → Outcome E (Unit {0})
forget (done a) = done tt
forget (failed e) = failed e
forget panicked = panicked

-- Forgets the result.
unfoldable pub ignore : {S E A : Type 0} → Action S E A → Action S E (Unit {0})
ignore m s = let (r, s') = m s in (forget r, s')

-- The state that a transaction leaves: what it wrote is kept only if it succeeds.
abbrev pub commit_or_restore : {S E A : Type 0} → Outcome E A → S → S → S
commit_or_restore (done a) restored reached = reached
commit_or_restore (failed e) restored reached = restored
commit_or_restore panicked restored reached = restored

-- A database transaction. `restore s s'` is the state after a rollback, where `s` is the state
-- before and `s'` the state that was reached.
unfoldable pub with_transaction : {S E A : Type 0} → (S → S → S) → Action S E A → Action S E A
with_transaction restore m s = let (r, s') = m s in (r, commit_or_restore r (restore s s') s')

-- An action on one part of a state, as an action on the whole.
unfoldable pub zoom : {S T E A : Type 0} → (S → T) → (S → T → S) → Action T E A → Action S E A
zoom get put m s = let (r, t) = m (get s) in (r, put s t)
