-- ===== src/Prelude/Tasks.antt =====
-- Code that changes a state and may return early with an error, which leaves what was changed before
-- it: `?` in a method on `&self`.
use link_pilot.Prelude.Results.{Result, ok, err, map_err}

abbrev pub Task : Type 0 → Type 0 → Type 0 → Type 0
Task S E A = S → Result A E × S

module _ {S E A : Type 0} where
  abbrev pub pure : A → Task S E A
  pure a s = (ok a, s)

  abbrev pub fail : E → Task S E A
  fail e s = (err e, s)

  abbrev pub lift : Result A E → Task S E A
  lift r s = (r, s)

  abbrev pub gets : (S → A) → Task S E A
  gets f s = (ok (f s), s)

abbrev pub modify : {S E : Type 0} → (S → S) → Task S E (Unit {0})
modify f s = (ok tt, f s)

module _ {S E A B : Type 0} where
  abbrev pub continue : Result A E × S → (A → Task S E B) → Result B E × S
  continue (ok a, s) f = f a s
  continue (err e, s) f = (err e, s)

  infixl 5 ◌>>=◌ ◌>>◌
  abbrev pub ◌>>=◌ : Task S E A → (A → Task S E B) → Task S E B
  ◌>>=◌ m f s = continue (m s) f

  abbrev pub ◌>>◌ : Task S E A → Task S E B → Task S E B
  m >> n = m >>= λ _. n

-- A task on a part of the state, with its errors as errors of the whole.
abbrev pub within : {S T E F A : Type 0} → (S → T) → (T → S → S) → (F → E) → Task T F A → Task S E A
within part put wrap m s = let (r, t) = m (part s) in (map_err wrap r, put t s)
