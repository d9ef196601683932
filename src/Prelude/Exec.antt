-- ===== src/Prelude/Exec.antt =====
-- Methods that change an object and may raise: what was written before a raise stays written, so
-- the state comes back beside the exception too.
use frontier_long_horizon_en.Prelude.Results.{Result, ok, err}

abbrev pub Exec : Type 0 → Type 0 → Type 0 → Type 0
Exec S E A = S → Result E A × S

module _ {S E A : Type 0} where
  abbrev pub pure : A → Exec S E A
  pure a s = (ok a, s)

  abbrev pub raise : E → Exec S E A
  raise e s = (err e, s)

  abbrev pub gets : (S → A) → Exec S E A
  gets f s = (ok (f s), s)

abbrev pub modify : {S E : Type 0} → (S → S) → Exec S E (Unit {0})
modify f s = (ok tt, f s)
