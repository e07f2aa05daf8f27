-- ===== src/Base/Exec.antt =====
-- Code that changes shared tables and may raise: what was committed before a raise stays, so the
-- state comes back beside the exception too.
use mathlib.Core.Bool.{Bool, true, false}
use incidentpilot.Base.Results.{Result, ok, err, Exception}

abbrev pub Exec : Type 0 → Type 0 → Type 0
Exec S A = S → Result A × S

module _ {S A : Type 0} where
  abbrev pub pure : A → Exec S A
  pure a s = (ok a, s)

  abbrev pub raise : Exception → Exec S A
  raise e s = (err e, s)

  abbrev pub lift : Result A → Exec S A
  lift r s = (r, s)

  abbrev pub gets : (S → A) → Exec S A
  gets f s = (ok (f s), s)

module _ {S : Type 0} where
  abbrev pub modify : (S → S) → Exec S (Unit {0})
  modify f s = (ok tt, f s)

  -- A transaction: the new state is committed, or a refusal rolls back.
  abbrev pub committed : Result S → S → Result (Unit {0}) × S
  committed (ok s') s = (ok tt, s')
  committed (err e) s = (err e, s)

  abbrev pub commit : (S → Result S) → Exec S (Unit {0})
  commit f s = committed (f s) s

  abbrev pub require : Bool → Exception → Exec S (Unit {0})
  require true e s = (ok tt, s)
  require false e s = (err e, s)

module _ {S A B : Type 0} where
  abbrev pub continue : Result A → (A → Exec S B) → Exec S B
  continue (ok a) f s = f a s
  continue (err e) f s = (err e, s)

  abbrev pub bind : Exec S A → (A → Exec S B) → Exec S B
  bind m f s = let (r, s') = m s in continue r f s'
