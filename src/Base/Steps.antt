-- ===== src/Base/Steps.antt =====
-- Properties of a state that a method keeps, whatever its outcome, and how they pass along a do block.
use mathlib.Core.Bool.{Bool, true, false}
use go_doubleratchet.Base.Outcome.{Result, ok, err, diverges, Method, continue, ◌>>=◌}
use go_doubleratchet.Base.Tests.{if◌then◌else◌}

abbrev pub Preserves : {S A : Type 0} → (S → Type 0) → Method S A → Type 0
Preserves {S} P m = (s : S) → P s → P (m s).1

module _ {S : Type 0} (P : S → Type 0) where
  pub continue-Preserves :
      {A B : Type 0} (r : Result A) (s : S) (f : A → Method S B)
      → ((a : A) → Preserves P (f a))
      → P s
      → P (continue r s f).1
  continue-Preserves (ok a) s f hf h = hf a s h
  continue-Preserves (err e) s f hf h = h
  continue-Preserves diverges s f hf h = h

  pub bind-Preserves :
      {A B : Type 0} (m : Method S A) (f : A → Method S B)
      → Preserves P m
      → ((a : A) → Preserves P (f a))
      → Preserves P (m >>= f)
  bind-Preserves m f hm hf s h = continue-Preserves (m s).0 (m s).1 f hf (hm s h)

  pub if-Preserves :
      {A : Type 0} (b : Bool) (m k : Method S A)
      → Preserves P m
      → Preserves P k
      → Preserves P (if b then m else k)
  if-Preserves true m k hm hk = hm
  if-Preserves false m k hm hk = hk
