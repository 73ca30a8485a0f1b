-- ===== src/Base/Rollback.antt =====
-- Methods that undo their changes on an error, and what such a method leaves behind.
use mathlib.Core.Path.{◌≡◌, ap}
use go_doubleratchet.Base.Outcome.{Error, Result, ok, err, diverges, Method, continue, ◌>>=◌}
use go_doubleratchet.Base.Steps.{Preserves}

-- `if err != nil { undo(); return err }` behind a call.
abbrev pub undo_on_error : {S A : Type 0} → (S → S) → Result A × S → Result A × S
undo_on_error undo (ok a, s) = (ok a, s)
undo_on_error undo (err e, s) = (err e, undo s)
undo_on_error undo (diverges, s) = (diverges, s)

abbrev pub or_undo : {S A : Type 0} → (S → S) → Method S A → Method S A
or_undo undo m s = undo_on_error undo (m s)

-- A method whose first step succeeds goes on behind it, undone on an error or not.
pub then-ok :
    {S A B : Type 0} (m : Method S A) (f : A → Method S B) (s s1 : S) (a : A)
    → m s ≡ (ok a, s1)
    → (m >>= f) s ≡ f a s1
then-ok m f s s1 a h = ap (λ r. continue r.0 r.1 f) h

pub or_undo-ok :
    {S A B : Type 0} (undo : S → S) (m : Method S A) (f : A → Method S B) (s s1 : S) (a : A)
    → m s ≡ (ok a, s1)
    → (or_undo undo m >>= f) s ≡ f a s1
or_undo-ok undo m f s s1 a h =
    ap (λ r. continue (undo_on_error undo r).0 (undo_on_error undo r).1 f) h

-- With `K` of the state on the way: undone on an error, and else ready to be undone.
abbrev pub Undone : {S A : Type 0} → (S → Type 0) → S → Result A × S → Type 0
Undone K start (ok a, s) = K s
Undone K start (err e, s) = s ≡ start
Undone K start (diverges, s) = Unit

module _ {S : Type 0} (K : S → Type 0) (start : S) where
  pub continue-Undone :
      {A B : Type 0} (r : Result A × S) (f : A → Method S B)
      → Undone K start r
      → ((a : A) (s : S) → K s → Undone K start (f a s))
      → Undone K start (continue r.0 r.1 f)
  continue-Undone (ok a, s) f h hf = hf a s h
  continue-Undone (err e, s) f h hf = h
  continue-Undone (diverges, s) f h hf = tt

  pub error-Undone :
      {A : Type 0} (r : Result A × S) (e : Error) → Undone K start r → r.0 ≡ err e → r.1 ≡ start
  error-Undone (ok a, s) e h f = cc
  error-Undone (err _, s) e h f = h
  error-Undone (diverges, s) e h f = cc

module _ {S : Type 0} (undo : S → S) (K : S → Type 0) (start : S)
    (back : (s : S) → K s → undo s ≡ start) where
  pub undo_on_error-Undone :
      {A : Type 0} (r : Result A × S) → K r.1 → Undone K start (undo_on_error undo r)
  undo_on_error-Undone (ok a, s) k = k
  undo_on_error-Undone (err e, s) k = back s k
  undo_on_error-Undone (diverges, s) k = tt

  -- A step that is undone on an error, and the rest of the method behind it.
  pub step-Undone :
      {A B : Type 0} (m : Method S A) (f : A → Method S B)
      → Preserves K m
      → ((a : A) (s : S) → K s → Undone K start (f a s))
      → (s : S) → K s
      → Undone K start ((or_undo undo m >>= f) s)
  step-Undone m f hm hf s k =
      continue-Undone K start (or_undo undo m s) f (undo_on_error-Undone (m s) (hm s k)) hf

-- A property that the start has, and the way keeps, holds behind every outcome.
pub or_undo-Preserves :
    {S A : Type 0} (undo : S → S) (P : S → Type 0) (m : Method S A)
    → Preserves P m
    → ((s : S) → P s → P (undo s))
    → Preserves P (or_undo undo m)
or_undo-Preserves {S} {A} undo P m hm hu s h = at_end (m s) (hm s h)
  where
    at_end : (r : Result A × S) → P r.1 → P (undo_on_error undo r).1
    at_end (ok a, s) k = k
    at_end (err e, s) k = hu s k
    at_end (diverges, s) k = k
