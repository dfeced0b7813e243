-- ===== src/BringUp/Step.antt =====
-- A step of bring-up: it changes a state, and returns, fails with `?`, or panics.
use aleph0_virtualization_hy.Base.{◌≡◌, refl, sym, ap, Option, none, some, Result, ok, err}
use aleph0_virtualization_hy.BringUp.Error.{BringUpError}

pub data Outcome (A : Type 0) : Type 0 where
  done : A → Outcome A
  failed : BringUpError → Outcome A
  panicked : Outcome A

-- What a step changed stays changed when it fails.
abbrev pub Step : Type 0 → Type 0 → Type 0
Step S A = S → Outcome A × S

module _ {S A : Type 0} where
  abbrev pub pure : A → Step S A
  pure a s = (done a, s)

  abbrev pub fail : BringUpError → Step S A
  fail e s = (failed e, s)

  abbrev pub or_panic : Option A → Step S A
  or_panic none s = (panicked, s)
  or_panic (some a) s = (done a, s)

abbrev pub and_then : {S A B : Type 0} → Outcome A × S → (A → Step S B) → Outcome B × S
and_then (done a, s) f = f a s
and_then (failed e, s) f = (failed e, s)
and_then (panicked, s) f = (panicked, s)

infixl 5 ◌>>=◌ ◌>>◌
abbrev pub ◌>>=◌ : {S A B : Type 0} → Step S A → (A → Step S B) → Step S B
◌>>=◌ m f s = and_then (m s) f

abbrev pub ◌>>◌ : {S B : Type 0} → Step S (Unit {0}) → Step S B → Step S B
m >> k = m >>= λ _. k

-- `?` on an error of type `E`, which `from` turns into bring-up's.
abbrev pub outcome : {E A : Type 0} → (E → BringUpError) → Result A E → Outcome A
outcome from (ok a) = done a
outcome from (err e) = failed (from e)

-- Of a call that may also panic.
abbrev pub outcome_or_panic : {E A : Type 0} → (E → BringUpError) → Option (Result A E) → Outcome A
outcome_or_panic from none = panicked
outcome_or_panic from (some r) = outcome from r

-- To use what a bind that is done says of its parts.
pub and_then-elim :
    {S A B : Type 0} (r : Outcome A × S) (f : A → Step S B) (s' : S) (b : B) (P : Type 0)
    → and_then r f ≡ (done b, s')
    → ((a : A) (t : S) → r ≡ (done a, t) → f a t ≡ (done b, s') → P)
    → P
and_then-elim (done a, s) f s' b P h use_parts = use_parts a s refl h
and_then-elim (failed e, s) f s' b P h use_parts = absurd cc
and_then-elim (panicked, s) f s' b P h use_parts = absurd cc

pub bind-done :
    {S A B : Type 0} (m : Step S A) (f : A → Step S B) (s t : S) (a : A)
    → m s ≡ (done a, t)
    → (m >>= f) s ≡ f a t
bind-done m f s t a h = ap (λ r. and_then r f) h

pub or_panic-inv :
    {S A : Type 0} (o : Option A) (s s' : S) (a : A)
    → or_panic o s ≡ (done a, s')
    → (o ≡ some a) × (s' ≡ s)
or_panic-inv none s s' a h = absurd cc
or_panic-inv (some b) s s' a h = (cc, sym (ap (λ r. r.1) h))

pub done-inv :
    {S A : Type 0} (a b : A) (s t : S)
    → Path (Outcome A × S) (done a, s) (done b, t)
    → (a ≡ b) × (s ≡ t)
done-inv a b s t h = (cc, ap (λ r. r.1) h)
