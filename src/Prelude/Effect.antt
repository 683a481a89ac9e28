-- ===== src/Prelude/Effect.antt =====
-- What a call of a C++ member function does to its object: it returns a value, it throws and
-- leaves the object as it then is, or its behaviour is undefined.
use mathlib.Core.Path.{◌≡◌, ap}

pub data Outcome (E S A : Type 0) : Type 0 where
  returns : A → S → Outcome E S A
  throws : E → S → Outcome E S A
  undefined : Outcome E S A

abbrev pub Exec : Type 0 → Type 0 → Type 0 → Type 0
Exec E S A = S → Outcome E S A

abbrev pub pure : {E S A : Type 0} → A → Exec E S A
pure a s = returns a s

abbrev pub raise : {E S A : Type 0} → E → Exec E S A
raise e s = throws e s

infixl 5 ◌>>=◌ ◌>>◌
abbrev pub ◌>>=◌ : {E S A B : Type 0} → Exec E S A → (A → Exec E S B) → Exec E S B
◌>>=◌ m f s = elim (m s) [ returns a t ↦ f a t | throws e t ↦ throws e t | undefined ↦ undefined ]

abbrev pub ◌>>◌ : {E S B : Type 0} → Exec E S (Unit {0}) → Exec E S B → Exec E S B
m >> k = m >>= λ _. k

-- A first step whose outcome is known.
pub bind-returns :
    {E S A B : Type 0} (m : Exec E S A) (f : A → Exec E S B) (s t : S) (a : A)
    → m s ≡ returns a t
    → (m >>= f) s ≡ f a t
bind-returns m f s t a e = ap (λ o. ((λ _. o) >>= f) s) e

pub bind-throws :
    {E S A B : Type 0} (m : Exec E S A) (f : A → Exec E S B) (s t : S) (x : E)
    → m s ≡ throws x t
    → (m >>= f) s ≡ throws x t
bind-throws m f s t x e = ap (λ o. ((λ _. o) >>= f) s) e
