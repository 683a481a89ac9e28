-- ===== src/Sqlite/Ends.antt =====
-- How a member function ends: it returns with a given result, or throws an exception that is
-- allowed; its behaviour is never undefined.
use x_cache_manager.Prelude.{◌≡◌, sym, subst, Outcome, Exec, returns, throws, undefined, ◌>>=◌}

module _ {E S : Type 0} (Allowed : E → S → Type 0) where
  abbrev pub Ends : {A : Type 0} → (A → S → Type 0) → Outcome E S A → Type 0
  Ends P (returns a s) = P a s
  Ends P (throws e s) = Allowed e s
  Ends P undefined = ⊥

  pub Ends-mono :
      {A : Type 0} (P Q : A → S → Type 0) (o : Outcome E S A)
      → ((a : A) (s : S) → P a s → Q a s)
      → Ends P o
      → Ends Q o
  Ends-mono P Q (returns a s) f h = f a s h
  Ends-mono P Q (throws e s) f h = h
  Ends-mono P Q undefined f h = h

  -- One step after another.
  pub Ends-bind :
      {A B : Type 0} (P : A → S → Type 0) (Q : B → S → Type 0) (o : Outcome E S A)
      (f : A → Exec E S B) (s : S)
      → Ends P o
      → ((a : A) (t : S) → P a t → Ends Q (f a t))
      → Ends Q (((λ _. o) >>= f) s)
  Ends-bind P Q (returns a t) f s h k = k a t h
  Ends-bind P Q (throws e t) f s h k = h
  Ends-bind P Q undefined f s h k = absurd h

  -- A first step whose outcome is known.
  pub Ends-returns :
      {A B : Type 0} (Q : B → S → Type 0) (m : Exec E S A) (f : A → Exec E S B) (s t : S) (a : A)
      → m s ≡ returns a t
      → Ends Q (f a t)
      → Ends Q ((m >>= f) s)
  Ends-returns Q m f s t a e h =
      subst (λ (o : Outcome E S _). Ends Q (((λ _. o) >>= f) s)) (sym e) h

  pub Ends-throws :
      {A B : Type 0} (Q : B → S → Type 0) (m : Exec E S A) (f : A → Exec E S B) (s t : S) (x : E)
      → m s ≡ throws x t
      → Allowed x t
      → Ends Q ((m >>= f) s)
  Ends-throws Q m f s t x e h = subst (λ (o : Outcome E S _). Ends Q (((λ _. o) >>= f) s)) (sym e) h
