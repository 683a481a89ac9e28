-- ===== src/Simulation.antt =====
-- Histories of calls on an object, and what it takes for them to follow a model: one step does.
use x_cache_manager.Prelude.{
  ◌≡◌, refl, sym, ap, ◌∙◌, subst, Option, none, some, List, [], ◌∷◌, Option-cases, inl, inr,
  Outcome, returns, throws, undefined,
}

-- What a caller gets back.
pub data Reply (E A : Type 0) : Type 0 where
  done : A → Reply E A
  raised : E → Reply E A

-- A caller that catches an exception goes on with the object; undefined behaviour ends all.
abbrev pub answer : {E S A B : Type 0} → (A → B) → Outcome E S A → Option (Reply E B × S)
answer f (returns a s) = some (done (f a), s)
answer f (throws e s) = some (raised e, s)
answer f undefined = none

abbrev pub prefix : {R S : Type 0} → R → Option (List R × S) → Option (List R × S)
prefix r none = none
prefix r (some (rs, u)) = some (r ∷ rs, u)

-- The replies of a history and the last state; `none` where the behaviour is undefined.
abbrev pub repeat : {C R S : Type 0} → (C → S → Option (R × S)) → List C → S → Option (List R × S)
repeat next [] s = some ([], s)
repeat next (c ∷ cs) s = elim (next c s) [ none ↦ none | some (r, t) ↦ prefix r (repeat next cs t) ]

-- What the model shows of a result.
abbrev pub seen : {R S T : Type 0} → (S → T) → Option (R × S) → Option (R × T)
seen view none = none
seen view (some (r, s)) = some (r, view s)

abbrev pub Stays : {R S : Type 0} → (S → Type 0) → Option (R × S) → Type 0
Stays Valid none = Unit {0}
Stays Valid (some (r, s)) = Valid s

abbrev pub Every : {C : Type 0} → (C → Type 0) → List C → Type 0
Every P [] = Unit {0}
Every P (c ∷ cs) = P c × Every P cs

-- The outcome, in a valid state, shows the model's.
abbrev pub Follows :
    {E S T A : Type 0} → (S → T) → (S → Type 0) → Outcome E S A → Outcome E T A → Type 0
Follows view Valid (returns a s) (returns b m) = (a ≡ b) × Valid s × (view s ≡ m)
Follows view Valid (returns a s) (throws f m) = ⊥
Follows view Valid (returns a s) undefined = ⊥
Follows view Valid (throws e s) (returns b m) = ⊥
Follows view Valid (throws e s) (throws f m) = (e ≡ f) × Valid s × (view s ≡ m)
Follows view Valid (throws e s) undefined = ⊥
Follows view Valid undefined (returns b m) = ⊥
Follows view Valid undefined (throws f m) = ⊥
Follows view Valid undefined undefined = Unit {0}

pub answer-Follows :
    {E S T A B : Type 0} (view : S → T) (Valid : S → Type 0) (f : A → B) (o : Outcome E S A)
    (p : Outcome E T A)
    → Follows view Valid o p
    → (seen view (answer f o) ≡ answer f p) × Stays Valid (answer f o)
answer-Follows view Valid f (returns a s) (returns b m) (e, v, w) =
    (λ i. some (done (f (e i)), w i), v)
answer-Follows view Valid f (throws a s) (throws b m) (e, v, w) = (λ i. some (raised (e i), w i), v)
answer-Follows view Valid f undefined undefined h = (refl, tt)
answer-Follows view Valid f (returns a s) (throws b m) h = absurd h
answer-Follows view Valid f (returns a s) undefined h = absurd h
answer-Follows view Valid f (throws a s) (returns b m) h = absurd h
answer-Follows view Valid f (throws a s) undefined h = absurd h
answer-Follows view Valid f undefined (returns b m) h = absurd h
answer-Follows view Valid f undefined (throws b m) h = absurd h

seen-prefix :
    {R S T : Type 0} (view : S → T) (r : R) (o : Option (List R × S))
    → seen view (prefix r o) ≡ prefix r (seen view o)
seen-prefix view r none = refl
seen-prefix view r (some (rs, u)) = refl

Stays-prefix :
    {R S : Type 0} (Valid : S → Type 0) (r : R) (o : Option (List R × S))
    → Stays Valid o
    → Stays Valid (prefix r o)
Stays-prefix Valid r none h = tt
Stays-prefix Valid r (some (rs, u)) h = h

module _ {C R S T : Type 0} (view : S → T) (Valid : S → Type 0) (IsFit : C → Type 0)
    (next : C → S → Option (R × S)) (model : C → T → Option (R × T))
    (step : (c : C) (s : S)
      → IsFit c
      → Valid s
      → (seen view (next c s) ≡ model c (view s)) × Stays Valid (next c s)) where
  pub repeat-simulates :
      (cs : List C) (s : S)
      → Every IsFit cs
      → Valid s
      → (seen view (repeat next cs s) ≡ repeat model cs (view s)) × Stays Valid (repeat next cs s)
  repeat-simulates [] s h v = (refl, v)
  repeat-simulates (c ∷ cs) s h v = elim (Option-cases (next c s)) [
    | inl e ↦
        let gone = sym (step c s h.0 v).0 ∙ ap (seen view) e in rw (e, gone, repeat) (refl, tt)
    | inr ((r, t), e) ↦
        let found = sym (step c s h.0 v).0 ∙ ap (seen view) e in
        let valid = subst (Stays Valid) e (step c s h.0 v).1 in
        let (same, stays) = repeat-simulates cs t h.1 valid in
        rw (e, found, repeat)
          (
            seen-prefix view r (repeat next cs t) ∙ ap (prefix r) same,
            Stays-prefix Valid r (repeat next cs t) stays,
          )
  ]
