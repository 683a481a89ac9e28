-- ===== src/Lfuda/Age.antt =====
-- Dynamic aging: the age against the effective frequencies of the entries.
use x_cache_manager.Prelude.{
  ℕ, ◌-◌, ◌+◌, ◌<◌, ◌≤◌, ◌^◌, ◌≡◌, inl, inr, sym, ap, ◌∙◌, arith, true, false, some, List, [], ◌∷◌,
  Str, ltb, ◌==◌, Bool-cases, Option-cases, is_empty, returns, throws, undefined, Outcome,
}
use x_cache_manager.Container.Nodes.{Node, values, total}
use x_cache_manager.Container.Values.{find_value, remove_value}
use x_cache_manager.Simulation.{Reply, seen, answer}
use x_cache_manager.Lfuda.{Cache, cache_entry, Error, Lfuda, less, touched}
use x_cache_manager.Lfuda.Order.{Sorted, AllAbove}
use x_cache_manager.Lfuda.Invariant.{IsValid}
use x_cache_manager.Lfuda.Eviction.{kept, dropped, last_eff}
use x_cache_manager.Lfuda.Model
use x_cache_manager.Lfuda.Model.{Model, view, make_room, place}
use x_cache_manager.Lfuda.History.{
  Call, Answer, call, call_model, IsSmall, call-call_model, puts, renews, updates, resizes, queries,
  flag, nothing, entry,
}

abbrev pub AllFrom : ℕ → List Cache → Type 0
AllFrom age [] = Unit {0}
AllFrom age (c ∷ l) = (age ≤ c.eff) × AllFrom age l

-- Effective frequencies do not fall along the list.
abbrev Rising : List Cache → Type 0
Rising [] = Unit {0}
Rising (c ∷ l) = AllFrom c.eff l × Rising l

-- The counters have not reached the end of their range.
abbrev pub AllCounting : ℕ → List Cache → Type 0
AllCounting age [] = Unit {0}
AllCounting age (c ∷ l) = (c.freq + 1 + age < 2 ^ 64) × (c.eff + 1 < 2 ^ 64) × AllCounting age l

less-le : (a b : Cache) → less a b ≡ true → a.eff ≤ b.eff
unfolding less
less-le a b h = ground arith

AllFrom-AllAbove : (a : Cache) (l : List (Node Cache)) → AllAbove a l → AllFrom a.eff (values l)
AllFrom-AllAbove a [] h = tt
AllFrom-AllAbove a (n ∷ l) h = (less-le a n.value h.0, AllFrom-AllAbove a l h.1)

Rising-Sorted : (l : List (Node Cache)) → Sorted l → Rising (values l)
Rising-Sorted [] h = tt
Rising-Sorted (n ∷ l) h = (AllFrom-AllAbove n.value l h.0, Rising-Sorted l h.1)

-- Eviction raises the age to at most the lowest effective frequency that stays.
eviction_age :
    (limit required age : ℕ) (l : List Cache)
    → AllFrom age l
    → Rising l
    → (age ≤ last_eff age (dropped limit required l))
      × AllFrom (last_eff age (dropped limit required l)) (kept limit required l)
unfolding kept dropped last_eff
eviction_age limit required age [] h r = (omega arith, tt)
eviction_age limit required age (c ∷ l) h r =
    elim (Bool-cases (ltb limit (total (c ∷ l) + required))) [
      | inl over ↦
          let (up, rest) = eviction_age limit required c.eff l r.0 r.1 in
          rw (over, kept, dropped, last_eff) (omega (arith, h.0, up), rest)
      | inr under ↦ rw (under, kept, dropped, last_eff) (omega arith, h)
    ]

make_room_age :
    (required : ℕ) (m : Model)
    → AllFrom m.aging m.entries
    → Rising m.entries
    → (m.aging ≤ (make_room required m).aging)
      × AllFrom (make_room required m).aging (make_room required m).entries
unfolding make_room
make_room_age required m h r = eviction_age m.limit required m.aging m.entries h r

AllFrom-place :
    (age : ℕ) (c : Cache) (l : List Cache) → age ≤ c.eff → AllFrom age l → AllFrom age (place c l)
unfolding place
AllFrom-place age c [] h k = (h, tt)
AllFrom-place age c (d ∷ l) h k = ground (arith, AllFrom-place age c l h k.1)

AllFrom-remove_value :
    (age : ℕ) (k : Str) (l : List Cache) → AllFrom age l → AllFrom age (remove_value k l)
unfolding remove_value
AllFrom-remove_value age k [] h = tt
AllFrom-remove_value age k (c ∷ l) h = ground (arith, AllFrom-remove_value age k l h.1)

AllFrom-find_value :
    (age : ℕ) (k : Str) (c : Cache) (l : List Cache)
    → find_value k l ≡ some c
    → AllFrom age l
    → age ≤ c.eff
unfolding find_value
AllFrom-find_value age k c [] e h = ground arith
AllFrom-find_value age k c (d ∷ l) e h = ground (arith, AllFrom-find_value age k c l)

AllCounting-find_value :
    (age : ℕ) (k : Str) (c : Cache) (l : List Cache)
    → find_value k l ≡ some c
    → AllCounting age l
    → c.freq + 1 + age < 2 ^ 64
unfolding find_value
AllCounting-find_value age k c [] e h = ground arith
AllCounting-find_value age k c (d ∷ l) e h = ground (arith, AllCounting-find_value age k c l)

last_eff_bound :
    (limit required age start : ℕ) (l : List Cache)
    → start + 1 < 2 ^ 64
    → AllCounting age l
    → last_eff start (dropped limit required l) + 1 < 2 ^ 64
unfolding dropped last_eff
last_eff_bound limit required age start [] h k = h
last_eff_bound limit required age start (c ∷ l) h k =
    elim (Bool-cases (ltb limit (total (c ∷ l) + required))) [
      | inl over ↦ rw (over, dropped, last_eff) (last_eff_bound limit required age c.eff l k.1 k.2)
      | inr under ↦ rw (under, dropped, last_eff) h
    ]

-- The state, if any, is no younger, and its age is at or below every effective frequency.
abbrev Ages : {A : Type 0} → ℕ → Outcome Error Model A → Type 0
Ages age (returns a m) = (age ≤ m.aging) × AllFrom m.aging m.entries
Ages age (throws e m) = (age ≤ m.aging) × AllFrom m.aging m.entries
Ages age undefined = Unit {0}

-- The invariant: the age is at or below every effective frequency, these do not fall along the
-- list, and no counter is at the end of its range.
record IsAged (m : Model) : Type 0 where
  from : AllFrom m.aging m.entries
  rising : Rising m.entries
  counting : AllCounting m.aging m.entries
  room : m.aging + 1 < 2 ^ 64

set_size-Ages :
    {A : Type 0} (a : A) (age size : ℕ) (k : Str) (m : Model)
    → age ≤ m.aging
    → AllFrom m.aging m.entries
    → Ages age (Model.set_size a k size m)
unfolding Model.set_size
set_size-Ages a age size k m le h = elim (Option-cases (find_value k m.entries)) [
  | inl e ↦ rw (e, Model.set_size) tt
  | inr (c, e) ↦
      rw (e, Model.set_size)
        (
          le,
          AllFrom-place m.aging (record c { size = size }) (remove_value k m.entries)
              (AllFrom-find_value m.aging k c m.entries e h)
              (AllFrom-remove_value m.aging k m.entries h),
        )
]

change_size-Ages :
    {A : Type 0} (a : A) (size : ℕ) (it : Cache) (m : Model)
    → IsAged m
    → Ages m.aging (Model.change_size a it size m)
unfolding Model.change_size
change_size-Ages a size it m g = elim (Bool-cases (ltb it.size size)) [
  | inl grows ↦
      let (up, rest) = make_room_age (size - it.size) m g.from g.rising in
      rw (grows, Model.change_size)
        (set_size-Ages a m.aging size it.key (make_room (size - it.size) m) up rest)
  | inr shrinks ↦
      rw (shrinks, Model.change_size) (set_size-Ages a m.aging size it.key m (omega arith) g.from)
]

add-Ages :
    (c : Cache) (m : Model)
    → IsAged m
    → Ages m.aging (returns true (Model.add c (make_room c.size m)))
unfolding Model.add make_room
add-Ages c m g =
    let (up, rest) = make_room_age c.size m g.from g.rising in
    let bound = last_eff_bound m.limit c.size m.aging m.aging m.entries g.room g.counting in
    (up, AllFrom-place _ _ _ (omega (arith, bound)) rest)

put-Ages : (c : Cache) (m : Model) → IsAged m → Ages m.aging (Model.put c m)
unfolding Model.put
put-Ages c m g = elim (Bool-cases (is_empty c.key)) [
  | inl e ↦ rw (e, Model.put) (omega arith, g.from)
  | inr e ↦ elim (Bool-cases (c.size == 0)) [
    | inl z ↦ rw (e, z, Model.put) (omega arith, g.from)
    | inr z ↦ elim (Option-cases (find_value c.key m.entries)) [
      | inl gone ↦ rw (e, z, gone, Model.put) (add-Ages c m g)
      | inr (it, found) ↦ elim (Bool-cases (ltb it.size c.size)) [
        | inl grows ↦ rw (e, z, found, grows, Model.put) (change_size-Ages false c.size it m g)
        | inr same ↦ rw (e, z, found, same, Model.put) (omega arith, g.from)
      ]
    ]
  ]
]

renew-Ages : (k : Str) (time : ℕ) (m : Model) → IsAged m → Ages m.aging (Model.renew k time m)
unfolding Model.renew touched
renew-Ages k time m g = elim (Option-cases (find_value k m.entries)) [
  | inl gone ↦ rw (gone, Model.renew) (omega arith, g.from)
  | inr (c, found) ↦
      let bound = AllCounting-find_value m.aging k c m.entries found g.counting in
      rw (found, Model.renew)
        (
          omega arith,
          AllFrom-place m.aging (touched m.aging time c) (remove_value k m.entries)
              (omega (arith, bound)) (AllFrom-remove_value m.aging k m.entries g.from),
        )
]

update-Ages : (k : Str) (size : ℕ) (m : Model) → IsAged m → Ages m.aging (Model.update k size m)
unfolding Model.update
update-Ages k size m g = elim (Option-cases (find_value k m.entries)) [
  | inl gone ↦ rw (gone, Model.update) (omega arith, g.from)
  | inr (it, found) ↦ elim (Bool-cases (size == it.size)) [
    | inl same ↦ rw (found, same, Model.update) (omega arith, g.from)
    | inr other ↦ rw (found, other, Model.update) (change_size-Ages true size it m g)
  ]
]

resize-Ages : (n : ℕ) (m : Model) → IsAged m → Ages m.aging (Model.resize n m)
unfolding Model.resize
resize-Ages n m g = elim (Bool-cases (n == 0)) [
  | inl z ↦ rw (z, Model.resize) (omega arith, g.from)
  | inr nz ↦ rw (nz, Model.resize) (make_room_age 0 (record m { limit = n }) g.from g.rising)
]

query-Ages : (k : Str) (m : Model) → IsAged m → Ages m.aging (Model.query k m)
unfolding Model.query
query-Ages k m g = elim (Option-cases (find_value k m.entries)) [
  | inl gone ↦ rw (gone, Model.query) (omega arith, g.from)
  | inr (c, found) ↦ rw (found, Model.query) (omega arith, g.from)
]

answer-Ages :
    {A : Type 0} (f : A → Answer) (age : ℕ) (o : Outcome Error Model A) (r : Reply Error Answer)
    (m : Model)
    → Ages age o
    → answer f o ≡ some (r, m)
    → (age ≤ m.aging) × AllFrom m.aging m.entries
answer-Ages f age (returns a n) r m h e = ground (arith, h, e)
answer-Ages f age (throws a n) r m h e = ground (arith, h, e)
answer-Ages f age undefined r m h e = ground arith

call_model-Ages :
    (c : Call) (n : Model) (r : Reply Error Answer) (m : Model)
    → IsAged n
    → call_model c n ≡ some (r, m)
    → (n.aging ≤ m.aging) × AllFrom m.aging m.entries
call_model-Ages (puts c) n r m g e = answer-Ages flag n.aging _ r m (put-Ages c n g) e
call_model-Ages (renews k time) n r m g e = answer-Ages flag n.aging _ r m (renew-Ages k time n g) e
call_model-Ages (updates k size) n r m g e =
    answer-Ages flag n.aging _ r m (update-Ages k size n g) e
call_model-Ages (resizes l) n r m g e =
    answer-Ages (λ _. nothing) n.aging _ r m (resize-Ages l n g) e
call_model-Ages (queries k) n r m g e = answer-Ages entry n.aging _ r m (query-Ages k n g) e

-- A call with sizes below 2^63 on a valid in-memory LFU-DA cache whose counters are not at their
-- end, and whose age is at or below every effective frequency, leaves an age that is no lower and
-- still at or below every effective frequency.
pub age_rises :
    (c : Call) (s t : Lfuda) (r : Reply Error Answer)
    → IsSmall c
    → IsValid s
    → AllFrom s.aging (values s.cache_bst)
    → AllCounting s.aging (values s.cache_bst)
    → s.aging + 1 < 2 ^ 64
    → call c s ≡ some (r, t)
    → (s.aging ≤ t.aging) × AllFrom t.aging (values t.cache_bst)
age_rises c s t r small v from counting room e =
    let shown = sym (call-call_model c s small v).0 ∙ ap (seen view) e in
    call_model-Ages c (view s) r (view t)
      (record {
        from = from;
        rising = Rising-Sorted s.cache_bst v.sorted;
        counting = counting;
        room = room;
      })
      shown
