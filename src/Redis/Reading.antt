-- ===== src/Redis/Reading.antt =====
-- What `reply_proc` and `command_multi` of src/redis/redis_adapter.h make of a reply.
use x_cache_manager.Prelude.{ℕ, ◌≡◌, List, [], ◌∷◌, ◌⊎◌, Str, Outcome, returns, throws}
use x_cache_manager.Prelude.Integer.{ℤ}
use x_cache_manager.Redis.{
  Reply, string, array, integer, nil, status, error, double, Replies, end, item, Error,
  unexpected_type, Redis,
}
use x_cache_manager.Redis.Adapter.{
  Kind, as_status, as_integer, as_double, as_string, Value, status_value, integer_value,
  double_value, string_value, nil_value, error_value, type_of, reply_proc,
}

-- A reply and the value that a caller who asks for a kind gets for it.
pub data Reads : Kind → Reply → Value → Type 0 where
  absent : (k : Kind) → Reads k nil nil_value
  refused : (k : Kind) (s : Str) → Reads k (error s) (error_value s)
  status_read : (s : Str) → Reads as_status (status s) (status_value s)
  integer_read : (n : ℤ) → Reads as_integer (integer n) (integer_value n)
  double_read : (d : ℕ) (s : Str) → Reads as_double (double d s) (double_value d s)
  string_read : (s : Str) → Reads as_string (string s) (string_value s)

-- It gets none.
abbrev pub Unread : Kind → Reply → Type 0
Unread k r = (v : Value) → ¬ Reads k r v

-- The elements of an array, each with its value; or the first that has none.
pub data ReadsAll (k : Kind) : Replies → List Value → Type 0 where
  no_more : ReadsAll k end []
  one_more :
      (r : Reply) (rest : Replies) (v : Value) (vs : List Value)
      → Reads k r v
      → ReadsAll k rest vs
      → ReadsAll k (item r rest) (v ∷ vs)

pub data FirstUnread (k : Kind) (r : Reply) : Replies → Type 0 where
  here : (rest : Replies) → Unread k r → FirstUnread k r (item r rest)
  later :
      (q : Reply) (v : Value) (rest : Replies)
      → Reads k q v
      → FirstUnread k r rest
      → FirstUnread k r (item q rest)

pub data ReadsMulti (k : Kind) : Reply → List Value → Type 0 where
  many : (rs : Replies) (vs : List Value) → ReadsAll k rs vs → ReadsMulti k (array rs) vs
  one : (r : Reply) (v : Value) → Reads k r v → ReadsMulti k r (v ∷ [])

pub data StopsAt (k : Kind) (r : Reply) : Reply → Type 0 where
  among : (rs : Replies) → FirstUnread k r rs → StopsAt k r (array rs)
  alone : ((rs : Replies) → ¬ (r ≡ array rs)) → Unread k r → StopsAt k r r

-- How the reading ends: with values, or with an exception that names the type.
abbrev pub Ended :
    {A : Type 0} → (A → Type 0) → (Reply → Type 0) → Outcome Error Redis A → Redis → Type 0
Ended {A} Good Bad o s =
    ((a : A) × Good a × (o ≡ returns a s))
    ⊎ ((r : Reply) × Bad r × (o ≡ throws (unexpected_type (type_of r)) s))

abbrev ReadOne : Kind → Reply → Redis → Type 0
ReadOne k r s =
    ((v : Value) × Reads k r v × (reply_proc k r s ≡ returns v s))
    ⊎ (Unread k r × (reply_proc k r s ≡ throws (unexpected_type (type_of r)) s))
