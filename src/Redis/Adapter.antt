-- ===== src/Redis/Adapter.antt =====
-- `RedisAdapter` of src/redis/redis_adapter.h: the second try of a command, and what becomes of a
-- reply. Its `serialize` and `deserialize` are in Serial.
use x_cache_manager.Prelude.{
  ℕ, List, [], ◌∷◌, Bool, Str, if◌then◌else◌, returns, throws, undefined, ◌>>=◌, ◌>>◌, pure, raise,
}
use x_cache_manager.Prelude.Integer.{ℤ}
use x_cache_manager.Redis.{
  Reply, string, array, integer, nil, status, error, double, other, Replies, end, item, Hiredis,
  unexpected_type, resetting, retry_by_adapter, caught, M, say, disconnect, connect, command,
}

-- `T` of the templates, and a `std::variant<T, RedisReplyNil, RedisReplyError>`.
pub data Kind : Type 0 where
  as_status as_integer as_double as_string as_int : Kind

pub data Value : Type 0 where
  status_value : Str → Value
  integer_value : ℤ → Value
  double_value : ℕ → Str → Value
  string_value : Str → Value
  nil_value : Value
  error_value : Str → Value

-- `reply->type`.
unfoldable pub type_of : Reply → ℕ
type_of (string s) = 1
type_of (array l) = 2
type_of (integer n) = 3
type_of nil = 4
type_of (status s) = 5
type_of (error s) = 6
type_of (double d s) = 7
type_of (other n) = n

-- The branches of `reply_proc` on `T` and on the type. A type that has no branch, as `int` has
-- none, throws for every reply but nil and an error.
unfoldable pub reply_proc : Kind → Reply → M Value
reply_proc kind nil = pure nil_value
reply_proc kind (error s) = pure (error_value s)
reply_proc as_status (status s) = pure (status_value s)
reply_proc as_integer (integer n) = pure (integer_value n)
reply_proc as_double (double d s) = pure (double_value d s)
reply_proc as_string (string s) = pure (string_value s)
reply_proc kind reply = raise (unexpected_type (type_of reply))

-- The loop over the elements in `command_multi`.
unfoldable pub proc_all : Kind → Replies → M (List Value)
proc_all kind end = pure []
proc_all kind (item reply rest) = do
  value ← reply_proc kind reply
  values ← proc_all kind rest
  pure (value ∷ values)

unfoldable pub proc_multi : Kind → Reply → M (List Value)
proc_multi kind (array replies) = proc_all kind replies
proc_multi kind reply = reply_proc kind reply >>= λ value. pure (value ∷ [])

module _ (h : Hiredis) where
  unfoldable pub reset : M (Unit {0})
  reset = do say resetting; disconnect; connect h

  unfoldable pub init : M (Unit {0})
  init = connect h

  -- The `catch` of `command_impl`.
  unfoldable pub second_try : M Reply
  second_try s = if s.connected then command h s else (reset >> command h) s

  unfoldable pub command_impl : Bool → M Reply
  command_impl upper_retry s = elim (command h s) [
    | returns reply t ↦ returns reply t
    | undefined ↦ undefined
    | throws e t ↦
        if upper_retry then (say (caught e) >> say retry_by_adapter >> second_try) t else throws e t
  ]

  unfoldable pub command_single : Bool → Kind → M Value
  command_single upper_retry kind = command_impl upper_retry >>= reply_proc kind

  unfoldable pub command_multi : Bool → Kind → M (List Value)
  command_multi upper_retry kind = command_impl upper_retry >>= proc_multi kind
