-- ===== src/Subscriber/Replies.antt =====
-- `command_callback` of src/redis/redis_subscriber.cpp: which replies reach the subscriber.
use x_cache_manager.Prelude.{
  ℕ, zero, suc, ◌+◌, ◌/◌, ◌%◌, List, [], ◌∷◌, ◌++◌, Option, none, some, Str, ltb, if◌then◌else◌,
}
use x_cache_manager.Prelude.Integer.{ℤ, pos, negsuc}
use x_cache_manager.Redis.{Reply, string, array, integer, status, error, Replies, end, item}

-- `SubManager::Reply`.
pub data SubReply : Type 0 where
  string_array : List Str → SubReply
  status_text : Str → SubReply
  error_text : Str → SubReply

-- `std::to_string` of an integer, with a round for each digit.
unfoldable pub digits : ℕ → ℕ → Str
digits zero n = []
digits (suc fuel) n =
    let rest = digits fuel (n / 10) in
    if ltb n 10 then (48 + n) ∷ [] else rest ++ (48 + n % 10) ∷ []

unfoldable pub to_string : ℤ → Str
to_string (pos n) = digits (suc n) n
to_string (negsuc n) = 45 ∷ digits (suc (suc n)) (suc n)

-- An element of an array; any other type ends the callback.
unfoldable pub element : Reply → Option Str
element (integer n) = some (to_string n)
element (string s) = some s
element _ = none

-- The loop over the elements.
unfoldable pub elements : Replies → Option (List Str)
elements end = some []
elements (item reply rest) = elim (element reply) [
  | none ↦ none
  | some s ↦ elim (elements rest) [ none ↦ none | some l ↦ some (s ∷ l) ]
]

-- What `sub_callback` is given, if it is called.
unfoldable pub on_reply : Reply → Option SubReply
on_reply (error s) = some (error_text s)
on_reply (status s) = some (status_text s)
on_reply (string s) = some (string_array (s ∷ []))
on_reply (array replies) = elim (elements replies) [
  | none ↦ none
  | some vec ↦ some (string_array vec)
]
on_reply _ = none

unfoldable pub command_callback : Option Reply → Option SubReply
command_callback none = none
command_callback (some reply) = on_reply reply
