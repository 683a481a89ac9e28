-- ===== src/Serial/RoundTrip.antt =====
-- `deserialize` after `serialize`.
use mathlib.Core.List.{append-nil, append_assoc}
use native.Mathlib.Nat.{add_comm, add_assoc, add-zero, add-suc}
use x_cache_manager.Prelude.{
  ℕ, zero, suc, ◌+◌, ◌%◌, ◌^◌, ◌<◌, ◌≤◌, ◌≡◌, sym, ap, subst, ◌∙◌, false, some, List, [], ◌∷◌, ◌++◌,
  arith, ltb, le→ltb, length, length-append, drop, take, take-append, drop-append, map,
}
use x_cache_manager.Serial.{
  Field, int, int64, uint64, str, kind_of, serialize_impl, serialize, read_word, substr,
  deserialize_impl, deserialize_all, deserialize, big_endian, to_unsigned,
}
use x_cache_manager.Serial.Codec.{
  InRange, join, join32, join64, length-big_endian, signed32, signed64, read_big_endian-join,
  flip32-lt, flip64-lt,
}

-- What a field can hold in its C++ type; a string's length is written in 32 bits.
abbrev pub Fits : Field → Type 0
Fits (int v) = InRange (2 ^ 32) v
Fits (int64 v) = InRange (2 ^ 64) v
Fits (uint64 u) = u < 2 ^ 64
Fits (str s) = length s < 2 ^ 32

abbrev pub AllFit : List Field → Type 0
AllFit [] = Unit {0}
AllFit (f ∷ fs) = Fits f × AllFit fs

pub length-drop :
    (offset : ℕ) (text : List ℕ)
    → offset ≤ length text
    → length (drop offset text) + offset ≡ length text
length-drop zero text h = omega arith
length-drop (suc o) [] h = absurd (omega arith)
length-drop (suc o) (b ∷ text) h = omega (arith, length-drop o text)

drop_past :
    (offset : ℕ) (text x post : List ℕ)
    → offset ≤ length text
    → drop offset text ≡ x ++ post
    → drop (length x + offset) text ≡ post
drop_past zero text x post h e = rw add-zero (rw (e, drop-append x post))
drop_past (suc o) [] x post h e = absurd (omega arith)
drop_past (suc o) (b ∷ text) x post h e = rw add-suc (drop_past o text x post (omega arith) e)

-- The text at the offset begins with the bytes `x`, and `post` follows.
record At (text : List ℕ) (offset : ℕ) (x post : List ℕ) : Type 0 where
  inside : offset ≤ length text
  here : drop offset text ≡ x ++ post

At-length :
    (text : List ℕ) (offset : ℕ) (x post : List ℕ)
    → At text offset x post
    → offset + length x + length post ≡ length text
At-length text offset x post a =
    omega (arith, length-drop offset text, a.inside, ap length a.here, length-append x post)

At-next :
    (text : List ℕ) (offset : ℕ) (x y post : List ℕ)
    → At text offset (x ++ y) post
    → At text (offset + length x) y post
At-next text offset x y post a = record {
  inside = omega (arith, At-length text offset (x ++ y) post a, length-append x y);
  here =
      ap (λ n. drop n text) (add_comm offset (length x))
      ∙ drop_past offset text x (y ++ post) a.inside (a.here ∙ append_assoc x y post);
}

read_word-At :
    (m n : ℕ) (text : List ℕ) (offset : ℕ) (x post : List ℕ)
    → At text offset x post
    → length x ≡ n
    → read_word m n text offset ≡ some (join m 0 x, offset + n)
unfolding read_word
read_word-At m n text offset x post a e =
    let size = At-length text offset x post a in
    let read = read_big_endian-join m n text offset 0 (omega arith) in
    let word = ap (λ k. take k (x ++ post)) (sym e) ∙ take-append x post in
    rw (le→ltb (length text) (offset + n) (omega arith), read_word, read, a.here, word)

-- A text's bytes after its length.
record HasText (text : List ℕ) (offset : ℕ) (s post : List ℕ) : Type 0 where
  len : read_word (2 ^ 32) 4 text offset ≡ some (length s, offset + 4)
  fits : ltb (length text) (offset + 4 + length s) ≡ false
  bytes : substr text (offset + 4) (length s) ≡ s

HasText-At :
    (text : List ℕ) (offset : ℕ) (s post : List ℕ)
    → length s < 2 ^ 32
    → At text offset (serialize_impl (str s)) post
    → HasText text offset s post
unfolding serialize_impl substr
HasText-At text offset s post h a =
    let size = length-big_endian 4 (length s % 2 ^ 32) in
    let len : length s % 2 ^ 32 ≡ length s = omega arith in
    let next = At-next text offset (big_endian 4 (length s % 2 ^ 32)) s post a in
    let body = subst (λ n. At text (offset + n) s post) size next in
    let head : At text offset (big_endian 4 (length s % 2 ^ 32)) (s ++ post) = record {
      inside = a.inside;
      here = a.here ∙ append_assoc (big_endian 4 (length s % 2 ^ 32)) s post;
    } in
    record {
      len =
          read_word-At (2 ^ 32) 4 text offset _ (s ++ post) head size
          ∙ ap (λ n. some (n, offset + 4)) (join32 (length s % 2 ^ 32) (omega arith) ∙ len);
      fits = le→ltb _ _ (omega (arith, At-length text (offset + 4) s post body));
      bytes = ap (take (length s)) body.here ∙ take-append s post;
    }

module _ (text : List ℕ) (offset : ℕ) (post : List ℕ) where
  deserialize_impl-At :
      (f : Field)
      → Fits f
      → At text offset (serialize_impl f) post
      → deserialize_impl (kind_of f) text offset ≡ some (f, offset + length (serialize_impl f))
  unfolding deserialize_impl serialize_impl
  deserialize_impl-At (int v) h a = rw (
    read_word-At (2 ^ 32) 4 text offset _ post a (length-big_endian 4 _),
    deserialize_impl,
    join32 _ (flip32-lt (to_unsigned (2 ^ 32) v)),
    signed32 v h,
    length-big_endian,
  )
  deserialize_impl-At (int64 v) h a = rw (
    read_word-At (2 ^ 64) 8 text offset _ post a (length-big_endian 8 _),
    deserialize_impl,
    join64 _ (flip64-lt (to_unsigned (2 ^ 64) v)),
    signed64 v h,
    length-big_endian,
  )
  deserialize_impl-At (uint64 u) h a = rw (
    read_word-At (2 ^ 64) 8 text offset _ post a (length-big_endian 8 _),
    deserialize_impl,
    join64 u h,
    length-big_endian,
  )
  deserialize_impl-At (str s) h a =
      let t = HasText-At text offset s post h a in
      rw (t.len, deserialize_impl, t.fits, t.bytes, length-append, length-big_endian, add_assoc)

deserialize_all-At :
    (fs : List Field) (text : List ℕ) (offset : ℕ)
    → AllFit fs
    → At text offset (serialize fs) []
    → deserialize_all (map kind_of fs) text offset ≡ some fs
unfolding deserialize_all serialize
deserialize_all-At [] text offset h a = ground (arith, At-length text offset [] [] a)
deserialize_all-At (f ∷ fs) text offset h a =
    let head : At text offset (serialize_impl f) (serialize fs) = record {
      inside = a.inside;
      here = a.here ∙ append-nil (serialize_impl f ++ serialize fs);
    } in
    let rest = At-next text offset (serialize_impl f) (serialize fs) [] a in
    rw (
      deserialize_impl-At text offset (serialize fs) f h.0 head,
      deserialize_all,
      deserialize_all-At fs text (offset + length (serialize_impl f)) h.1 rest,
    )

-- Fields that fit their types are read back by deserialize from what serialize wrote, with nothing
-- left over.
pub deserialize-serialize :
    (fs : List Field) → AllFit fs → deserialize (map kind_of fs) (serialize fs) ≡ some fs
unfolding deserialize
deserialize-serialize fs h =
    deserialize_all-At fs (serialize fs) 0 h
      (record { inside = omega arith; here = sym (append-nil (serialize fs)) })
