-- ===== src/Serial/Canonical.antt =====
-- `serialize` after `deserialize`.
use mathlib.Core.List.{append_assoc}
use x_cache_manager.Prelude.{
  ℕ, zero, suc, ◌+◌, ◌%◌, ◌^◌, ◌<◌, ◌≤◌, ◌≡◌, ◌⊎◌, inl, inr, refl, sym, ap, ap₂, subst, ◌∙◌, Option,
  none, some, List, [], ◌∷◌, ◌++◌, arith, ltb, ltb→le, ◌==◌, length, drop, take, map, Bool-cases,
  Option-cases,
}
use x_cache_manager.Serial.{
  Field, Kind, int, int64, uint64, str, kind_of, serialize_impl, serialize, read_word, substr,
  to_signed, flip_sign, deserialize_impl, deserialize_all, deserialize, cons_field, big_endian,
}
use x_cache_manager.Serial.Codec.{
  AllBytes, InRange, join, join32_lt, join64_lt, big_endian-join32, big_endian-join64, unsigned32,
  unsigned64, read_big_endian-join, flip32-lt, flip64-lt,
}
use x_cache_manager.Serial.RoundTrip.{Fits, AllFit, length-drop}

take-append-drop : (n : ℕ) (l : List ℕ) → take n l ++ drop n l ≡ l
take-append-drop zero l = refl
take-append-drop (suc n) [] = refl
take-append-drop (suc n) (b ∷ l) = ap (◌∷◌ b) (take-append-drop n l)

length-take_of_le : (n : ℕ) (l : List ℕ) → n ≤ length l → length (take n l) ≡ n
length-take_of_le zero l h = refl
length-take_of_le (suc n) [] h = absurd (omega arith)
length-take_of_le (suc n) (b ∷ l) h = ap suc (length-take_of_le n l (omega arith))

AllBytes-take : (n : ℕ) (l : List ℕ) → AllBytes l → AllBytes (take n l)
AllBytes-take zero l h = tt
AllBytes-take (suc n) [] h = tt
AllBytes-take (suc n) (b ∷ l) h = (h.0, AllBytes-take n l h.1)

AllBytes-drop : (n : ℕ) (l : List ℕ) → AllBytes l → AllBytes (drop n l)
AllBytes-drop zero l h = h
AllBytes-drop (suc n) [] h = tt
AllBytes-drop (suc n) (b ∷ l) h = AllBytes-drop n l h.1

drop-nil : (n : ℕ) → drop {A = ℕ} n [] ≡ []
drop-nil zero = refl
drop-nil (suc n) = refl

drop-drop : (n o : ℕ) (l : List ℕ) → drop n (drop o l) ≡ drop (o + n) l
drop-drop n zero l = let e : n ≡ 0 + n = omega arith in ap (λ k. drop k l) e
drop-drop n (suc o) [] = drop-nil n ∙ sym (drop-nil (suc o + n))
drop-drop n (suc o) (b ∷ l) =
    let e : suc (o + n) ≡ suc o + n = omega arith in drop-drop n o l ∙ ap (λ k. drop k (b ∷ l)) e

-- A word that was read: its bytes stand at the offset.
record Word (m n : ℕ) (text : List ℕ) (offset u next : ℕ) : Type 0 where
  bytes : List ℕ
  size : length bytes ≡ n
  all : AllBytes bytes
  value : u ≡ join m 0 bytes
  past : next ≡ offset + n
  inside : next ≤ length text
  split : drop offset text ≡ bytes ++ drop next text

read_word-Word :
    (m n : ℕ) (text : List ℕ) (offset u next : ℕ)
    → AllBytes text
    → offset ≤ length text
    → read_word m n text offset ≡ some (u, next)
    → Word m n text offset u next
unfolding read_word
read_word-Word m n text offset u next w inside e =
    elim (Bool-cases (ltb (length text) (offset + n))) [
      | inl out ↦ absurd (ground (arith, out, e))
      | inr fits ↦
          let le = ltb→le _ _ fits in
          let read = read_big_endian-join m n text offset 0 le in
          let past : next ≡ offset + n = ground (arith, fits, e) in
          record {
            bytes = take n (drop offset text);
            size =
                length-take_of_le n (drop offset text)
                  (omega (arith, length-drop offset text inside));
            all = AllBytes-take n _ (AllBytes-drop offset text w);
            value = ground (arith, fits, e, read);
            past = past;
            inside = omega arith;
            split =
                sym (take-append-drop n (drop offset text))
                ∙ ap (λ l. take n (drop offset text) ++ l)
                    (drop-drop n offset text ∙ ap (λ k. drop k text) (sym past));
          }
    ]

-- A field that was read.
record Reads (k : Kind) (text : List ℕ) (offset : ℕ) (f : Field) (next : ℕ) : Type 0 where
  kind : kind_of f ≡ k
  fits : Fits f
  split : drop offset text ≡ serialize_impl f ++ drop next text
  inside : next ≤ length text

InRange-to_signed32 : (u : ℕ) → u < 2 ^ 32 → InRange (2 ^ 32) (to_signed (2 ^ 32) u)
unfolding to_signed
InRange-to_signed32 u h = elim (Bool-cases (ltb u (2 ^ 31))) [
  | inl e ↦ rw (e, to_signed) (ground (arith, e))
  | inr e ↦ rw (e, to_signed) (ground (arith, e))
]

InRange-to_signed64 : (u : ℕ) → u < 2 ^ 64 → InRange (2 ^ 64) (to_signed (2 ^ 64) u)
unfolding to_signed
InRange-to_signed64 u h = elim (Bool-cases (ltb u (2 ^ 63))) [
  | inl e ↦ rw (e, to_signed) (ground (arith, e))
  | inr e ↦ rw (e, to_signed) (ground (arith, e))
]

module _ (text : List ℕ) (offset : ℕ) (w : AllBytes text) (inside : offset ≤ length text) where
  Word-of :
      (m n : ℕ)
      → ((read_word m n text offset ≡ none)
          ⊎ ((u : ℕ) × (next : ℕ) × (read_word m n text offset ≡ some (u, next))
              × Word m n text offset u next))
  Word-of m n = elim (Option-cases (read_word m n text offset)) [
    | inl e ↦ inl e
    | inr ((u, next), e) ↦ inr (u, next, e, read_word-Word m n text offset u next w inside e)
  ]

  int-Reads :
      (u next : ℕ)
      → Word (2 ^ 32) 4 text offset u next
      → Reads Kind.int text offset (int (to_signed (2 ^ 32) (flip_sign (2 ^ 32) u))) next
  unfolding serialize_impl
  int-Reads u next d =
      let lt = subst (λ k. k < 2 ^ 32) (sym d.value) (join32_lt d.bytes d.size) in
      record {
        kind = refl;
        fits = InRange-to_signed32 _ (flip32-lt u);
        split = rw (unsigned32 u lt, d.value, big_endian-join32 d.bytes d.size d.all) d.split;
        inside = d.inside;
      }

  int64-Reads :
      (u next : ℕ)
      → Word (2 ^ 64) 8 text offset u next
      → Reads Kind.int64 text offset (int64 (to_signed (2 ^ 64) (flip_sign (2 ^ 64) u))) next
  unfolding serialize_impl
  int64-Reads u next d =
      let lt = subst (λ k. k < 2 ^ 64) (sym d.value) (join64_lt d.bytes d.size) in
      record {
        kind = refl;
        fits = InRange-to_signed64 _ (flip64-lt u);
        split = rw (unsigned64 u lt, d.value, big_endian-join64 d.bytes d.size d.all) d.split;
        inside = d.inside;
      }

  uint64-Reads :
      (u next : ℕ)
      → Word (2 ^ 64) 8 text offset u next
      → Reads Kind.uint64 text offset (uint64 u) next
  unfolding serialize_impl
  uint64-Reads u next d = record {
    kind = refl;
    fits = subst (λ k. k < 2 ^ 64) (sym d.value) (join64_lt d.bytes d.size);
    split = rw (d.value, big_endian-join64 d.bytes d.size d.all) d.split;
    inside = d.inside;
  }

  str-Reads :
      (len next : ℕ)
      → Word (2 ^ 32) 4 text offset len next
      → next + len ≤ length text
      → Reads Kind.str text offset (str (substr text next len)) (next + len)
  unfolding serialize_impl substr
  str-Reads len next d fits =
      let lt = subst (λ k. k < 2 ^ 32) (sym d.value) (join32_lt d.bytes d.size) in
      let size =
        length-take_of_le len (drop next text) (omega (arith, length-drop next text d.inside)) in
      let same : len % 2 ^ 32 ≡ len = omega (arith, lt) in
      let word : big_endian 4 (len % 2 ^ 32) ≡ d.bytes =
        ap (big_endian 4) (same ∙ d.value) ∙ big_endian-join32 d.bytes d.size d.all in
      let tail : take len (drop next text) ++ drop (next + len) text ≡ drop next text =
        ap (λ l. take len (drop next text) ++ l) (sym (drop-drop len next text))
        ∙ take-append-drop len (drop next text) in
      record {
        kind = refl;
        fits = rw size lt;
        split =
            rw (size, word)
              (d.split
                ∙ ap (λ l. d.bytes ++ l) (sym tail)
                ∙ sym (append_assoc d.bytes (take len (drop next text)) (drop (next + len) text)));
        inside = fits;
      }

  abbrev Found : Kind → Option (Field × ℕ) → Type 0
  Found k none = Unit {0}
  Found k (some (f, next)) = Reads k text offset f next

  deserialize_impl-Found : (k : Kind) → Found k (deserialize_impl k text offset)
  unfolding deserialize_impl
  deserialize_impl-Found Kind.int = elim (Word-of (2 ^ 32) 4) [
    | inl e ↦ rw (e, deserialize_impl) tt
    | inr (u, next, e, d) ↦ rw (e, deserialize_impl) (int-Reads u next d)
  ]
  deserialize_impl-Found Kind.int64 = elim (Word-of (2 ^ 64) 8) [
    | inl e ↦ rw (e, deserialize_impl) tt
    | inr (u, next, e, d) ↦ rw (e, deserialize_impl) (int64-Reads u next d)
  ]
  deserialize_impl-Found Kind.uint64 = elim (Word-of (2 ^ 64) 8) [
    | inl e ↦ rw (e, deserialize_impl) tt
    | inr (u, next, e, d) ↦ rw (e, deserialize_impl) (uint64-Reads u next d)
  ]
  deserialize_impl-Found Kind.str = elim (Word-of (2 ^ 32) 4) [
    | inl e ↦ rw (e, deserialize_impl) tt
    | inr (len, next, e, d) ↦ elim (Bool-cases (ltb (length text) (next + len))) [
      | inl out ↦ rw (e, deserialize_impl, out) tt
      | inr fits ↦ rw (e, deserialize_impl, fits) (str-Reads len next d (ltb→le _ _ fits))
    ]
  ]

-- A record that was read from the offset on.
record ReadsAll (ks : List Kind) (text : List ℕ) (offset : ℕ) (fs : List Field) : Type 0 where
  kinds : map kind_of fs ≡ ks
  fit : AllFit fs
  split : drop offset text ≡ serialize fs

abbrev FoundAll : List Kind → List ℕ → ℕ → Option (List Field) → Type 0
FoundAll ks text offset none = Unit {0}
FoundAll ks text offset (some fs) = ReadsAll ks text offset fs

cons-FoundAll :
    (k : Kind) (ks : List Kind) (text : List ℕ) (offset next : ℕ) (f : Field)
    (o : Option (List Field))
    → Reads k text offset f next
    → FoundAll ks text next o
    → FoundAll (k ∷ ks) text offset (cons_field f o)
unfolding serialize
cons-FoundAll k ks text offset next f none r h = tt
cons-FoundAll k ks text offset next f (some fs) r h = record {
  kinds = ap₂ ◌∷◌ r.kind h.kinds;
  fit = (r.fits, h.fit);
  split = r.split ∙ ap (λ l. serialize_impl f ++ l) h.split;
}

drop_all : (l : List ℕ) → drop (length l) l ≡ []
drop_all [] = refl
drop_all (b ∷ l) = drop_all l

deserialize_all-FoundAll :
    (ks : List Kind) (text : List ℕ) (offset : ℕ)
    → AllBytes text
    → offset ≤ length text
    → FoundAll ks text offset (deserialize_all ks text offset)
unfolding deserialize_all serialize
deserialize_all-FoundAll [] text offset w inside = elim (Bool-cases (offset == length text)) [
  | inl e ↦
      let all : offset ≡ length text = ground (arith, e) in
      rw (e, deserialize_all)
        (record { kinds = refl; fit = tt; split = ap (λ n. drop n text) all ∙ drop_all text })
  | inr e ↦ rw (e, deserialize_all) tt
]
deserialize_all-FoundAll (k ∷ ks) text offset w inside =
    elim (Option-cases (deserialize_impl k text offset)) [
      | inl e ↦ rw (e, deserialize_all) tt
      | inr ((f, next), e) ↦
          let r =
            subst (Found text offset w inside k) e
              (deserialize_impl-Found text offset w inside k) in
          rw (e, deserialize_all)
            (cons-FoundAll k ks text offset next f (deserialize_all ks text next) r
              (deserialize_all-FoundAll ks text next w r.inside))
    ]

-- Bytes that deserialize accepts are the serialization of the fields that it returns, which have
-- the types asked for and fit them.
pub serialize-deserialize :
    (ks : List Kind) (text : List ℕ) (fs : List Field)
    → AllBytes text
    → deserialize ks text ≡ some fs
    → (serialize fs ≡ text) × (map kind_of fs ≡ ks) × AllFit fs
unfolding deserialize
serialize-deserialize ks text fs w e =
    let r = subst (FoundAll ks text 0) e (deserialize_all-FoundAll ks text 0 w (omega arith)) in
    (sym r.split, r.kinds, r.fit)
