-- ===== src/Examples/Records.antt =====
-- Concrete records of the Redis adapter, and the theorems about their format at these.
use x_cache_manager.Prelude.{ℕ, ◌≡◌, refl, arith, none, some, List, [], ◌∷◌, map, str_lt}
use x_cache_manager.Serial
use x_cache_manager.Serial.{
  ℤ, pos, negsuc, Field, int, int64, uint64, str, Kind, kind_of, serialize, deserialize,
}
use x_cache_manager.Serial.RoundTrip.{AllFit, deserialize-serialize}
use x_cache_manager.Serial.Canonical.{serialize-deserialize}
use x_cache_manager.Serial.Order.{record_lt, serialize-lt}

program : Unit {0}
unfolding Serial.to_unsigned Serial.to_signed Serial.flip_sign Serial.big_endian
    Serial.serialize_impl serialize Serial.read_big_endian Serial.read_word Serial.substr
    Serial.deserialize_impl Serial.deserialize_all deserialize
program = tt

abbrev fields : List Field
fields = int (negsuc 1) ∷ str (104 ∷ 105 ∷ []) ∷ uint64 258 ∷ []

abbrev text : List ℕ
text = 127 ∷ 255 ∷ 255 ∷ 254 ∷ 0 ∷ 0 ∷ 0 ∷ 2 ∷ 104 ∷ 105 ∷ 0 ∷ 0 ∷ 0 ∷ 0 ∷ 0 ∷ 0 ∷ 1 ∷ 2 ∷ []

abbrev kinds : List Kind
kinds = Kind.int ∷ Kind.str ∷ Kind.uint64 ∷ []

written : serialize fields ≡ text
unfolding program
written = refl

-- A byte too many.
left_over : deserialize (Kind.int ∷ []) (0 ∷ 0 ∷ 0 ∷ 0 ∷ 0 ∷ []) ≡ none
unfolding program
left_over = refl

deserialize-serialize_example : deserialize (map kind_of fields) (serialize fields) ≡ some fields
unfolding program
deserialize-serialize_example =
    deserialize-serialize fields (omega arith, (omega arith, (omega arith, tt)))

serialize-deserialize_example :
    (serialize fields ≡ text) × (map kind_of fields ≡ kinds) × AllFit fields
unfolding program
serialize-deserialize_example =
    serialize-deserialize kinds text fields
      (
        omega arith,
        (
          omega arith,
          (
            omega arith,
            (
              omega arith,
              (
                omega arith,
                (
                  omega arith,
                  (
                    omega arith,
                    (
                      omega arith,
                      (
                        omega arith,
                        (
                          omega arith,
                          (
                            omega arith,
                            (
                              omega arith,
                              (
                                omega arith,
                                (
                                  omega arith,
                                  (omega arith, (omega arith, (omega arith, (omega arith, tt)))),
                                ),
                              ),
                            ),
                          ),
                        ),
                      ),
                    ),
                  ),
                ),
              ),
            ),
          ),
        ),
      )
      refl

abbrev earlier : List Field
earlier = int (negsuc 1) ∷ int64 (pos 5) ∷ uint64 9 ∷ []

abbrev later : List Field
later = int (negsuc 1) ∷ int64 (pos 6) ∷ uint64 2 ∷ []

serialize-lt_example : str_lt (serialize earlier) (serialize later) ≡ record_lt earlier later
unfolding program
serialize-lt_example =
    serialize-lt earlier later (tt, (tt, (tt, tt))) (omega arith, (omega arith, (omega arith, tt)))
      (omega arith, (omega arith, (omega arith, tt)))
