-- ===== src/V1alpha1/Json/Codecs.antt =====
-- How encoding/json writes and reads values of Go's types, without the structs: `null` leaves a value
-- at its zero, and a document of the wrong shape, or a number out of range, is an error.
pub mod Laws
use atomix_operator.Base.{
  ℕ, ℤ, pos, negsuc, ltb, is_zero, ◌^◌, String, ◌==◌, Bool, true, false, not, Option, none, some,
  List, [], ◌∷◌, Result, ok, err, bind,
}
use atomix_operator.V1alpha1.Defaults.{is_zero_float32}
use atomix_operator.V1alpha1.Json.{
  Numbers, JsonError, unmarshal_type, unsupported_value, Json, null, boolean, number, text, array,
  object, Items, nil, item, Members, end, member,
}

-- The integers from -2^w to 2^w - 1, for w = 31 and w = 63.
abbrev pub is_int : ℕ → ℤ → Bool
is_int w (pos n) = ltb n (2 ^ w)
is_int w (negsuc n) = ltb n (2 ^ w)

abbrev pub in_range : Bool → ℤ → Result JsonError ℤ
in_range true x = ok x
in_range false x = err unmarshal_type

abbrev pub to_int : ℕ → Option ℤ → Result JsonError ℤ
to_int w none = err unmarshal_type
to_int w (some x) = in_range (is_int w x) x

abbrev pub to_float : Option ℕ → Result JsonError ℕ
to_float none = err unmarshal_type
to_float (some x) = ok x

abbrev pub map_some : {A : Type 0} → Result JsonError A → Result JsonError (Option A)
map_some r = bind r λ a. ok (some a)

module _ (N : Numbers) where
  pub record Codec (A : Type 0) : Type 0 where
    pub zero : A
    -- What `omitempty` leaves out.
    pub is_empty : A → Bool
    pub encode : A → Result JsonError (Json N)
    pub decode : Json N → Result JsonError A

module _ {N : Numbers} where
  abbrev string_decode : Json N → Result JsonError String
  string_decode null = ok ""
  string_decode (text s) = ok s
  string_decode _ = err unmarshal_type

  abbrev pub string_codec : Codec N String
  string_codec = record {
    zero = "";
    is_empty = λ s. s == "";
    encode = λ s. ok (text s);
    decode = string_decode;
  }

  abbrev bool_decode : Json N → Result JsonError Bool
  bool_decode null = ok false
  bool_decode (boolean b) = ok b
  bool_decode _ = err unmarshal_type

  abbrev pub bool_codec : Codec N Bool
  bool_codec = record {
    zero = false;
    is_empty = not;
    encode = λ b. ok (boolean b);
    decode = bool_decode;
  }

  abbrev int_decode : ℕ → Json N → Result JsonError ℤ
  int_decode w null = ok (pos 0)
  int_decode w (number n) = to_int w (N.to_ℤ n)
  int_decode w _ = err unmarshal_type

  -- `int32` for w = 31, `int` for w = 63.
  abbrev pub int_codec : ℕ → Codec N ℤ
  int_codec w = record {
    zero = pos 0;
    is_empty = is_zero;
    encode = λ x. ok (number (N.of_ℤ x));
    decode = int_decode w;
  }

  abbrev pub literal : Option N.Number → Result JsonError (Json N)
  literal none = err unsupported_value
  literal (some n) = ok (number n)

  abbrev float32_decode : Json N → Result JsonError ℕ
  float32_decode null = ok 0
  float32_decode (number n) = to_float (N.to_float32 n)
  float32_decode _ = err unmarshal_type

  abbrev pub float32_codec : Codec N ℕ
  float32_codec = record {
    zero = 0;
    is_empty = is_zero_float32;
    encode = λ x. literal (N.of_float32 x);
    decode = float32_decode;
  }

  module _ {A : Type 0} (c : Codec N A) where
    abbrev pub pointer_encode : Option A → Result JsonError (Json N)
    pointer_encode none = ok null
    pointer_encode (some a) = c.encode a

    abbrev pub pointer_decode : Json N → Result JsonError (Option A)
    pointer_decode null = ok none
    pointer_decode j = map_some (c.decode j)

    abbrev is_nil : Option A → Bool
    is_nil none = true
    is_nil (some a) = false

    abbrev pub pointer_codec : Codec N (Option A)
    pointer_codec = record {
      zero = none;
      is_empty = is_nil;
      encode = pointer_encode;
      decode = pointer_decode;
    }

    unfoldable pub encode_items : List A → Result JsonError (Items N)
    encode_items [] = ok nil
    encode_items (x ∷ xs) = bind (c.encode x) λ j. bind (encode_items xs) λ js. ok (item j js)

    unfoldable pub decode_items : Items N → Result JsonError (List A)
    decode_items nil = ok []
    decode_items (item j js) = bind (c.decode j) λ x. bind (decode_items js) λ xs. ok (x ∷ xs)

    abbrev pub slice_encode : Option (List A) → Result JsonError (Json N)
    slice_encode none = ok null
    slice_encode (some xs) = bind (encode_items xs) λ js. ok (array js)

    abbrev pub slice_decode : Json N → Result JsonError (Option (List A))
    slice_decode null = ok none
    slice_decode (array js) = bind (decode_items js) λ xs. ok (some xs)
    slice_decode _ = err unmarshal_type

    -- nil, or no elements.
    abbrev is_empty_slice : Option (List A) → Bool
    is_empty_slice none = true
    is_empty_slice (some []) = true
    is_empty_slice (some (x ∷ xs)) = false

    abbrev pub slice_codec : Codec N (Option (List A))
    slice_codec = record {
      zero = none;
      is_empty = is_empty_slice;
      encode = slice_encode;
      decode = slice_decode;
    }
