-- ===== src/V1alpha1/Json/Codecs/Laws.antt =====
-- Which values are read back as they were written.
use atomix_operator.Base.{
  ℕ, zero, suc, ℤ, pos, negsuc, ◌≡◌, ◌≢◌, refl, sym, ap, ◌∙◌, arith, eq_iff, true, false, Option,
  none, some, List, [], ◌∷◌, Result, ok, err, panic, bind, All,
}
use atomix_operator.V1alpha1.Json.{
  Numbers, JsonError, Json, null, boolean, number, text, array, object, Items, item,
}
use atomix_operator.V1alpha1.Json.Codecs.{
  is_int, to_int, in_range, to_float, map_some, Codec, literal, string_codec, bool_codec, int_codec,
  float32_codec, pointer_codec, slice_codec, encode_items, decode_items,
}

-- What strconv is relied on for.
pub record LawfulNumbers (N : Numbers) : Type 0 where
  pub to_ℤ-of_ℤ : (x : ℤ) → N.to_ℤ (N.of_ℤ x) ≡ some x
  pub to_float32-of_float32 :
      (x : ℕ) (n : N.Number) → N.of_float32 x ≡ some n → N.to_float32 n ≡ some x

module _ {N : Numbers} {A : Type 0} (c : Codec N A) where
  -- A document is written, and it is read as the value.
  abbrev pub ReadsBack : Result JsonError (Json N) → A → Type 0
  ReadsBack (ok j) a = c.decode j ≡ ok a
  ReadsBack (err e) a = ⊥
  ReadsBack panic a = ⊥

  -- No document is null.
  abbrev pub IsNotNull : Type 0
  IsNotNull = (a : A) → c.encode a ≢ ok null

  module _ (IsGood : A → Type 0) where
    pub record Lawful : Type 0 where
      pub decode-encode : (a : A) → IsGood a → ReadsBack (c.encode a) a
      pub decode-null : c.decode null ≡ ok c.zero

    -- What `omitempty` leaves out is the zero value.
    abbrev pub EmptyIsZero : Type 0
    EmptyIsZero = (a : A) → IsGood a → c.is_empty a ≡ true → a ≡ c.zero

-- Every value is read back.
abbrev pub AnyValue : {A : Type 0} → A → Type 0
AnyValue a = Unit

abbrev pub IsOfWidth : ℕ → ℤ → Type 0
IsOfWidth w x = is_int w x ≡ true

-- A number with a literal, and not -0, which `omitempty` leaves out.
abbrev pub IsPlainFloat32 : Numbers → ℕ → Type 0
IsPlainFloat32 N x = (x ≢ 0x80000000) × (N.of_float32 x ≢ none)

abbrev pub IsGoodPointer : {A : Type 0} → (A → Type 0) → Option A → Type 0
IsGoodPointer IsGood none = Unit
IsGoodPointer IsGood (some a) = IsGood a

abbrev pub IsGoodList : {A : Type 0} → (A → Type 0) → Option (List A) → Type 0
IsGoodList IsGood none = Unit
IsGoodList IsGood (some xs) = All IsGood xs

-- Not empty, unless it is nil: `omitempty` leaves out both.
abbrev pub IsGoodSlice : {A : Type 0} → (A → Type 0) → Option (List A) → Type 0
IsGoodSlice IsGood none = Unit
IsGoodSlice IsGood (some []) = ⊥
IsGoodSlice IsGood (some (x ∷ xs)) = IsGood x × All IsGood xs

module _ (N : Numbers) where
  pub string-Lawful : Lawful (string_codec {N = N}) AnyValue
  string-Lawful = record { decode-encode = λ a good. refl; decode-null = refl }

  pub string-EmptyIsZero : EmptyIsZero (string_codec {N = N}) AnyValue
  string-EmptyIsZero a good e = ground (arith, eq_iff a "")

  pub string-IsNotNull : IsNotNull (string_codec {N = N})
  string-IsNotNull a e = cc

  pub bool-Lawful : Lawful (bool_codec {N = N}) AnyValue
  bool-Lawful = record { decode-encode = λ a good. refl; decode-null = refl }

  pub bool-EmptyIsZero : EmptyIsZero (bool_codec {N = N}) AnyValue
  bool-EmptyIsZero true good e = sym e
  bool-EmptyIsZero false good e = refl

  pub int-EmptyIsZero : (w : ℕ) → EmptyIsZero (int_codec {N = N} w) (IsOfWidth w)
  int-EmptyIsZero w (pos zero) good e = refl
  int-EmptyIsZero w (pos (suc n)) good e = cc
  int-EmptyIsZero w (negsuc n) good e = cc

  pub float32-EmptyIsZero : EmptyIsZero (float32_codec {N = N}) (IsPlainFloat32 N)
  float32-EmptyIsZero x (plain, literal) e = ground arith

  module _ (L : LawfulNumbers N) where
    pub int-Lawful : (w : ℕ) → Lawful (int_codec {N = N} w) (IsOfWidth w)
    int-Lawful w = record {
      decode-encode = λ x good. ap (to_int w) (L.to_ℤ-of_ℤ x) ∙ ap (λ b. in_range b x) good;
      decode-null = refl;
    }

    float32_reads :
        (x : ℕ) (o : Option N.Number)
        → N.of_float32 x ≡ o
        → o ≢ none
        → ReadsBack (float32_codec {N = N}) (literal o) x
    float32_reads x none e finite = absurd (finite refl)
    float32_reads x (some n) e finite = ap to_float (L.to_float32-of_float32 x n e)

    pub float32-Lawful : Lawful (float32_codec {N = N}) (IsPlainFloat32 N)
    float32-Lawful = record {
      decode-encode = λ x good. float32_reads x (N.of_float32 x) refl good.1;
      decode-null = refl;
    }

module _ {N : Numbers} {A : Type 0} (c : Codec N A) where
  pointer_reads :
      (a : A) (r : Result JsonError (Json N))
      → r ≢ ok null
      → ReadsBack c r a
      → ReadsBack (pointer_codec c) r (some a)
  pointer_reads a (ok null) some_document e = absurd (some_document refl)
  pointer_reads a (ok (boolean b)) some_document e = ap map_some e
  pointer_reads a (ok (number n)) some_document e = ap map_some e
  pointer_reads a (ok (text s)) some_document e = ap map_some e
  pointer_reads a (ok (array js)) some_document e = ap map_some e
  pointer_reads a (ok (object ms)) some_document e = ap map_some e
  pointer_reads a (err f) some_document e = absurd e
  pointer_reads a panic some_document e = absurd e

  pointer_decode-encode :
      (IsGood : A → Type 0)
      → Lawful c IsGood
      → IsNotNull c
      → (o : Option A) → IsGoodPointer IsGood o
      → ReadsBack (pointer_codec c) ((pointer_codec c).encode o) o
  pointer_decode-encode IsGood l document none good = refl
  pointer_decode-encode IsGood l document (some a) good =
      pointer_reads a (c.encode a) (document a) (l.decode-encode a good)

  pub pointer-Lawful :
      (IsGood : A → Type 0)
      → Lawful c IsGood
      → IsNotNull c
      → Lawful (pointer_codec c) (IsGoodPointer IsGood)
  pointer-Lawful IsGood l document = record {
    decode-encode = pointer_decode-encode IsGood l document;
    decode-null = refl;
  }

  pub pointer-EmptyIsZero :
      (IsGood : A → Type 0) → EmptyIsZero (pointer_codec c) (IsGoodPointer IsGood)
  pointer-EmptyIsZero IsGood none good e = refl
  pointer-EmptyIsZero IsGood (some a) good e = cc

  abbrev ItemsRead : Result JsonError (Items N) → List A → Type 0
  ItemsRead (ok js) xs = decode_items c js ≡ ok xs
  ItemsRead (err e) xs = ⊥
  ItemsRead panic xs = ⊥

  cons-ItemsRead :
      (x : A) (xs : List A) (r : Result JsonError (Json N)) (s : Result JsonError (Items N))
      → ReadsBack c r x
      → ItemsRead s xs
      → ItemsRead (bind r λ j. bind s λ js. ok (item j js)) (x ∷ xs)
  unfolding decode_items
  cons-ItemsRead x xs (ok j) (ok js) e f = rw e (rw f refl)
  cons-ItemsRead x xs (ok j) (err g) e f = absurd f
  cons-ItemsRead x xs (ok j) panic e f = absurd f
  cons-ItemsRead x xs (err g) s e f = absurd e
  cons-ItemsRead x xs panic s e f = absurd e

  slice_reads :
      (xs : List A) (s : Result JsonError (Items N))
      → ItemsRead s xs
      → ReadsBack (slice_codec c) (bind s λ js. ok (array js)) (some xs)
  slice_reads xs (ok js) e = rw e refl
  slice_reads xs (err g) e = absurd e
  slice_reads xs panic e = absurd e

  module _ (IsGood : A → Type 0) (l : Lawful c IsGood) where
    encode_items-ItemsRead : (xs : List A) → All IsGood xs → ItemsRead (encode_items c xs) xs
    unfolding encode_items decode_items
    encode_items-ItemsRead [] good = refl
    encode_items-ItemsRead (x ∷ xs) (good, rest) =
        cons-ItemsRead x xs (c.encode x) (encode_items c xs) (l.decode-encode x good)
          (encode_items-ItemsRead xs rest)

    slice_decode-encode :
        (o : Option (List A))
        → IsGoodList IsGood o
        → ReadsBack (slice_codec c) ((slice_codec c).encode o) o
    slice_decode-encode none good = refl
    slice_decode-encode (some xs) good =
        slice_reads xs (encode_items c xs) (encode_items-ItemsRead xs good)

    pub list-Lawful : Lawful (slice_codec c) (IsGoodList IsGood)
    list-Lawful = record { decode-encode = slice_decode-encode; decode-null = refl }

    good_list : (o : Option (List A)) → IsGoodSlice IsGood o → IsGoodList IsGood o
    good_list none good = tt
    good_list (some []) good = tt
    good_list (some (x ∷ xs)) good = good

    pub slice-Lawful : Lawful (slice_codec c) (IsGoodSlice IsGood)
    slice-Lawful = record {
      decode-encode = λ o good. slice_decode-encode o (good_list o good);
      decode-null = refl;
    }

  pub slice-EmptyIsZero : (IsGood : A → Type 0) → EmptyIsZero (slice_codec c) (IsGoodSlice IsGood)
  slice-EmptyIsZero IsGood none good e = refl
  slice-EmptyIsZero IsGood (some []) good e = elim good [ ]
  slice-EmptyIsZero IsGood (some (x ∷ xs)) good e = cc
