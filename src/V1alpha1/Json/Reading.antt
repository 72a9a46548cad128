-- ===== src/V1alpha1/Json/Reading.antt =====
-- What holds of a value that was read, whatever document it was read from.
use atomix_operator.Base.{
  ℕ, ℤ, pos, ◌≡◌, refl, sym, subst, String, Bool, true, false, Option, none, some, List, Result, ok,
  err, panic, bind,
}
use atomix_operator.V1alpha1.Json.{
  Numbers, JsonError, Json, null, boolean, number, text, array, object,
}
use atomix_operator.V1alpha1.Json.Codecs.{is_int, in_range, to_int, Codec, int_codec, pointer_codec}
use atomix_operator.V1alpha1.Json.Codecs.Laws.{AnyValue, IsOfWidth, IsGoodPointer}
use atomix_operator.V1alpha1.Json.Fields.{
  of_members, lookup, Fields, read_found, omitempty, ◌⊗◌, of_record, struct_codec,
}

-- A value that was read has the property; an error and a panic have none to have.
abbrev pub Holds : {A : Type 0} → (A → Type 0) → Result JsonError A → Type 0
Holds P (ok a) = P a
Holds P (err e) = Unit
Holds P panic = Unit

pub holds_any : {A : Type 0} (r : Result JsonError A) → Holds AnyValue r
holds_any (ok a) = tt
holds_any (err e) = tt
holds_any panic = tt

pub holds_map :
    {A B : Type 0} (f : A → B) (P : A → Type 0) (Q : B → Type 0)
    → ((a : A) → P a → Q (f a))
    → (r : Result JsonError A) → Holds P r
    → Holds Q (bind r λ a. ok (f a))
holds_map f P Q g (ok a) h = g a h
holds_map f P Q g (err e) h = tt
holds_map f P Q g panic h = tt

holds_both :
    {A B : Type 0} (P : A → Type 0) (Q : B → Type 0) (r : Result JsonError A)
    (s : Result JsonError B)
    → Holds P r
    → Holds Q s
    → Holds (λ (x : A × B). P x.0 × Q x.1) (bind r λ a. bind s λ b. ok (a, b))
holds_both P Q (ok a) (ok b) h k = (h, k)
holds_both P Q (ok a) (err e) h k = tt
holds_both P Q (ok a) panic h k = tt
holds_both P Q (err e) s h k = tt
holds_both P Q panic s h k = tt

pub holds_ok :
    {A : Type 0} (P : A → Type 0) (r : Result JsonError A) (a : A) → Holds P r → r ≡ ok a → P a
holds_ok P r a h e = subst (Holds P) e h

in_range-Holds : (w : ℕ) (x : ℤ) (b : Bool) → is_int w x ≡ b → Holds (IsOfWidth w) (in_range b x)
in_range-Holds w x true e = e
in_range-Holds w x false e = tt

to_int-Holds : (w : ℕ) (o : Option ℤ) → Holds (IsOfWidth w) (to_int w o)
to_int-Holds w none = tt
to_int-Holds w (some x) = in_range-Holds w x (is_int w x) refl

module _ {N : Numbers} where
  -- A value that a codec reads has the property, and so has the zero value.
  pub record Decodes {A : Type 0} (c : Codec N A) (P : A → Type 0) : Type 0 where
    pub holds : (j : Json N) → Holds P (c.decode j)
    pub holds_zero : P c.zero

  -- What some fields read among these members has the property.
  module _ (ms : List (String × Json N)) where
    pub record ReadsAs {A : Type 0} (p : Fields N A) (P : A → Type 0) : Type 0 where
      pub holds : Holds P (p.read ms)

    pub any-ReadsAs : {A : Type 0} (p : Fields N A) → ReadsAs p AnyValue
    any-ReadsAs p = record { holds = holds_any (p.read ms) }

    pub both-ReadsAs :
        {A B : Type 0} {p : Fields N A} {q : Fields N B} {P : A → Type 0} {Q : B → Type 0}
        → ReadsAs p P
        → ReadsAs q Q
        → ReadsAs (p ⊗ q) (λ x. P x.0 × Q x.1)
    both-ReadsAs {p = p} {q = q} {P = P} {Q = Q} r s = record {
      holds = holds_both P Q (p.read ms) (q.read ms) r.holds s.holds;
    }

    pub of_record-ReadsAs :
        {A B : Type 0} (make : A → B) (parts : B → A) {p : Fields N A} {P : A → Type 0}
        (Q : B → Type 0)
        → ((a : A) → P a → Q (make a))
        → ReadsAs p P
        → ReadsAs (of_record p make parts) Q
    of_record-ReadsAs make parts {p = p} {P = P} Q weaken r = record {
      holds = holds_map make P Q weaken (p.read ms) r.holds;
    }

    module _ {A : Type 0} (key : String) (c : Codec N A) (P : A → Type 0) where
      read_found-Holds : Decodes c P → (o : Option (Json N)) → Holds P (read_found key c o)
      read_found-Holds d none = d.holds_zero
      read_found-Holds d (some j) = d.holds j

      -- Whether `omitempty` is in the tag makes no difference.
      pub omitempty-ReadsAs : Decodes c P → ReadsAs (omitempty key c) P
      omitempty-ReadsAs d = record { holds = read_found-Holds d (lookup key ms) }

      pub found-ReadsAs :
          (o : Option (Json N))
          → lookup key ms ≡ o
          → Holds P (read_found key c o)
          → ReadsAs (omitempty key c) P
      found-ReadsAs o e h = record { holds = subst (λ x. Holds P (read_found key c x)) (sym e) h }

  module _ {A : Type 0} (p : Fields N A) (P : A → Type 0) (unset : P p.unset) where
    struct_decode-Holds :
        ((ms : List (String × Json N)) → ReadsAs ms p P)
        → (j : Json N) → Holds P ((struct_codec p).decode j)
    struct_decode-Holds reads null = unset
    struct_decode-Holds reads (boolean b) = tt
    struct_decode-Holds reads (number n) = tt
    struct_decode-Holds reads (text s) = tt
    struct_decode-Holds reads (array js) = tt
    struct_decode-Holds reads (object ms) = (reads (of_members ms)).holds

    pub struct-Decodes :
        ((ms : List (String × Json N)) → ReadsAs ms p P) → Decodes (struct_codec p) P
    struct-Decodes reads = record { holds = struct_decode-Holds reads; holds_zero = unset }

  module _ (w : ℕ) (has_zero : IsOfWidth w (pos 0)) where
    int_decode-Holds : (j : Json N) → Holds (IsOfWidth w) ((int_codec w).decode j)
    int_decode-Holds null = has_zero
    int_decode-Holds (boolean b) = tt
    int_decode-Holds (number n) = to_int-Holds w (N.to_ℤ n)
    int_decode-Holds (text s) = tt
    int_decode-Holds (array js) = tt
    int_decode-Holds (object ms) = tt

    -- An integer is in the range of its type.
    pub int-Decodes : Decodes (int_codec {N = N} w) (IsOfWidth w)
    int-Decodes = record { holds = int_decode-Holds; holds_zero = has_zero }

  module _ {A : Type 0} (c : Codec N A) (P : A → Type 0) (d : Decodes c P) where
    pointer_decode-Holds : (j : Json N) → Holds (IsGoodPointer P) ((pointer_codec c).decode j)
    pointer_decode-Holds null = tt
    pointer_decode-Holds (boolean b) =
        holds_map some P (IsGoodPointer P) (λ a h. h) _ (d.holds (boolean b))
    pointer_decode-Holds (number n) =
        holds_map some P (IsGoodPointer P) (λ a h. h) _ (d.holds (number n))
    pointer_decode-Holds (text s) =
        holds_map some P (IsGoodPointer P) (λ a h. h) _ (d.holds (text s))
    pointer_decode-Holds (array js) =
        holds_map some P (IsGoodPointer P) (λ a h. h) _ (d.holds (array js))
    pointer_decode-Holds (object ms) =
        holds_map some P (IsGoodPointer P) (λ a h. h) _ (d.holds (object ms))

    pub pointer-Decodes : Decodes (pointer_codec c) (IsGoodPointer P)
    pointer-Decodes = record { holds = pointer_decode-Holds; holds_zero = tt }
