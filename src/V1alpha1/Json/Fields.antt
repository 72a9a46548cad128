-- ===== src/V1alpha1/Json/Fields.antt =====
-- How encoding/json writes and reads the fields of a struct by their tags.
pub mod Keys
pub mod Laws
use atomix_operator.Base.{
  String, ◌==◌, Bool, true, false, Option, none, some, List, [], ◌∷◌, ◌++◌, Result, ok, err, bind,
  if◌then◌else◌,
}
use atomix_operator.V1alpha1.Json.{
  Numbers, JsonError, unmarshal_type, Json, null, object, Members, end, member,
}
use atomix_operator.V1alpha1.Json.Codecs.{Codec}

module _ {N : Numbers} where
  abbrev pub of_members : Members N → List (String × Json N)
  of_members end = []
  of_members (member k j ms) = (k, j) ∷ of_members ms

  abbrev pub to_members : List (String × Json N) → Members N
  to_members [] = end
  to_members ((k, j) ∷ ms) = member k j (to_members ms)

  abbrev pub lookup : String → List (String × Json N) → Option (Json N)
  lookup key [] = none
  lookup key ((k, j) ∷ ms) = let rest = lookup key ms in if k == key then some j else rest

module _ (N : Numbers) where
  -- Some fields of a struct: their keys, and how they are written and read among all members.
  pub record Fields (A : Type 0) : Type 0 where
    pub keys : List String
    pub unset : A
    pub write : A → Result JsonError (List (String × Json N))
    pub read : List (String × Json N) → Result JsonError A

module _ {N : Numbers} where
  module _ {A : Type 0} (key : String) (c : Codec N A) where
    abbrev pub write_field : A → Result JsonError (List (String × Json N))
    write_field a = bind (c.encode a) λ j. ok ((key, j) ∷ [])

    abbrev pub read_found : Option (Json N) → Result JsonError A
    read_found none = ok c.zero
    read_found (some j) = c.decode j

    -- `json:"key"`
    abbrev pub field : Fields N A
    field = record {
      keys = key ∷ [];
      unset = c.zero;
      write = write_field;
      read = λ ms. read_found (lookup key ms);
    }

    abbrev pub write_unless : Bool → A → Result JsonError (List (String × Json N))
    write_unless true a = ok []
    write_unless false a = write_field a

    -- `json:"key,omitempty"`
    abbrev pub omitempty : Fields N A
    omitempty = record {
      keys = key ∷ [];
      unset = c.zero;
      write = λ a. write_unless (c.is_empty a) a;
      read = λ ms. read_found (lookup key ms);
    }

  -- Fields and further fields, and those of an embedded struct with `json:",inline"`.
  infixr 30 ◌⊗◌
  abbrev pub ◌⊗◌ : {A B : Type 0} → Fields N A → Fields N B → Fields N (A × B)
  p ⊗ q = record {
    keys = p.keys ++ q.keys;
    unset = (p.unset, q.unset);
    write = λ x. bind (p.write x.0) λ ms. bind (q.write x.1) λ ns. ok (ms ++ ns);
    read = λ ms. bind (p.read ms) λ a. bind (q.read ms) λ b. ok (a, b);
  }

  -- The fields of a record.
  abbrev pub of_record : {A B : Type 0} → Fields N A → (A → B) → (B → A) → Fields N B
  of_record p make parts = record {
    keys = p.keys;
    unset = make p.unset;
    write = λ x. p.write (parts x);
    read = λ ms. bind (p.read ms) λ a. ok (make a);
  }

  module _ {A : Type 0} (p : Fields N A) where
    abbrev pub struct_decode : Json N → Result JsonError A
    struct_decode null = ok p.unset
    struct_decode (object ms) = p.read (of_members ms)
    struct_decode _ = err unmarshal_type

    -- A struct is never empty for `omitempty`.
    abbrev pub struct_codec : Codec N A
    struct_codec = record {
      zero = p.unset;
      is_empty = λ a. false;
      encode = λ a. bind (p.write a) λ ms. ok (object (to_members ms));
      decode = struct_decode;
    }
