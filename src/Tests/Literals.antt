-- ===== src/Tests/Literals.antt =====
-- Literals of numbers, and the vendored structs with few fields.
use atomix_operator.V1alpha1.Json.Unknown.{
  KnownTypeMeta, KnownTypeMeta, omitempty-IsLocal, both-IsLocal, of_record-IsLocal,
}
use atomix_operator.Base.{
  ℕ, ltb, ◌/◌, ◌%◌, ℤ, String, Bool, true, false, Option, none, some, [], map, ◌≡◌, refl,
}
use atomix_operator.Kube.Meta.{new_object_meta}
use atomix_operator.V1alpha1.DeepCopy.Structs.{TypeMeta, ListMeta}
use atomix_operator.V1alpha1.Json.{Numbers}
use atomix_operator.V1alpha1.Json.Codecs.{string_codec}
use atomix_operator.V1alpha1.Json.Codecs.Laws.{LawfulNumbers}
use atomix_operator.V1alpha1.Json.Fields.{Fields, omitempty, ◌⊗◌, of_record, struct_codec}
use atomix_operator.V1alpha1.Json.Fields.Laws.{
  both-LawfulFields, of_record-LawfulFields, struct-Lawful, struct-EmptyIsZero, LawfulFields,
}
use atomix_operator.V1alpha1.Json.Structs.{string_field}
use atomix_operator.V1alpha1.Json.Tags.{VendoredJson}
use atomix_operator.V1alpha1.Json.Specs.{LawfulJson}
use atomix_operator.V1alpha1.Json.Values.{Vendored}
use atomix_operator.Tests.Memory.{foreign}

pub data Literal : Type 0 where
  integer : ℤ → Literal
  decimal : ℕ → Literal

abbrev whole : Literal → Option ℤ
whole (integer x) = some x
whole (decimal x) = none

abbrev pattern_of : Literal → Option ℕ
pattern_of (integer x) = none
pattern_of (decimal x) = some x

-- The exponent of an infinity, and of what is not a number, is 255.
abbrev is_finite : ℕ → Bool
is_finite x = ltb (x / 0x800000 % 256) 255

abbrev decimal_if : Bool → ℕ → Option Literal
decimal_if true x = some (decimal x)
decimal_if false x = none

abbrev pub literals : Numbers
literals = record {
  Number = Literal;
  of_ℤ = integer;
  to_ℤ = whole;
  of_float32 = λ x. decimal_if (is_finite x) x;
  to_float32 = pattern_of;
}

decimal_lem : (b : Bool) (x : ℕ) (n : Literal) → decimal_if b x ≡ some n → pattern_of n ≡ some x
decimal_lem true x (integer y) e = cc
decimal_lem true x (decimal y) e = cc
decimal_lem false x n e = cc

pub literals-LawfulNumbers : LawfulNumbers literals
literals-LawfulNumbers = record {
  to_ℤ-of_ℤ = λ x. refl;
  to_float32-of_float32 = λ x n e. decimal_lem (is_finite x) x n e;
}

abbrev meta_fields : Fields literals (String × String)
meta_fields = omitempty "name" string_codec ⊗ omitempty "namespace" string_codec

abbrev env_var_fields : Fields literals (String × String)
env_var_fields = omitempty "name" string_codec ⊗ omitempty "value" string_codec

abbrev make_type_meta : String × String → TypeMeta
make_type_meta (kind, api_version) = record { kind = kind; api_version = api_version }

abbrev split_type_meta : TypeMeta → String × String
split_type_meta x = (x.kind, x.api_version)

abbrev make_list_meta : String × (String × String) → ListMeta
make_list_meta (self_link, (resource_version, continue_token)) = record {
  self_link = self_link;
  resource_version = resource_version;
  continue_token = continue_token;
}

abbrev split_list_meta : ListMeta → String × (String × String)
split_list_meta x = (x.self_link, (x.resource_version, x.continue_token))

abbrev list_meta_fields : Fields literals ListMeta
list_meta_fields =
    of_record
      (omitempty "selfLink" string_codec
        ⊗ omitempty "resourceVersion" string_codec
        ⊗ omitempty "continue" string_codec)
      make_list_meta split_list_meta

-- The metadata is a name and a namespace, a variable a name and a value, and the resources a text.
abbrev pub vendored : VendoredJson literals
vendored = record {
  EnvVar = String × String;
  ResourceRequirements = String;
  ObjectMeta = String × String;
  env_var = struct_codec env_var_fields;
  resource_requirements = struct_codec (omitempty "limits" string_codec);
  object_meta = struct_codec meta_fields;
  list_meta = struct_codec list_meta_fields;
  type_meta =
      of_record (omitempty "kind" string_codec ⊗ omitempty "apiVersion" string_codec) make_type_meta
        split_type_meta;
}

abbrev pub to_kube : Vendored vendored foreign
to_kube = record {
  metadata = λ m. new_object_meta m.0 m.1 [] [];
  env = λ xs. map (λ x. record { name = x.0; value = x.1; value_from = none }) xs;
  resources = λ r. record { limits = []; requests = [] };
}

pub meta-LawfulFields : LawfulFields meta_fields (λ x. Unit {0} × Unit {0})
meta-LawfulFields =
    both-LawfulFields refl (string_field literals "name") (string_field literals "namespace")

pub env_var-LawfulFields : LawfulFields env_var_fields (λ x. Unit {0} × Unit {0})
env_var-LawfulFields =
    both-LawfulFields refl (string_field literals "name") (string_field literals "value")

pub list_meta-LawfulFields : LawfulFields list_meta_fields (λ x. Unit {0})
list_meta-LawfulFields =
    of_record-LawfulFields make_list_meta split_list_meta (λ x. refl) _ (λ x good. (tt, (tt, tt)))
      (both-LawfulFields refl (string_field literals "selfLink") (
        both-LawfulFields refl (string_field literals "resourceVersion")
          (string_field literals "continue")))

abbrev pub vendored_laws : LawfulJson vendored
vendored_laws = record {
  IsGoodEnvVar = λ x. Unit {0} × Unit {0};
  IsGoodResources = λ x. Unit {0};
  IsGoodMeta = λ x. Unit {0} × Unit {0};
  env_var-Lawful = struct-Lawful env_var_fields _ env_var-LawfulFields;
  resources-Lawful =
      struct-Lawful (omitempty "limits" string_codec) _ (string_field literals "limits");
  resources-EmptyIsZero = struct-EmptyIsZero {N = literals} (omitempty "limits" string_codec) _;
  meta-Lawful = struct-Lawful meta_fields _ meta-LawfulFields;
  meta-EmptyIsZero = struct-EmptyIsZero meta_fields _;
  list_meta-Lawful = struct-Lawful list_meta_fields _ list_meta-LawfulFields;
  list_meta-EmptyIsZero = struct-EmptyIsZero list_meta_fields _;
  type_meta-LawfulFields =
      of_record-LawfulFields make_type_meta split_type_meta (λ x. refl) _ (λ x good. (tt, tt))
        (both-LawfulFields refl (string_field literals "kind")
          (string_field literals "apiVersion"));
  type_meta_keys = refl;
}

pub vendored-KnownTypeMeta : KnownTypeMeta vendored
vendored-KnownTypeMeta = record {
  keys_lem = refl;
  local = of_record-IsLocal make_type_meta split_type_meta (
      both-IsLocal (omitempty-IsLocal "kind" string_codec)
        (omitempty-IsLocal "apiVersion" string_codec));
}
