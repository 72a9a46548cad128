-- ===== src/V1alpha1/Json/Sections.antt =====
-- Which sections of a PartitionGroup's document are read, and the protocol that they give.
use atomix_operator.Base.{
  ◌≡◌, arith, refl, ◌∙◌, String, Bool, true, false, Option, none, some, List, Result, ok, err,
}
use atomix_operator.Kube.Meta.{Foreign}
use atomix_operator.V1alpha1.Types.{
  raft_type, primary_backup_type, log_type, get_partition_group_type,
}
use atomix_operator.V1alpha1.DeepCopy.Structs.{ResourceOf}
use atomix_operator.V1alpha1.Json.{
  Numbers, Json, null, boolean, number, text, array, object, Members,
}
use atomix_operator.V1alpha1.Json.Codecs.{Codec, int_codec, pointer_codec}
use atomix_operator.V1alpha1.Json.Codecs.Laws.{AnyValue}
use atomix_operator.V1alpha1.Json.Fields.{
  of_members, lookup, read_found, omitempty, field, struct_codec,
}
use atomix_operator.V1alpha1.Json.Reading.{
  Holds, holds_any, holds_map, holds_ok, ReadsAs, any-ReadsAs, both-ReadsAs, of_record-ReadsAs,
  found-ReadsAs,
}
use atomix_operator.V1alpha1.Json.Tags.{
  VendoredJson, raft_fields, primary_backup_fields, log_fields, status_fields,
}
use atomix_operator.V1alpha1.Json.Resources.{
  GroupSpec, make_resource, split_resource, make_group_spec, split_group_spec, group_spec_fields,
  group_codec,
}
use atomix_operator.V1alpha1.Json.Ranges.{any_string, any_env, any_resources}
use atomix_operator.V1alpha1.Json.Values.{Vendored, to_group}

-- There is a value, and it is not null.
abbrev pub is_there : {N : Numbers} → Option (Json N) → Bool
is_there none = false
is_there (some null) = false
is_there (some _) = true

abbrev pub is_set : {A : Type 0} → Option A → Bool
is_set none = false
is_set (some a) = true

-- The type that the sections give: the first that is there, in this order.
abbrev pub type_of_sections : {E : Type 0} → E → Bool → Bool → Bool → Result E String
type_of_sections unknown true _ _ = ok raft_type
type_of_sections unknown false true _ = ok primary_backup_type
type_of_sections unknown false false true = ok log_type
type_of_sections unknown false false false = err unknown

module _ {N : Numbers} where
  module _ {A : Type 0} (key : String) (c : Codec N A) where
    -- A pointer is set exactly if there is a value for it.
    is_set_lem :
        (o : Option (Json N))
        → Holds (λ x. is_set x ≡ is_there o) (read_found key (pointer_codec c) o)
    is_set_lem none = refl
    is_set_lem (some null) = refl
    is_set_lem (some (boolean b)) =
        holds_map some AnyValue _ (λ a h. refl) _ (holds_any (c.decode (boolean b)))
    is_set_lem (some (number n)) =
        holds_map some AnyValue _ (λ a h. refl) _ (holds_any (c.decode (number n)))
    is_set_lem (some (text s)) =
        holds_map some AnyValue _ (λ a h. refl) _ (holds_any (c.decode (text s)))
    is_set_lem (some (array js)) =
        holds_map some AnyValue _ (λ a h. refl) _ (holds_any (c.decode (array js)))
    is_set_lem (some (object ms)) =
        holds_map some AnyValue _ (λ a h. refl) _ (holds_any (c.decode (object ms)))

    module _ (ms : List (String × Json N)) where
      is_set-ReadsAs :
          ReadsAs ms (omitempty key (pointer_codec c)) (λ x. is_set x ≡ is_there (lookup key ms))
      is_set-ReadsAs = record { holds = is_set_lem (lookup key ms) }

      -- Without `omitempty`.
      is_set-ReadsAs_field :
          ReadsAs ms (field key (pointer_codec c)) (λ x. is_set x ≡ is_there (lookup key ms))
      is_set-ReadsAs_field = record { holds = is_set_lem (lookup key ms) }

module _ {N : Numbers} (V : VendoredJson N) where
  -- The sections of a specification are those of its document.
  abbrev pub HasSections : List (String × Json N) → GroupSpec V → Type 0
  HasSections ms s =
      (is_set s.raft ≡ is_there (lookup "raft" ms))
      × (is_set s.primary_backup ≡ is_there (lookup "primaryBackup" ms))
      × (is_set s.log ≡ is_there (lookup "log:omitempty" ms))

  group_spec-HasSections :
      (ms : List (String × Json N)) → ReadsAs ms (group_spec_fields V) (HasSections ms)
  group_spec-HasSections ms =
      of_record-ReadsAs ms (make_group_spec V) (split_group_spec V) (HasSections ms)
        (λ a h. (h.1.1.1.1.1.1.0, h.1.1.1.1.1.1.1.0, h.1.1.1.1.1.1.1.1))
        (both-ReadsAs ms (any_string V ms "cluster") (
          both-ReadsAs ms (any_string V ms "version") (
            both-ReadsAs ms (any-ReadsAs ms (omitempty "size" (int_codec 31))) (
              both-ReadsAs ms (any-ReadsAs ms (omitempty "partitions" (int_codec 63))) (
                both-ReadsAs ms (any_env V ms) (
                  both-ReadsAs ms (any_resources V ms) (
                    both-ReadsAs ms (is_set-ReadsAs "raft" (struct_codec raft_fields) ms) (
                      both-ReadsAs ms
                        (is_set-ReadsAs "primaryBackup" (struct_codec primary_backup_fields) ms)
                        (is_set-ReadsAs_field "log:omitempty" (struct_codec log_fields) ms)))))))))

  -- Of a resource, if its document has an object as its specification.
  pub group-HasSections :
      (ms ss : Members N) (g : ResourceOf V.ObjectMeta (GroupSpec V))
      → (group_codec V).decode (object ms) ≡ ok g
      → lookup "spec" (of_members ms) ≡ some (object ss)
      → HasSections (of_members ss) g.spec
  group-HasSections ms ss g decoded spec =
      let P : GroupSpec V → Type 0 = HasSections (of_members ss) in
      holds_ok (λ x. P x.spec) ((group_codec V).decode (object ms)) g
        (of_record-ReadsAs (of_members ms) make_resource split_resource (λ x. P x.spec)
          (λ a h. h.1.1.0)
          (both-ReadsAs (of_members ms) (any-ReadsAs (of_members ms) V.type_meta) (
            both-ReadsAs (of_members ms)
              (any-ReadsAs (of_members ms) (omitempty "metadata" V.object_meta))
              (both-ReadsAs (of_members ms)
                (found-ReadsAs (of_members ms) "spec" (struct_codec (group_spec_fields V)) P
                  (some (object ss)) spec (group_spec-HasSections (of_members ss)).holds)
                (any-ReadsAs (of_members ms)
                  (omitempty "status" (struct_codec status_fields))))))).holds
        decoded

module _ {N : Numbers} {V : VendoredJson N} {F : Foreign} (W : Vendored V F) where
  type_lem :
      {E : Type 0} (errorf : String → E) (g : ResourceOf V.ObjectMeta (GroupSpec V))
      → get_partition_group_type errorf (to_group W g)
        ≡ type_of_sections
            (errorf "unknown partition group type")
            (is_set g.spec.raft)
            (is_set g.spec.primary_backup)
            (is_set g.spec.log)
  unfolding get_partition_group_type
  type_lem errorf g = ground arith

  -- The type of a PartitionGroup that was read from a document with an object as its specification
  -- is that of the first of the keys `raft`, `primaryBackup` and `log:omitempty` under which the
  -- object has a value, not null, and the error without one: a section under `log` is not read.
  pub group_document_type :
      {E : Type 0} (errorf : String → E) (ms ss : Members N)
      (g : ResourceOf V.ObjectMeta (GroupSpec V))
      → (group_codec V).decode (object ms) ≡ ok g
      → lookup "spec" (of_members ms) ≡ some (object ss)
      → get_partition_group_type errorf (to_group W g)
        ≡ type_of_sections
            (errorf "unknown partition group type")
            (is_there (lookup "raft" (of_members ss)))
            (is_there (lookup "primaryBackup" (of_members ss)))
            (is_there (lookup "log:omitempty" (of_members ss)))
  group_document_type errorf ms ss g decoded spec =
      let (raft, backup, log) = group-HasSections V ms ss g decoded spec in
      type_lem errorf g ∙ (rw raft (rw backup (rw log refl)))
