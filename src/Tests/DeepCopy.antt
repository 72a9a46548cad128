-- ===== src/Tests/DeepCopy.antt =====
-- The theorems on deep copies, for a list with one partition group.
use atomix_operator.Base.{
  ◌≡◌, refl, zero, suc, String, Option, none, some, List, [], ◌∷◌, map, arith,
}
use atomix_operator.V1alpha1.DeepCopy.Heap.{
  Addr, Heap, Cell, write, list_cell, groups_cell, env_cell, kept_cell, raft_cell, string_cell,
}
use atomix_operator.V1alpha1.DeepCopy.Cells.{string_type, groups_type}
use atomix_operator.V1alpha1.DeepCopy.Into.{
  deep_copy, new_copy, copy_elements, list_deep_copy_into, resource_deep_copy_into,
  partition_group_spec_deep_copy_into, raft_partition_group_deep_copy_into,
  persistent_partition_group_deep_copy_into, storage_deep_copy_into,
}
use atomix_operator.V1alpha1.DeepCopy.Objects.{Object, group_list_object, deep_copy_object}
use atomix_operator.V1alpha1.DeepCopy.Represents.{Same, plain}
use atomix_operator.V1alpha1.DeepCopy.Pointers.{pointer, elements, write_other}
use atomix_operator.V1alpha1.DeepCopy.Values.{ValueOf, pointed, IsObject}
use atomix_operator.V1alpha1.DeepCopy.Specs.{envs, rafts, group_spec}
use atomix_operator.V1alpha1.DeepCopy.Resources.{resource}
use atomix_operator.V1alpha1.DeepCopy.Laws.{deep_copy_object-copies, deep_copy_object-independent}
use atomix_operator.Tests.HeapSamples.{
  vendored, source, copies, values, lawful, raft_with, group_with, list_with,
}

abbrev cells : List (Cell vendored)
cells =
    list_cell (list_with 1)
    ∷ groups_cell (group_with 2 4 ∷ [])
    ∷ env_cell (("TOKEN", some 3) ∷ [])
    ∷ kept_cell "a secret"
    ∷ raft_cell (raft_with 5)
    ∷ string_cell "fast-disks"
    ∷ []

abbrev at : List (Cell vendored) → Addr → Option (Cell vendored)
at [] n = none
at (c ∷ cs) zero = some c
at (c ∷ cs) (suc n) = at cs n

abbrev before : Heap vendored
before = record { next = 6; cell = at cells }

abbrev list_value : ValueOf values group_list_object
list_value = list_with (group_with (("TOKEN", some "a secret") ∷ []) (raft_with "fast-disks") ∷ [])

IsSource : source.Is before 0 6 (some 3) (some "a secret")
IsSource = record {
  struct = "a secret";
  above = omega arith;
  below = omega arith;
  holds = refl;
  is = refl;
}

IsClass : (pointer string_type (plain String)).Is before 0 6 (some 5) (some "fast-disks")
IsClass = record {
  struct = "fast-disks";
  above = omega arith;
  below = omega arith;
  holds = refl;
  is = refl;
}

IsEnvs : (envs values).Is before 0 6 (some 2) (some (("TOKEN", some "a secret") ∷ []))
IsEnvs = record {
  struct = ("TOKEN", some 3) ∷ [];
  above = omega arith;
  below = omega arith;
  holds = refl;
  is = ((refl, IsSource), tt);
}

IsRaft : (rafts {V = vendored}).Is before 0 6 (some 4) (some (raft_with "fast-disks"))
IsRaft = record {
  struct = raft_with 5;
  above = omega arith;
  below = omega arith;
  holds = refl;
  is = (refl, (refl, (refl, IsClass)));
}

IsGroup :
    (resource values.object_meta (group_spec values)).Is before 0 6
      (group_with 2 4)
      (group_with (("TOKEN", some "a secret") ∷ []) (raft_with "fast-disks"))
IsGroup = record {
  type_meta = refl;
  status = refl;
  metadata = refl;
  spec = record {
    cluster = refl;
    version = refl;
    size = refl;
    partitions = refl;
    env = IsEnvs;
    resources = refl;
    raft = IsRaft;
    primary_backup = tt;
    log = tt;
  };
}

IsGroups :
    (pointer groups_type (elements (resource values.object_meta (group_spec values)))).Is before 0 6
      (some 1)
      (some (group_with (("TOKEN", some "a secret") ∷ []) (raft_with "fast-disks") ∷ []))
IsGroups = record {
  struct = group_with 2 4 ∷ [];
  above = omega arith;
  below = omega arith;
  holds = refl;
  is = (IsGroup, tt);
}

IsList : (pointed values group_list_object).Is before 0 6 (some 0) (some list_value)
IsList = record {
  struct = list_with 1;
  above = omega arith;
  below = omega arith;
  holds = refl;
  is = (refl, IsGroups);
}

deep_copy_object-copies_example :
    (g : Heap vendored) × (o : Object) × (deep_copy_object copies group_list_object (some 0) before
      ≡ some (g, o))
    × Same 0 6 before g
    × IsObject values group_list_object g 6 g.next o (some list_value)
deep_copy_object-copies_example =
    deep_copy_object-copies lawful group_list_object before (some 0) (some list_value) IsList

-- The copies are at the addresses from 6 on, in the order of the calls of `new`.
abbrev copied : List (Cell vendored)
copied =
    list_cell (list_with 7)
    ∷ groups_cell (group_with 8 10 ∷ [])
    ∷ env_cell (("TOKEN", some 9) ∷ [])
    ∷ kept_cell "a secret"
    ∷ raft_cell (raft_with 11)
    ∷ string_cell "fast-disks"
    ∷ []

abbrev ran : Option (Heap vendored × Object)
ran = deep_copy_object copies group_list_object (some 0) before

abbrev after : Option (Heap vendored × Object) → Heap vendored
after none = before
after (some (g, o)) = g

run_test :
    (ran ≡ some (after ran, some (group_list_object, 6)))
    × (map (after ran).cell (6 ∷ 7 ∷ 8 ∷ 9 ∷ 10 ∷ 11 ∷ []) ≡ map some copied)
unfolding deep_copy new_copy copy_elements list_deep_copy_into resource_deep_copy_into
    partition_group_spec_deep_copy_into raft_partition_group_deep_copy_into
    persistent_partition_group_deep_copy_into storage_deep_copy_into
run_test = (refl, refl)

-- Another class in the original, another secret in the copy.
abbrev new_class : Heap vendored
new_class = write (after ran) 5 (string_cell "slow-disks")

abbrev new_secret : Heap vendored
new_secret = write (after ran) 9 (kept_cell "another secret")

deep_copy_object-independent_example :
    IsObject values group_list_object new_class 6
      (after ran).next
      (some (group_list_object, 6))
      (some list_value)
    × (pointed values group_list_object).Is new_secret 0 6 (some 0) (some list_value)
deep_copy_object-independent_example =
    deep_copy_object-independent lawful group_list_object before (after ran) new_class new_secret
      (some 0) (some (group_list_object, 6)) (some list_value) IsList run_test.0
      (λ a l u. write_other (after ran) 5 (string_cell "slow-disks") a (omega arith))
      (λ a l u. write_other (after ran) 9 (kept_cell "another secret") a (omega arith))
