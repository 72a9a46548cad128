-- ===== src/Tests/Memory.antt =====
-- A platform and a client in memory, which is lawful and reliable: an object is found under its
-- kind and name, and a create fails where there is one already.
use atomix_operator.Base.{
  ◌≡◌, ◌≢◌, ◌⊎◌, inl, inr, refl, sym, ◌∙◌, arith, String, ◌==◌, ◌&&◌, ◌||◌, eq_iff, eq_refl, Bool,
  Bool-cases, true, false, Option, some, none, List, ◌∷◌, any, Result, ok, err, panic,
  if◌then◌else◌,
}
use atomix_operator.Kube.Meta.{Foreign, NamespacedName, ObjectMeta, OwnerReference}
use atomix_operator.Kube.Pod.{int_type}
use atomix_operator.Kube.Platform.{Platform, FromIntKeeps}
use atomix_operator.Controller.Client.{
  Kind, ObjectOf, key_of, Owner, Client, atomix_cluster, partition_group, atomix_benchmark,
  config_map, service, pod_disruption_budget, stateful_set, pod, cluster_owner, group_owner,
  benchmark_owner,
}
use atomix_operator.Controller.Store.{Store, IsReliable, IsStored, stored}

abbrev pub foreign : Foreign
foreign = record { Quantity = String; EnvVarSource = Unit {0} }

pub data Failure : Type 0 where
  not_found already_exists : Failure
  message : String → Failure

abbrev pub is_missing : Failure → Bool
is_missing not_found = true
is_missing already_exists = false
is_missing (message _) = false

-- Two texts are refused.
abbrev pub parse : String → Result Failure String
parse size =
    if (size == "") || (size == "many")
    then err (message "quantities must match the regular expression")
    else ok size

abbrev pub platform : Platform foreign
platform = record {
  Error = Failure;
  errorf = message;
  is_not_found = is_missing;
  parse_quantity = parse;
  from_int = λ n. record { type = int_type; int_val = n; str_val = "" };
}

pub platform-FromIntKeeps : FromIntKeeps platform
platform-FromIntKeeps = record { from_int_lem = λ n fits. refl }

abbrev pub World : Type 0
World = (k : Kind) → NamespacedName → Option (ObjectOf foreign k)

pub data Same : Kind → Kind → Type 0 where
  same : {k : Kind} → Same k k

abbrev pub compare : (k j : Kind) → Option (Same k j)
compare atomix_cluster atomix_cluster = some same
compare partition_group partition_group = some same
compare atomix_benchmark atomix_benchmark = some same
compare config_map config_map = some same
compare service service = some same
compare pod_disruption_budget pod_disruption_budget = some same
compare stateful_set stateful_set = some same
compare pod pod = some same
compare _ _ = none

compare-same : (k : Kind) → compare k k ≡ some same
compare-same atomix_cluster = refl
compare-same partition_group = refl
compare-same atomix_benchmark = refl
compare-same config_map = refl
compare-same service = refl
compare-same pod_disruption_budget = refl
compare-same stateful_set = refl
compare-same pod = refl

abbrev pub same_name : NamespacedName → NamespacedName → Bool
same_name n m = (n.namespace == m.namespace) && (n.name == m.name)

same_name-eq : (n m : NamespacedName) → same_name n m ≡ true → n ≡ m
same_name-eq n m e =
    let first : n.namespace ≡ m.namespace = ground (arith, eq_iff n.namespace m.namespace) in
    let second : n.name ≡ m.name = ground (arith, eq_iff n.name m.name) in
    λ i. record { namespace = first i; name = second i }

same_name_refl : (n : NamespacedName) → same_name n n ≡ true
same_name_refl n = ground (arith, eq_refl n.namespace, eq_refl n.name)

abbrev pub put_with :
    {k j : Kind}
    → Option (Same k j)
    → ObjectOf foreign k
    → NamespacedName
    → World
    → NamespacedName
    → Option (ObjectOf foreign j)
put_with {k} (some same) x n w m = if same_name n m then some x else w k m
put_with {k} {j} none x n w m = w j m

abbrev pub put : (k : Kind) → ObjectOf foreign k → World → World
put k x w j m = put_with (compare k j) x (key_of foreign k x) w m

put_with-keeps :
    {k j : Kind} (o : Option (Same k j)) (x : ObjectOf foreign k) (n : NamespacedName) (w : World)
    (m : NamespacedName) {y : ObjectOf foreign j}
    → w k n ≡ none
    → w j m ≡ some y
    → put_with o x n w m ≡ some y
put_with-keeps {k} (some same) x n w m missing e = elim (Bool-cases (same_name n m)) [
  | inl hit ↦ let at : n ≡ m = same_name-eq n m hit in cc
  | inr miss ↦ rw miss e
]
put_with-keeps none x n w m missing e = e

put_with-adds :
    {k j : Kind} (o : Option (Same k j)) (x : ObjectOf foreign k) (w : World) (m : NamespacedName)
    (y : ObjectOf foreign j)
    → put_with o x (key_of foreign k x) w m ≡ some y
    → (w j m ≡ some y) ⊎ IsStored {F = foreign} (λ k z. z) k x j m y
put_with-adds {k} (some same) x w m y e = elim (Bool-cases (same_name (key_of foreign k x) m)) [
  | inl hit ↦ let at : key_of foreign k x ≡ m = same_name-eq _ m hit in inr (stored (sym at) (cc))
  | inr miss ↦ inl (sym (rw miss refl) ∙ e)
]
put_with-adds none x w m y e = inl e

-- What a call answers where this is stored under its name.
abbrev pub create_at :
    (k : Kind)
    → ObjectOf foreign k
    → World
    → Option (ObjectOf foreign k)
    → World × Result Failure (Unit {0})
create_at k x w none = (put k x w, ok tt)
create_at k x w (some _) = (w, err already_exists)

module _ {A : Type 0} where
  abbrev pub found_or_missing : Option A → Result Failure A
  found_or_missing none = err not_found
  found_or_missing (some x) = ok x

  pub found_or_missing-ok : (o : Option A) {x : A} → found_or_missing o ≡ ok x → o ≡ some x
  found_or_missing-ok none e = cc
  found_or_missing-ok (some y) e = cc

  pub found_or_missing-err :
      (o : Option A) {f : Failure} → found_or_missing o ≡ err f → is_missing f ≡ true → o ≡ none
  found_or_missing-err none e h = refl
  found_or_missing-err (some y) e h = cc

  pub found_or_missing-ne-panic : (o : Option A) → found_or_missing o ≢ panic
  found_or_missing-ne-panic none e = cc
  found_or_missing-ne-panic (some y) e = cc

module _ (k : Kind) (x : ObjectOf foreign k) (w : World) where
  pub create_at-keeps :
      (o : Option (ObjectOf foreign k))
      → w k (key_of foreign k x) ≡ o
      → (j : Kind) (m : NamespacedName) {y : ObjectOf foreign j} → w j m ≡ some y
      → (create_at k x w o).0 j m ≡ some y
  create_at-keeps none at j m e = put_with-keeps (compare k j) x (key_of foreign k x) w m at e
  create_at-keeps (some z) at j m e = e

  pub create_at-adds :
      (o : Option (ObjectOf foreign k)) (j : Kind) (m : NamespacedName) (y : ObjectOf foreign j)
      → (create_at k x w o).0 j m ≡ some y
      → (w j m ≡ some y) ⊎ IsStored {F = foreign} (λ k z. z) k x j m y
  create_at-adds none j m y e = put_with-adds (compare k j) x w m y e
  create_at-adds (some z) j m y e = inl e

  pub create_at-ok :
      (o : Option (ObjectOf foreign k))
      → (create_at k x w o).1 ≡ ok tt
      → (create_at k x w o).0 k (key_of foreign k x) ≡ some x
  create_at-ok none e = rw (compare-same k) (rw (same_name_refl (key_of foreign k x)) refl)
  create_at-ok (some z) e = cc

  pub create_at-ne-panic : (o : Option (ObjectOf foreign k)) → (create_at k x w o).1 ≢ panic
  create_at-ne-panic none e = cc
  create_at-ne-panic (some z) e = cc

abbrev pub reference : String → ObjectMeta → OwnerReference
reference kind m = record {
  api_version = "agent.atomix.io/v1alpha1";
  kind = kind;
  name = m.name;
  uid = m.uid;
  controller = some true;
  block_owner_deletion = some true;
}

-- The reference to an owner, which `SetControllerReference` adds to those that are there.
abbrev pub reference_to : Owner foreign → OwnerReference
reference_to (cluster_owner x) = reference "AtomixCluster" x.metadata
reference_to (group_owner x) = reference "PartitionGroup" x.metadata
reference_to (benchmark_owner x) = reference "AtomixBenchmark" x.metadata

abbrev pub is_controlling : OwnerReference → Bool
is_controlling r = elim r.controller [ some true ↦ true | _ ↦ false ]

-- An object that has a controller is refused.
abbrev pub references_with :
    Bool → OwnerReference → List OwnerReference → Result Failure (List OwnerReference)
references_with true r rs = err (message "the object is owned by another controller")
references_with false r rs = ok (r ∷ rs)

abbrev pub client : Client platform
client = record {
  World = World;
  get = λ k n w. (w, found_or_missing (w k n));
  create = λ k x w. create_at k x w (w k (key_of foreign k x));
  set_controller_reference = λ owner m.
      references_with (any is_controlling m.owner_references) (reference_to owner)
        m.owner_references;
}

abbrev pub store : Store client
store = record {
  lookup = λ w. w;
  admitted = λ k x. x;
  lookup-get = λ k n w j m. refl;
  get-ok = λ k n w. found_or_missing-ok (w k n);
  get-missing = λ k n w. found_or_missing-err (w k n);
  get-ne-panic = λ k n w. found_or_missing-ne-panic (w k n);
  create-keeps = λ k x w. create_at-keeps k x w (w k (key_of foreign k x)) refl;
  create-adds = λ k x w. create_at-adds k x w (w k (key_of foreign k x));
  create-ok = λ k x w. create_at-ok k x w (w k (key_of foreign k x));
  create-ne-panic = λ k x w. create_at-ne-panic k x w (w k (key_of foreign k x));
}

pub client-IsReliable : IsReliable client store
client-IsReliable = record {
  get-some = λ k n w e. rw e refl;
  get-none = λ k n w e. (not_found, rw e refl, refl);
  create-fresh = λ k x w e. rw e refl;
}
