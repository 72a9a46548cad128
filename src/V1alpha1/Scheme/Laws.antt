-- ===== src/V1alpha1/Scheme/Laws.antt =====
-- Which types a scheme knows after AddToScheme.
use atomix_operator.Base.{
  ◌≡◌, refl, ap, sym, subst, ◌∙◌, String, Result, ok, err, panic, List, [], ◌∷◌, ◌++◌,
}
use atomix_operator.V1alpha1.DeepCopy.Objects.{
  ObjectType, cluster_object, group_object, benchmark_object, cluster_list_object,
  group_list_object, benchmark_list_object,
}
use atomix_operator.V1alpha1.Scheme.{
  Schemes, scheme_builder, new_scheme_builder, register_benchmark, register_cluster,
  register_partition_group, add_to_scheme,
}

pub data Contains {A : Type 0} (x : A) : List A → Type 0 where
  first : {xs : List A} → Contains x (x ∷ xs)
  later : {y : A} {xs : List A} → Contains x xs → Contains x (y ∷ xs)

-- The next function is called unless the one before it failed.
abbrev pub unless_failed :
    {S E : Type 0}
    → S × Result E (Unit {0})
    → (S → S × Result E (Unit {0}))
    → S × Result E (Unit {0})
unless_failed (s, ok u) f = f s
unless_failed (s, err e) f = (s, err e)
unless_failed (s, panic) f = (s, panic)

module _ {E : Type 0} (A : Schemes E) where
  -- What the builders do, as their packages document it.
  pub record LawfulSchemes : Type 1 where
    pub group_version : A.Builder → String × String
    pub objects : A.Builder → List ObjectType
    pub Knows : A.Scheme → String × String → ObjectType → Type 0
    pub group_version-new :
        (group version : String) → group_version (A.new_builder group version) ≡ (group, version)
    pub objects-new : (group version : String) → objects (A.new_builder group version) ≡ []
    pub group_version-register :
        (ks : List ObjectType) (b : A.Builder) → group_version (A.register ks b) ≡ group_version b
    pub objects-register :
        (ks : List ObjectType) (b : A.Builder) → objects (A.register ks b) ≡ objects b ++ ks
    pub build-Knows :
        (b : A.Builder) (s t : A.Scheme)
        → A.build b s ≡ (t, ok tt)
        → (k : ObjectType) → Contains k (objects b)
        → Knows t (group_version b) k
    pub build_all-nil : (s : A.Scheme) → A.build_all [] s ≡ (s, ok tt)
    pub build_all-cons :
        (f : A.Scheme → A.Scheme × Result E (Unit {0}))
        (fs : List (A.Scheme → A.Scheme × Result E (Unit {0}))) (s : A.Scheme)
        → A.build_all (f ∷ fs) s ≡ unless_failed (f s) (A.build_all fs)

module _ {E : Type 0} {A : Schemes E} (L : LawfulSchemes A) where
  builder_objects :
      L.objects (scheme_builder A)
      ≡ benchmark_object ∷ benchmark_list_object ∷ cluster_object ∷ cluster_list_object
        ∷ group_object ∷ group_list_object ∷ []
  unfolding scheme_builder new_scheme_builder register_benchmark register_cluster
      register_partition_group
  builder_objects =
      rw (L.objects-register, L.objects-register, L.objects-register, L.objects-new) refl

  builder_group_version : L.group_version (scheme_builder A) ≡ ("agent.atomix.io", "v1alpha1")
  unfolding scheme_builder new_scheme_builder register_benchmark register_cluster
      register_partition_group
  builder_group_version =
      rw
        (
          L.group_version-register, L.group_version-register, L.group_version-register,
          L.group_version-new,
        )
        refl

  every_object :
      (k : ObjectType)
      → Contains k (
          benchmark_object ∷ benchmark_list_object ∷ cluster_object ∷ cluster_list_object
          ∷ group_object ∷ group_list_object ∷ [])
  every_object benchmark_object = first
  every_object benchmark_list_object = later first
  every_object cluster_object = later (later first)
  every_object cluster_list_object = later (later (later first))
  every_object group_object = later (later (later (later first)))
  every_object group_list_object = later (later (later (later (later first))))

  -- A list of one function gives what the function gives.
  build_all-one :
      (f : A.Scheme → A.Scheme × Result E (Unit {0})) (s : A.Scheme)
      (r : A.Scheme × Result E (Unit {0}))
      → f s ≡ r
      → A.build_all (f ∷ []) s ≡ r
  build_all-one f s (t, ok u) e =
      L.build_all-cons f [] s ∙ ap (λ r. unless_failed r (A.build_all [])) e ∙ L.build_all-nil t
  build_all-one f s (t, err x) e =
      L.build_all-cons f [] s ∙ ap (λ r. unless_failed r (A.build_all [])) e
  build_all-one f s (t, panic) e =
      L.build_all-cons f [] s ∙ ap (λ r. unless_failed r (A.build_all [])) e

  -- When AddToScheme succeeds, the scheme knows all of the six types that have DeepCopyObject, the
  -- resources and their lists, under the group agent.atomix.io and the version v1alpha1.
  pub add_to_scheme-Knows :
      (s t : A.Scheme)
      → add_to_scheme A s ≡ (t, ok tt)
      → (k : ObjectType) → L.Knows t ("agent.atomix.io", "v1alpha1") k
  unfolding add_to_scheme
  add_to_scheme-Knows s t success k =
      let built : A.build (scheme_builder A) s ≡ (t, ok tt) =
        sym (build_all-one (A.build (scheme_builder A)) s (A.build (scheme_builder A) s) refl)
        ∙ success in
      subst (λ v. L.Knows t v k) builder_group_version
        (L.build-Knows (scheme_builder A) s t built k
          (subst (Contains k) (sym builder_objects) (every_object k)))
