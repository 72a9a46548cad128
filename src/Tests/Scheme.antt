-- ===== src/Tests/Scheme.antt =====
-- The registration with a scheme, with builders that keep lists.
use atomix_operator.Base.{refl, subst, ok, String, Result, List, [], ◌∷◌, ◌++◌}
use atomix_operator.V1alpha1.DeepCopy.Objects.{ObjectType, group_list_object}
use atomix_operator.V1alpha1.Scheme.{Schemes, add_to_scheme}
use atomix_operator.V1alpha1.Scheme.Laws.{
  Contains, first, later, unless_failed, LawfulSchemes, add_to_scheme-Knows,
}
use atomix_operator.Tests.Memory.{Failure}

abbrev Known : Type 0
Known = List ((String × String) × ObjectType)

-- What a builder adds to a scheme.
abbrev build : (String × String) × List ObjectType → Known → Known × Result Failure (Unit {0})
build (v, []) s = (s, ok tt)
build (v, k ∷ ks) s = ((v, k) ∷ (build (v, ks) s).0, ok tt)

abbrev build_all :
    List (Known → Known × Result Failure (Unit {0})) → Known → Known × Result Failure (Unit {0})
build_all [] s = (s, ok tt)
build_all (f ∷ fs) s = unless_failed (f s) (build_all fs)

abbrev schemes : Schemes Failure
schemes = record {
  Builder = (String × String) × List ObjectType;
  Scheme = Known;
  new_builder = λ group version. ((group, version), []);
  register = λ ks b. (b.0, b.1 ++ ks);
  build = build;
  build_all = build_all;
}

build-Contains :
    (v : String × String) (ks : List ObjectType) (s : Known) (k : ObjectType)
    → Contains k ks
    → Contains (v, k) (build (v, ks) s).0
build-Contains v [] s k p = elim p [ ]
build-Contains v (j ∷ ks) s k first = first
build-Contains v (j ∷ ks) s k (later p) = later (build-Contains v ks s k p)

abbrev lawful : LawfulSchemes schemes
lawful = record {
  group_version = λ b. b.0;
  objects = λ b. b.1;
  Knows = λ s v k. Contains (v, k) s;
  group_version-new = λ group version. refl;
  objects-new = λ group version. refl;
  group_version-register = λ ks b. refl;
  objects-register = λ ks b. refl;
  build-Knows = λ b s t e k p. subst (λ r. Contains (b.0, k) r.0) e (build-Contains b.0 b.1 s k p);
  build_all-nil = λ s. refl;
  build_all-cons = λ f fs s. refl;
}

abbrev after : Known
after = (add_to_scheme schemes []).0

add_to_scheme-Knows_example : lawful.Knows after ("agent.atomix.io", "v1alpha1") group_list_object
unfolding add_to_scheme
add_to_scheme-Knows_example = add_to_scheme-Knows lawful [] after refl group_list_object
