-- ===== src/Controller/Ensures/Sequence.antt =====
-- Steps in a row, each of which runs only if the one before it succeeded.
use atomix_operator.Base.{
  ◌≡◌, refl, sym, ◌∙◌, ◌≢◌, ◌⊎◌, inl, inr, some, List, [], ◌∷◌, ok, panic, All, All-map,
  Option-cases,
}
use atomix_operator.Kube.Meta.{Foreign, NamespacedName}
use atomix_operator.Kube.Platform.{Platform}
use atomix_operator.Controller.Client.{Kind, ObjectOf, Client}
use atomix_operator.Controller.Steps.{M, then_do, done}
use atomix_operator.Controller.Store.{Store}
use atomix_operator.Controller.Ensures.{Child, Extends, Ensures, IsPresent, IsPlanned, here, there}
use atomix_operator.Controller.Ensures.Cases.{continue_elim}

module _ {F : Foreign} {P : Platform F} {C : Client P} (S : Store C) where
  pub done-Ensures : Ensures S (done C) []
  done-Ensures = record {
    extends = record { keeps = λ w j n h. h; adds = λ w j n y h. inl h; ne_panic = λ _ w h. cc };
    present = λ w h. tt;
    still = λ w _ j n. refl;
    progress = λ _ _ w. refl;
  }

  -- An extension loses no child.
  pub keeps-IsPresent :
      (v w : C.World)
      → ((j : Kind) (n : NamespacedName) (y : ObjectOf F j)
          → S.lookup v j n ≡ some y
          → S.lookup w j n ≡ some y)
      → (c : Child P) → IsPresent S v c
      → IsPresent S w c
  keeps-IsPresent v w keeps c kept missing = elim (Option-cases (S.lookup v c.kind c.name)) [
    | inl gone ↦ kept gone
    | inr (y, found) ↦ cc (keeps c.kind c.name y found, missing)
  ]

  module _ (c : Child P) (cs : List (Child P)) (m rest : M C (Unit {0}))
      (first : Ensures S m (c ∷ [])) (others : Ensures S rest cs) where
    abbrev both : M C (Unit {0})
    both = then_do C m (λ _. rest)

    both-adds :
        (w : C.World) (j : Kind) (n : NamespacedName) (y : ObjectOf F j)
        → S.lookup (both w).0 j n ≡ some y
        → (S.lookup w j n ≡ some y) ⊎ IsPlanned S (c ∷ cs) j n y
    both-adds w j n y =
        continue_elim C
          (λ r. S.lookup r.0 j n ≡ some y → (S.lookup w j n ≡ some y) ⊎ IsPlanned S (c ∷ cs) j n y)
          (λ _. rest) (m w)
          (λ _ _ h. elim (others.extends.adds _ j n y h) [
            | inl old ↦ early old
            | inr new ↦ inr (there new)
          ])
          (λ _ _ h. early h) (λ _ h. early h)
      where
        early :
            S.lookup (m w).0 j n ≡ some y → (S.lookup w j n ≡ some y) ⊎ IsPlanned S (c ∷ cs) j n y
        early h = elim (first.extends.adds w j n y h) [
          | inl old ↦ inl old
          | inr (here built put) ↦ inr (here built put)
          | inr (there p) ↦ elim p [ ]
        ]

    both-Extends : Extends S both (c ∷ cs)
    both-Extends = record {
      keeps = λ w j n {y} h.
          continue_elim C (λ r. S.lookup r.0 j n ≡ some y) (λ _. rest) (m w)
            (λ _ _. others.extends.keeps _ j n (first.extends.keeps w j n h))
            (λ _ _. first.extends.keeps w j n h) (λ _. first.extends.keeps w j n h);
      adds = both-adds;
      ne_panic = λ built w.
          continue_elim C (λ r. r.1 ≢ panic) (λ _. rest) (m w)
            (λ _ _. others.extends.ne_panic built.1 _) (λ _ _ h. cc)
            (λ broke. absurd (first.extends.ne_panic (built.0, tt) w broke));
    }

    both-IsPresent : (w : C.World) → (both w).1 ≡ ok tt → All (IsPresent S (both w).0) (c ∷ cs)
    both-IsPresent w =
        continue_elim C (λ r. r.1 ≡ ok tt → All (IsPresent S r.0) (c ∷ cs)) (λ _. rest) (m w)
          (λ _ e h. (
            keeps-IsPresent _ _ (λ j n y. others.extends.keeps (m w).0 j n) c (first.present w e).0,
            others.present _ h,
          ))
          (λ _ _ h. cc) (λ _ h. cc)

    both-still :
        (w : C.World)
        → All (IsPresent S w) (c ∷ cs)
        → (j : Kind) (n : NamespacedName) → S.lookup (both w).0 j n ≡ S.lookup w j n
    both-still w all j n =
        continue_elim C (λ r. S.lookup r.0 j n ≡ S.lookup w j n) (λ _. rest) (m w)
          (λ _ _. others.still _ later j n ∙ same j n) (λ _ _. same j n) (λ _. same j n)
      where
        same : (j : Kind) (n : NamespacedName) → S.lookup (m w).0 j n ≡ S.lookup w j n
        same = first.still w (all.0, tt)

        later : All (IsPresent S (m w).0) cs
        later = All-map (λ d h missing. h (sym (same d.kind d.name) ∙ missing)) cs all.1

    pub then_do-Ensures : Ensures S both (c ∷ cs)
    then_do-Ensures = record {
      extends = both-Extends;
      present = both-IsPresent;
      still = both-still;
      progress = λ reliable built w.
          continue_elim C (λ r. r.1 ≡ ok tt) (λ _. rest) (m w)
            (λ _ _. others.progress reliable built.1 _)
            (λ _ failed. cc (first.progress reliable (built.0, tt) w, failed))
            (λ broke. cc (first.progress reliable (built.0, tt) w, broke));
    }
