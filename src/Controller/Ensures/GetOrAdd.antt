-- ===== src/Controller/Ensures/GetOrAdd.antt =====
-- A `Get` followed by a `Create` where it finds nothing ensures its child.
use atomix_operator.Base.{
  ◌≡◌, refl, sym, ◌∙◌, ◌≢◌, ◌⊎◌, inl, inr, some, [], ◌∷◌, ok, panic, Option-cases,
}
use atomix_operator.Kube.Meta.{Foreign, NamespacedName}
use atomix_operator.Kube.Platform.{Platform}
use atomix_operator.Controller.Client.{Kind, ObjectOf, Client}
use atomix_operator.Controller.Steps.{M, get_or_add}
use atomix_operator.Controller.Store.{Store, IsReliable}
use atomix_operator.Controller.Ensures.{Child, Extends, Attempts, Ensures, IsPresent, IsPlanned}
use atomix_operator.Controller.Ensures.Cases.{unless_found_elim}

module _ {F : Foreign} {P : Platform F} {C : Client P} (S : Store C) (c : Child P)
    (add : M C (Unit {0})) (a : Attempts S add c) where
  abbrev ensure : M C (Unit {0})
  ensure = get_or_add C c.kind c.name add

  calm : (w : C.World) → (C.get c.kind c.name w).1 ≢ panic
  calm w = S.get-ne-panic c.kind c.name w

  same :
      (w : C.World) (j : Kind) (n : NamespacedName)
      → S.lookup (C.get c.kind c.name w).0 j n ≡ S.lookup w j n
  same w j n = S.lookup-get c.kind c.name w j n

  ensure-keeps :
      (w : C.World) (j : Kind) (n : NamespacedName) {y : ObjectOf F j}
      → S.lookup w j n ≡ some y
      → S.lookup (ensure w).0 j n ≡ some y
  unfolding get_or_add
  ensure-keeps w j n {y} h =
      unless_found_elim C (λ r. S.lookup r.0 j n ≡ some y) add (C.get c.kind c.name w) (calm w)
        (λ _ _. same w j n ∙ h) (λ _ _ _. a.extends.keeps _ j n (same w j n ∙ h))
        (λ _ _ _. same w j n ∙ h)

  ensure-adds :
      (w : C.World) (j : Kind) (n : NamespacedName) (y : ObjectOf F j)
      → S.lookup (ensure w).0 j n ≡ some y
      → (S.lookup w j n ≡ some y) ⊎ IsPlanned S (c ∷ []) j n y
  unfolding get_or_add
  ensure-adds w j n y =
      unless_found_elim C
        (λ r. S.lookup r.0 j n ≡ some y → (S.lookup w j n ≡ some y) ⊎ IsPlanned S (c ∷ []) j n y)
        add (C.get c.kind c.name w) (calm w) (λ _ _ h. inl (sym (same w j n) ∙ h))
        (λ _ _ _ h. elim (a.extends.adds _ j n y h) [
          | inl old ↦ inl (sym (same w j n) ∙ old)
          | inr new ↦ inr new
        ])
        (λ _ _ _ h. inl (sym (same w j n) ∙ h))

  ensure-Extends : Extends S ensure (c ∷ [])
  unfolding get_or_add
  ensure-Extends = record {
    keeps = ensure-keeps;
    adds = ensure-adds;
    ne_panic = λ built w.
        unless_found_elim C (λ r. r.1 ≢ panic) add (C.get c.kind c.name w) (calm w) (λ _ _ h. cc)
          (λ _ _ _. a.extends.ne_panic built _) (λ _ _ _ h. cc);
  }

  ensure-IsPresent : (w : C.World) → (ensure w).1 ≡ ok tt → IsPresent S (ensure w).0 c
  unfolding get_or_add
  ensure-IsPresent w =
      unless_found_elim C (λ r. r.1 ≡ ok tt → IsPresent S r.0 c) add (C.get c.kind c.name w)
        (calm w) (λ x e _ missing. cc (same w c.kind c.name, S.get-ok c.kind c.name w e))
        (λ _ _ _ h. a.present _ h) (λ _ _ _ h. cc)

  ensure-still :
      (w : C.World)
      → IsPresent S w c
      → (j : Kind) (n : NamespacedName) → S.lookup (ensure w).0 j n ≡ S.lookup w j n
  unfolding get_or_add
  ensure-still w there j n =
      unless_found_elim C (λ r. S.lookup r.0 j n ≡ S.lookup w j n) add (C.get c.kind c.name w)
        (calm w) (λ _ _. same w j n)
        (λ e failed gone. absurd (there (S.get-missing c.kind c.name w failed gone)))
        (λ _ _ _. same w j n)

  ensure-progress :
      IsReliable C S
      → (x : ObjectOf F c.kind) × (c.object ≡ ok x)
      → (w : C.World) → (ensure w).1 ≡ ok tt
  unfolding get_or_add
  ensure-progress reliable built w =
      unless_found_elim C (λ r. r.1 ≡ ok tt) add (C.get c.kind c.name w) (calm w) (λ _ _. refl)
        (λ e failed gone.
          a.progress reliable built _
            (same w c.kind c.name ∙ S.get-missing c.kind c.name w failed gone))
        (λ e failed other. elim (Option-cases (S.lookup w c.kind c.name)) [
          | inl missing ↦ let r = reliable.get-none c.kind c.name w missing in cc (r.1, r.2)
          | inr (x, found) ↦ cc (reliable.get-some c.kind c.name w found, failed)
        ])

  pub get_or_add-Ensures : Ensures S ensure (c ∷ [])
  get_or_add-Ensures = record {
    extends = ensure-Extends;
    present = λ w h. (ensure-IsPresent w h, tt);
    still = λ w h. ensure-still w h.0;
    progress = λ reliable built. ensure-progress reliable built.0;
  }

  -- So it may stand for a creation again, inside another `Get`.
  pub get_or_add-Attempts : Attempts S ensure c
  get_or_add-Attempts = record {
    extends = ensure-Extends;
    present = ensure-IsPresent;
    progress = λ reliable built w _. ensure-progress reliable built w;
  }
