-- ===== src/Controller/Ensures/Shadow.antt =====
-- A name that two steps share: once the first has ensured its object, the second creates nothing.
use atomix_operator.Base.{◌≡◌, sym, ◌∙◌, ◌⊎◌, inl, inr, some, Option-cases, List, [], ◌∷◌}
use atomix_operator.Kube.Meta.{Foreign, NamespacedName}
use atomix_operator.Kube.Platform.{Platform}
use atomix_operator.Controller.Client.{Kind, ObjectOf, Client}
use atomix_operator.Controller.Steps.{M, then_do, get_or_stop}
use atomix_operator.Controller.Store.{Store}
use atomix_operator.Controller.Ensures.{Child, Extends, Ensures, IsPlanned, here, there}
use atomix_operator.Controller.Ensures.Cases.{continue_elim, when_found_elim}

module _ {F : Foreign} {P : Platform F} {C : Client P} (S : Store C) where
  -- Under the kind `j` and the name `n`, only objects planned among `cs` are new.
  abbrev pub AddsOnly :
      M C (Unit {0}) → List (Child P) → (j : Kind) → NamespacedName → C.World → Type 0
  AddsOnly m cs j n w =
      (y : ObjectOf F j)
      → S.lookup (m w).0 j n ≡ some y
      → (S.lookup w j n ≡ some y) ⊎ IsPlanned S cs j n y

  module _ (c : Child P) (m rest : M C (Unit {0})) (first : Ensures S m (c ∷ [])) where
    widen :
        (cs : List (Child P)) (w : C.World) (j : Kind) (n : NamespacedName) (y : ObjectOf F j)
        → S.lookup (m w).0 j n ≡ some y
        → (S.lookup w j n ≡ some y) ⊎ IsPlanned S (c ∷ cs) j n y
    widen cs w j n y h = elim (first.extends.adds w j n y h) [
      | inl old ↦ inl old
      | inr (here built put) ↦ inr (here built put)
      | inr (there p) ↦ elim p [ ]
    ]

    -- Any step may add its own child.
    pub AddsOnly-skip :
        (cs : List (Child P)) (j : Kind) (n : NamespacedName)
        → ((w : C.World) → AddsOnly rest cs j n w)
        → (w : C.World) → AddsOnly (then_do C m (λ _. rest)) (c ∷ cs) j n w
    AddsOnly-skip cs j n later w y =
        continue_elim C
          (λ r. S.lookup r.0 j n ≡ some y → (S.lookup w j n ≡ some y) ⊎ IsPlanned S (c ∷ cs) j n y)
          (λ _. rest) (m w)
          (λ _ _ h. elim (later _ y h) [
            | inl old ↦ widen cs w j n y old
            | inr new ↦ inr (there new)
          ])
          (λ _ _ h. widen cs w j n y h) (λ _ h. widen cs w j n y h)

    -- What follows a step adds nothing under that step's name.
    pub AddsOnly-stop :
        (cs : List (Child P))
        → Extends S rest cs
        → (w : C.World) → AddsOnly (then_do C m (λ _. rest)) (c ∷ []) c.kind c.name w
    AddsOnly-stop cs later w y =
        continue_elim C
          (λ r.
            S.lookup r.0 c.kind c.name ≡ some y
            → (S.lookup w c.kind c.name ≡ some y) ⊎ IsPlanned S (c ∷ []) c.kind c.name y)
          (λ _. rest) (m w)
          (λ _ e h. elim (Option-cases (S.lookup (m w).0 c.kind c.name)) [
            | inl missing ↦ absurd ((first.present w e).0 missing)
            | inr (z, found) ↦
                widen [] w c.kind c.name y
                  (found ∙ sym (later.keeps (m w).0 c.kind c.name found) ∙ h)
          ])
          (λ _ _ h. widen [] w c.kind c.name y h) (λ _ h. widen [] w c.kind c.name y h)

  -- The same for a whole `Reconcile` whose resource is stored.
  pub AddsOnly-get_or_stop :
      (k : Kind) (request : NamespacedName) (next : ObjectOf F k → M C (Unit {0}))
      (cs : List (Child P)) (j : Kind) (n : NamespacedName) (w : C.World) (x : ObjectOf F k)
      → S.lookup w k request ≡ some x
      → ((v : C.World) → AddsOnly (next x) cs j n v)
      → AddsOnly (get_or_stop C k request next) cs j n w
  unfolding get_or_stop
  AddsOnly-get_or_stop k request next cs j n w x found only y =
      when_found_elim C
        (λ r. S.lookup r.0 j n ≡ some y → (S.lookup w j n ≡ some y) ⊎ IsPlanned S cs j n y) next
        (C.get k request w) (S.get-ne-panic k request w)
        (λ z e h.
          let same_resource : z ≡ x = cc (S.get-ok k request w e, found) in
          let changed : S.lookup (next x (C.get k request w).0).0 j n ≡ some y =
            rw same_resource at h in
          elim (only _ y changed) [
            | inl old ↦ inl (sym (S.lookup-get k request w j n) ∙ old)
            | inr new ↦ inr new
          ])
        (λ _ _ _ h. inl (sym (S.lookup-get k request w j n) ∙ h))
        (λ _ _ _ h. inl (sym (S.lookup-get k request w j n) ∙ h))
