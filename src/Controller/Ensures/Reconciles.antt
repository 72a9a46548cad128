-- ===== src/Controller/Ensures/Reconciles.antt =====
-- The specification of a whole `Reconcile`: it ensures the children of the resource that the
-- request names, and does nothing where there is no such resource.
use atomix_operator.Base.{
  ◌≡◌, refl, sym, ◌∙◌, ◌≢◌, ◌⊎◌, inl, inr, none, some, Option-cases, List, ok, panic, All, All-map,
}
use atomix_operator.Kube.Meta.{Foreign, NamespacedName}
use atomix_operator.Kube.Platform.{Platform}
use atomix_operator.Controller.Client.{Kind, ObjectOf, Client}
use atomix_operator.Controller.Steps.{M, get_or_stop}
use atomix_operator.Controller.Store.{Store, IsReliable}
use atomix_operator.Controller.Ensures.{Child, Ensures, IsPresent, IsPlanned, IsBuilt, NePanic}
use atomix_operator.Controller.Ensures.Cases.{when_found_elim}

module _ {F : Foreign} {P : Platform F} {C : Client P} (S : Store C) (m : M C (Unit {0})) (k : Kind)
    (request : NamespacedName) (children : ObjectOf F k → List (Child P)) where
  pub record Reconciles : Type 0 where
    -- No stored object is changed or removed.
    pub keeps :
        (w : C.World) (j : Kind) (n : NamespacedName) {y : ObjectOf F j}
        → S.lookup w j n ≡ some y
        → S.lookup (m w).0 j n ≡ some y
    -- Every new object is one of the children of the stored resource.
    pub adds :
        (w : C.World) (j : Kind) (n : NamespacedName) (y : ObjectOf F j)
        → S.lookup (m w).0 j n ≡ some y
        → (S.lookup w j n ≡ some y)
          ⊎ ((x : ObjectOf F k) × (S.lookup w k request ≡ some x) × IsPlanned S (children x) j n y)
    -- A success leaves all of them present.
    pub present :
        (w : C.World) (x : ObjectOf F k)
        → S.lookup w k request ≡ some x
        → (m w).1 ≡ ok tt
        → All (IsPresent S (m w).0) (children x)
    -- Where all are present nothing changes, whatever fails.
    pub still :
        (w : C.World) (x : ObjectOf F k)
        → S.lookup w k request ≡ some x
        → All (IsPresent S w) (children x)
        → (j : Kind) (n : NamespacedName) → S.lookup (m w).0 j n ≡ S.lookup w j n
    -- Nor does anything change where the resource is gone.
    pub gone :
        (w : C.World)
        → S.lookup w k request ≡ none
        → (j : Kind) (n : NamespacedName) → S.lookup (m w).0 j n ≡ S.lookup w j n
    -- With a reliable client it succeeds, if there is no resource or its children can be built.
    pub progress :
        IsReliable C S
        → (w : C.World)
        → ((x : ObjectOf F k) → S.lookup w k request ≡ some x → All (IsBuilt S) (children x))
        → (m w).1 ≡ ok tt
    pub ne_panic :
        (w : C.World)
        → ((x : ObjectOf F k) → S.lookup w k request ≡ some x → All (NePanic S) (children x))
        → (m w).1 ≢ panic

module _ {F : Foreign} {P : Platform F} {C : Client P} (S : Store C) {m : M C (Unit {0})} {k : Kind}
    {request : NamespacedName} {children : ObjectOf F k → List (Child P)}
    (r : Reconciles S m k request children) where
  -- After a success a second run changes nothing, whether or not it succeeds too.
  pub Reconciles-twice :
      (w : C.World)
      → (m w).1 ≡ ok tt
      → (j : Kind) (n : NamespacedName) → S.lookup (m (m w).0).0 j n ≡ S.lookup (m w).0 j n
  Reconciles-twice w h j n = elim (Option-cases (S.lookup w k request)) [
    | inl missing ↦ r.gone (m w).0 (r.gone w missing k request ∙ missing) j n
    | inr (x, found) ↦ r.still (m w).0 x (r.keeps w k request found) (r.present w x found h) j n
  ]

module _ {F : Foreign} {P : Platform F} {C : Client P} (S : Store C) (k : Kind)
    (request : NamespacedName) (next : ObjectOf F k → M C (Unit {0}))
    (children : ObjectOf F k → List (Child P))
    (ensures : (x : ObjectOf F k) → Ensures S (next x) (children x)) where
  abbrev reconcile : M C (Unit {0})
  reconcile = get_or_stop C k request next

  calm : (w : C.World) → (C.get k request w).1 ≢ panic
  calm w = S.get-ne-panic k request w

  same :
      (w : C.World) (j : Kind) (n : NamespacedName)
      → S.lookup (C.get k request w).0 j n ≡ S.lookup w j n
  same w j n = S.lookup-get k request w j n

  reconcile-adds :
      (w : C.World) (j : Kind) (n : NamespacedName) (y : ObjectOf F j)
      → S.lookup (reconcile w).0 j n ≡ some y
      → (S.lookup w j n ≡ some y)
        ⊎ ((x : ObjectOf F k) × (S.lookup w k request ≡ some x) × IsPlanned S (children x) j n y)
  unfolding get_or_stop
  reconcile-adds w j n y =
      when_found_elim C
        (λ r.
          S.lookup r.0 j n ≡ some y
          → (S.lookup w j n ≡ some y)
            ⊎ ((x : ObjectOf F k) × (S.lookup w k request ≡ some x)
                × IsPlanned S (children x) j n y))
        next (C.get k request w) (calm w)
        (λ x e h. elim ((ensures x).extends.adds _ j n y h) [
          | inl old ↦ inl (sym (same w j n) ∙ old)
          | inr new ↦ inr (x, S.get-ok k request w e, new)
        ])
        (λ _ _ _ h. inl (sym (same w j n) ∙ h)) (λ _ _ _ h. inl (sym (same w j n) ∙ h))

  reconcile-IsPresent :
      (w : C.World) (x : ObjectOf F k)
      → S.lookup w k request ≡ some x
      → (reconcile w).1 ≡ ok tt
      → All (IsPresent S (reconcile w).0) (children x)
  unfolding get_or_stop
  reconcile-IsPresent w x found =
      when_found_elim C (λ r. r.1 ≡ ok tt → All (IsPresent S r.0) (children x)) next
        (C.get k request w) (calm w)
        (λ z e h.
          let same_resource : z ≡ x = cc (S.get-ok k request w e, found) in
          rw (← same_resource) ((ensures z).present _ h))
        (λ _ failed gone. cc (S.get-missing k request w failed gone, found)) (λ _ _ _ h. cc)

  reconcile-still :
      (w : C.World) (x : ObjectOf F k)
      → S.lookup w k request ≡ some x
      → All (IsPresent S w) (children x)
      → (j : Kind) (n : NamespacedName) → S.lookup (reconcile w).0 j n ≡ S.lookup w j n
  unfolding get_or_stop
  reconcile-still w x found all j n =
      when_found_elim C (λ r. S.lookup r.0 j n ≡ S.lookup w j n) next (C.get k request w) (calm w)
        (λ z e.
          let same_resource : x ≡ z = cc (S.get-ok k request w e, found) in
          let there : All (IsPresent S w) (children z) = rw same_resource at all in
          (ensures z).still _
            (All-map (λ c h missing. h (sym (same w c.kind c.name) ∙ missing)) (children z) there) j
            n
          ∙ same w j n)
        (λ _ _ _. same w j n) (λ _ _ _. same w j n)

  reconcile-gone :
      (w : C.World)
      → S.lookup w k request ≡ none
      → (j : Kind) (n : NamespacedName) → S.lookup (reconcile w).0 j n ≡ S.lookup w j n
  unfolding get_or_stop
  reconcile-gone w missing j n =
      when_found_elim C (λ r. S.lookup r.0 j n ≡ S.lookup w j n) next (C.get k request w) (calm w)
        (λ z e. cc (S.get-ok k request w e, missing)) (λ _ _ _. same w j n) (λ _ _ _. same w j n)

  reconcile-progress :
      IsReliable C S
      → (w : C.World)
      → ((x : ObjectOf F k) → S.lookup w k request ≡ some x → All (IsBuilt S) (children x))
      → (reconcile w).1 ≡ ok tt
  unfolding get_or_stop
  reconcile-progress reliable w built =
      when_found_elim C (λ r. r.1 ≡ ok tt) next (C.get k request w) (calm w)
        (λ x e. (ensures x).progress reliable (built x (S.get-ok k request w e)) _) (λ _ _ _. refl)
        (λ _ failed other. elim (Option-cases (S.lookup w k request)) [
          | inl missing ↦ let r = reliable.get-none k request w missing in cc (r.1, r.2)
          | inr (x, found) ↦ cc (reliable.get-some k request w found, failed)
        ])

  pub get_or_stop-Reconciles : Reconciles S reconcile k request children
  unfolding get_or_stop
  get_or_stop-Reconciles = record {
    keeps = λ w j n {y} h.
        when_found_elim C (λ r. S.lookup r.0 j n ≡ some y) next (C.get k request w) (calm w)
          (λ x _. (ensures x).extends.keeps _ j n (same w j n ∙ h)) (λ _ _ _. same w j n ∙ h)
          (λ _ _ _. same w j n ∙ h);
    adds = reconcile-adds;
    present = reconcile-IsPresent;
    still = reconcile-still;
    gone = reconcile-gone;
    progress = reconcile-progress;
    ne_panic = λ w built.
        when_found_elim C (λ r. r.1 ≢ panic) next (C.get k request w) (calm w)
          (λ x e. (ensures x).extends.ne_panic (built x (S.get-ok k request w e)) _) (λ _ _ _ h. cc)
          (λ _ _ _ h. cc);
  }
