-- ===== src/Controller/Ensures.antt =====
-- The abstract specification of a reconciler: a list of objects, of which each that is missing is
-- created and nothing else is touched. A computation that does so satisfies `Ensures`.
pub mod Cases
pub mod Create
pub mod GetOrAdd
pub mod Own
pub mod Reconciles
pub mod Sequence
pub mod Owned
pub mod Shadow
use atomix_operator.Base.{◌≡◌, ◌≢◌, ◌⊎◌, none, some, Option, List, [], ◌∷◌, Result, ok, panic, All}
use atomix_operator.Kube.Meta.{Foreign, NamespacedName}
use atomix_operator.Kube.Platform.{Platform}
use atomix_operator.Controller.Client.{Kind, ObjectOf, Client}
use atomix_operator.Controller.Steps.{M}
use atomix_operator.Controller.Store.{Store, IsReliable, IsStored}

module _ {F : Foreign} (P : Platform F) where
  -- An object that should exist: its type, its name, and how it is built if it is missing.
  pub record Child : Type 0 where
    pub kind : Kind
    pub name : NamespacedName
    pub object : Result P.Error (ObjectOf F kind)

module _ {F : Foreign} {P : Platform F} {C : Client P} (S : Store C) where
  -- `y`, under the kind `j` and the name `m`, is what the server stores for one of the children.
  pub data IsPlanned : List (Child P) → (j : Kind) → NamespacedName → ObjectOf F j → Type 0 where
    here :
        {c : Child P} {cs : List (Child P)} {x : ObjectOf F c.kind} {j : Kind} {m : NamespacedName}
        {y : ObjectOf F j}
        → c.object ≡ ok x
        → IsStored S.admitted c.kind x j m y
        → IsPlanned (c ∷ cs) j m y
    there :
        {c : Child P} {cs : List (Child P)} {j : Kind} {m : NamespacedName} {y : ObjectOf F j}
        → IsPlanned cs j m y
        → IsPlanned (c ∷ cs) j m y

  abbrev pub IsPresent : C.World → Child P → Type 0
  IsPresent w c = S.lookup w c.kind c.name ≢ none

  abbrev pub IsBuilt : Child P → Type 0
  IsBuilt c = (x : ObjectOf F c.kind) × (c.object ≡ ok x)

  abbrev pub NePanic : Child P → Type 0
  NePanic c = c.object ≢ panic

  -- Whatever is stored stays as it is, and whatever is new was planned.
  pub record Extends (m : M C (Unit {0})) (cs : List (Child P)) : Type 0 where
    pub keeps :
        (w : C.World) (j : Kind) (n : NamespacedName) {y : ObjectOf F j}
        → S.lookup w j n ≡ some y
        → S.lookup (m w).0 j n ≡ some y
    pub adds :
        (w : C.World) (j : Kind) (n : NamespacedName) (y : ObjectOf F j)
        → S.lookup (m w).0 j n ≡ some y
        → (S.lookup w j n ≡ some y) ⊎ IsPlanned cs j n y
    pub ne_panic : All NePanic cs → (w : C.World) → (m w).1 ≢ panic

  -- For a child that is missing.
  pub record Attempts (m : M C (Unit {0})) (c : Child P) : Type 0 where
    pub extends : Extends m (c ∷ [])
    pub present : (w : C.World) → (m w).1 ≡ ok tt → IsPresent (m w).0 c
    pub progress :
        IsReliable C S
        → IsBuilt c
        → (w : C.World) → S.lookup w c.kind c.name ≡ none
        → (m w).1 ≡ ok tt

  -- For any world: a success leaves every child present, where all are present nothing changes,
  -- and with a reliable client and children that can be built there is a success.
  pub record Ensures (m : M C (Unit {0})) (cs : List (Child P)) : Type 0 where
    pub extends : Extends m cs
    pub present : (w : C.World) → (m w).1 ≡ ok tt → All (IsPresent (m w).0) cs
    pub still :
        (w : C.World)
        → All (IsPresent w) cs
        → (j : Kind) (n : NamespacedName) → S.lookup (m w).0 j n ≡ S.lookup w j n
    pub progress : IsReliable C S → All IsBuilt cs → (w : C.World) → (m w).1 ≡ ok tt
