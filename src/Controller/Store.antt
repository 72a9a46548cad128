-- ===== src/Controller/Store.antt =====
-- What the reconcilers rely on of the API: a view of the stored objects, and how each call of the
-- client shows in it. A call may fail at any time, unless the client is reliable.
use atomix_operator.Base.{◌≡◌, ◌≢◌, ◌⊎◌, true, Option, some, none, ok, err, panic}
use atomix_operator.Kube.Meta.{Foreign, NamespacedName}
use atomix_operator.Kube.Platform.{Platform}
use atomix_operator.Controller.Client.{Kind, ObjectOf, key_of, Client}

-- The object `y` stored under a kind and a name is what the server makes of `x`.
pub data IsStored {F : Foreign} (admitted : (k : Kind) → ObjectOf F k → ObjectOf F k) (k : Kind)
    (x : ObjectOf F k) : (j : Kind) → NamespacedName → ObjectOf F j → Type 0 where
  stored :
      {n : NamespacedName} {y : ObjectOf F k}
      → n ≡ key_of F k x
      → y ≡ admitted k x
      → IsStored admitted k x k n y

module _ {F : Foreign} {P : Platform F} (C : Client P) where
  pub record Store : Type 0 where
    pub lookup : C.World → (k : Kind) → NamespacedName → Option (ObjectOf F k)
    -- Defaulting and admission by the server, when it stores a new object.
    pub admitted : (k : Kind) → ObjectOf F k → ObjectOf F k
    pub lookup-get :
        (k : Kind) (n : NamespacedName) (w : C.World) (j : Kind) (m : NamespacedName)
        → lookup (C.get k n w).0 j m ≡ lookup w j m
    pub get-ok :
        (k : Kind) (n : NamespacedName) (w : C.World) {x : ObjectOf F k}
        → (C.get k n w).1 ≡ ok x
        → lookup w k n ≡ some x
    pub get-missing :
        (k : Kind) (n : NamespacedName) (w : C.World) {e : P.Error}
        → (C.get k n w).1 ≡ err e
        → P.is_not_found e ≡ true
        → lookup w k n ≡ none
    pub get-ne-panic : (k : Kind) (n : NamespacedName) (w : C.World) → (C.get k n w).1 ≢ panic
    -- A create replaces nothing, stores nothing but its object, and reports success only then.
    pub create-keeps :
        (k : Kind) (x : ObjectOf F k) (w : C.World) (j : Kind) (m : NamespacedName)
        {y : ObjectOf F j}
        → lookup w j m ≡ some y
        → lookup (C.create k x w).0 j m ≡ some y
    pub create-adds :
        (k : Kind) (x : ObjectOf F k) (w : C.World) (j : Kind) (m : NamespacedName)
        (y : ObjectOf F j)
        → lookup (C.create k x w).0 j m ≡ some y
        → (lookup w j m ≡ some y) ⊎ IsStored admitted k x j m y
    pub create-ok :
        (k : Kind) (x : ObjectOf F k) (w : C.World)
        → (C.create k x w).1 ≡ ok tt
        → lookup (C.create k x w).0 k (key_of F k x) ≡ some (admitted k x)
    pub create-ne-panic : (k : Kind) (x : ObjectOf F k) (w : C.World) → (C.create k x w).1 ≢ panic

  -- A client whose calls do not fail for reasons of their own.
  pub record IsReliable (S : Store) : Type 0 where
    pub get-some :
        (k : Kind) (n : NamespacedName) (w : C.World) {x : ObjectOf F k}
        → S.lookup w k n ≡ some x
        → (C.get k n w).1 ≡ ok x
    pub get-none :
        (k : Kind) (n : NamespacedName) (w : C.World)
        → S.lookup w k n ≡ none
        → (e : P.Error) × ((C.get k n w).1 ≡ err e) × (P.is_not_found e ≡ true)
    pub create-fresh :
        (k : Kind) (x : ObjectOf F k) (w : C.World)
        → S.lookup w k (key_of F k x) ≡ none
        → (C.create k x w).1 ≡ ok tt
