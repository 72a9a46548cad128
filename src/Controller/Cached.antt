-- ===== src/Controller/Cached.antt =====
-- A client that reads from a cache and writes to the API server, as the comments of the reconcilers
-- say of theirs: what was created is not read back before the cache has caught up.
pub mod Calls
use atomix_operator.Base.{
  ◌≡◌, ◌≢◌, ◌⊎◌, inl, inr, sym, ◌∙◌, true, Option, Option-cases, some, none, ok, err,
}
use atomix_operator.Kube.Meta.{Foreign, NamespacedName}
use atomix_operator.Kube.Platform.{Platform}
use atomix_operator.Controller.Client.{Kind, ObjectOf, key_of, Client}
use atomix_operator.Controller.Steps.{M}
use atomix_operator.Controller.Store.{IsStored}

module _ {F : Foreign} {P : Platform F} (C : Client P) where
  -- A client whose calls do not fail for reasons of their own. A Create fails where there is an
  -- object, which the laws leave open. At every call the cache may catch up, name by name.
  pub record CachedClient : Type 0 where
    pub server : C.World → (k : Kind) → NamespacedName → Option (ObjectOf F k)
    pub cache : C.World → (k : Kind) → NamespacedName → Option (ObjectOf F k)
    pub admitted : (k : Kind) → ObjectOf F k → ObjectOf F k
    pub get-cached :
        (k : Kind) (n : NamespacedName) (w : C.World) {x : ObjectOf F k}
        → cache w k n ≡ some x
        → (C.get k n w).1 ≡ ok x
    pub get-missing :
        (k : Kind) (n : NamespacedName) (w : C.World)
        → cache w k n ≡ none
        → (e : P.Error) × ((C.get k n w).1 ≡ err e) × (P.is_not_found e ≡ true)
    pub server-get :
        (k : Kind) (n : NamespacedName) (w : C.World) (j : Kind) (m : NamespacedName)
        → server (C.get k n w).0 j m ≡ server w j m
    pub cache-get :
        (k : Kind) (n : NamespacedName) (w : C.World) (j : Kind) (m : NamespacedName)
        → (cache (C.get k n w).0 j m ≡ cache w j m) ⊎ (cache (C.get k n w).0 j m ≡ server w j m)
    pub create-fresh :
        (k : Kind) (x : ObjectOf F k) (w : C.World)
        → server w k (key_of F k x) ≡ none
        → ((C.create k x w).1 ≡ ok tt)
          × (server (C.create k x w).0 k (key_of F k x) ≡ some (admitted k x))
    pub create-keeps :
        (k : Kind) (x : ObjectOf F k) (w : C.World) (j : Kind) (m : NamespacedName)
        {y : ObjectOf F j}
        → server w j m ≡ some y
        → server (C.create k x w).0 j m ≡ some y
    pub create-adds :
        (k : Kind) (x : ObjectOf F k) (w : C.World) (j : Kind) (m : NamespacedName)
        (y : ObjectOf F j)
        → server (C.create k x w).0 j m ≡ some y
        → (server w j m ≡ some y) ⊎ IsStored admitted k x j m y
    pub cache-create :
        (k : Kind) (x : ObjectOf F k) (w : C.World) (j : Kind) (m : NamespacedName)
        → (cache (C.create k x w).0 j m ≡ cache w j m)
          ⊎ (cache (C.create k x w).0 j m ≡ server (C.create k x w).0 j m)

  module _ (K : CachedClient) where
    abbrev pub Has : Kind → NamespacedName → C.World → Type 0
    Has k n w = K.server w k n ≢ none

    -- The cache shows what is there, or that nothing is.
    abbrev pub Settled : Kind → NamespacedName → C.World → Type 0
    Settled k n w = (K.cache w k n ≢ none) × Has k n w

    abbrev pub Ready : Kind → NamespacedName → C.World → Type 0
    Ready k n w = ((K.cache w k n ≡ none) × (K.server w k n ≡ none)) ⊎ Settled k n w

    -- What a Get, or a Create of a kind, leaves as it is.
    abbrev pub GetKeeps : (C.World → Type 0) → Type 0
    GetKeeps R = (k : Kind) (n : NamespacedName) (w : C.World) → R w → R (C.get k n w).0

    abbrev pub CreateKeeps : Kind → (C.World → Type 0) → Type 0
    CreateKeeps k R = (x : ObjectOf F k) (w : C.World) → R w → R (C.create k x w).0

    -- With the first holding before, the call succeeds and the second holds afterwards.
    abbrev pub Triple : (C.World → Type 0) → M C (Unit {0}) → (C.World → Type 0) → Type 0
    Triple R m Q = (w : C.World) → R w → ((m w).1 ≡ ok tt) × Q (m w).0

    abbrev pub Missing : Kind → NamespacedName → C.World → Type 0
    Missing k n w = (K.cache w k n ≡ none) × (K.server w k n ≡ none)

    module _ (j : Kind) (m : NamespacedName) where
      pub get-keeps_Has : GetKeeps (Has j m)
      get-keeps_Has k n w s e = s (sym (K.server-get k n w j m) ∙ e)

      pub get-keeps_Settled : GetKeeps (Settled j m)
      get-keeps_Settled k n w (c, s) = (
        elim (K.cache-get k n w j m) [
          | inl same ↦ λ e. c (sym same ∙ e)
          | inr new ↦ λ e. s (sym new ∙ e)
        ],
        get-keeps_Has k n w s,
      )

      pub get-keeps_Missing : GetKeeps (Missing j m)
      get-keeps_Missing k n w (c, s) = (
        elim (K.cache-get k n w j m) [ inl same ↦ same ∙ c | inr new ↦ new ∙ s ],
        K.server-get k n w j m ∙ s,
      )

      pub get-keeps_Ready : GetKeeps (Ready j m)
      get-keeps_Ready k n w (inl missing) = inl (get-keeps_Missing k n w missing)
      get-keeps_Ready k n w (inr settled) = inr (get-keeps_Settled k n w settled)

      pub create-keeps_Has : (k : Kind) → CreateKeeps k (Has j m)
      create-keeps_Has k x w s = elim (Option-cases (K.server w j m)) [
        | inl gone ↦ absurd (s gone)
        | inr (y, e) ↦ λ gone. let still = K.create-keeps k x w j m e in cc
      ]

      pub create-keeps_Settled : (k : Kind) → CreateKeeps k (Settled j m)
      create-keeps_Settled k x w (c, s) =
          let there = create-keeps_Has k x w s in
          (
            elim (K.cache-create k x w j m) [
              | inl same ↦ λ e. c (sym same ∙ e)
              | inr new ↦ λ e. there (sym new ∙ e)
            ],
            there,
          )

      -- A Create of another kind.
      pub create-keeps_Ready :
          (k : Kind)
          → ((x : ObjectOf F k) (y : ObjectOf F j) → ¬ IsStored K.admitted k x j m y)
          → CreateKeeps k (Ready j m)
      create-keeps_Ready k other x w (inr settled) = inr (create-keeps_Settled k x w settled)
      create-keeps_Ready k other x w (inl (c, s)) =
          let still : K.server (C.create k x w).0 j m ≡ none =
            elim (Option-cases (K.server (C.create k x w).0 j m)) [
              | inl e ↦ e
              | inr (y, e) ↦ elim (K.create-adds k x w j m y e) [
                | inl before ↦ cc
                | inr made ↦ absurd (other x y made)
              ]
            ] in
          inl
            (elim (K.cache-create k x w j m) [ inl same ↦ same ∙ c | inr new ↦ new ∙ still ], still)
