-- ===== src/Controller/Runs/Histories.antt =====
-- The three reconcilers among others: users and controllers of Kubernetes change the stored objects
-- between two calls of Reconcile, in any way.
use atomix_operator.Base.{◌≡◌, ◌≢◌, ◌⊎◌, inl, inr, Option-cases, none, some}
use atomix_operator.Kube.Meta.{Foreign, NamespacedName}
use atomix_operator.Kube.Platform.{Platform}
use atomix_operator.Controller.Client.{Kind, ObjectOf, Client}
use atomix_operator.Controller.Store.{Store}
use atomix_operator.Controller.Ensures.{IsPlanned}
use atomix_operator.Controller.Runs.{Controller, resource_of, reconcile_request, children_of}
use atomix_operator.Controller.Runs.Laws.{request-Reconciles}

module _ {F : Foreign} {P : Platform F} (C : Client P) where
  -- From one world to another by calls of Reconcile and changes of others.
  pub data History : C.World → C.World → Type 0 where
    stop : {w : C.World} → History w w
    call :
        {w v : C.World} (c : Controller) (n : NamespacedName)
        → History (reconcile_request C c n w).0 v
        → History w v
    change : {w u v : C.World} → History u v → History w v

module _ {F : Foreign} {P : Platform F} {C : Client P} (S : Store C) where
  -- No other removes what is stored under a name.
  abbrev pub OthersKeep : {w v : C.World} → History C w v → Kind → NamespacedName → Type 0
  OthersKeep stop j m = Unit
  OthersKeep (call c n rest) j m = OthersKeep rest j m
  OthersKeep (change {w} {u} rest) j m =
      (S.lookup w j m ≢ none → S.lookup u j m ≢ none) × OthersKeep rest j m

  -- No other changes or removes an object.
  abbrev pub OthersLeave :
      {w v : C.World} → History C w v → (j : Kind) → NamespacedName → ObjectOf F j → Type 0
  OthersLeave stop j m y = Unit
  OthersLeave (call c n rest) j m y = OthersLeave rest j m y
  OthersLeave (change {w} {u} rest) j m y =
      (S.lookup w j m ≡ some y → S.lookup u j m ≡ some y) × OthersLeave rest j m y

  -- No other makes the object: after a change of others it is stored only if it was before.
  abbrev pub OthersMakeNo :
      {w v : C.World} → History C w v → (j : Kind) → NamespacedName → ObjectOf F j → Type 0
  OthersMakeNo stop j m y = Unit
  OthersMakeNo (call c n rest) j m y = OthersMakeNo rest j m y
  OthersMakeNo (change {w} {u} rest) j m y =
      (S.lookup u j m ≡ some y → S.lookup w j m ≡ some y) × OthersMakeNo rest j m y

  -- Some call of Reconcile stores the object where there was none, and it is what the server makes of
  -- a child of the resource that was stored when Reconcile was called for it.
  abbrev pub IsMade :
      {w v : C.World} → History C w v → (j : Kind) → NamespacedName → ObjectOf F j → Type 0
  IsMade stop j m y = ⊥
  IsMade (call {w} c n rest) j m y =
      ((S.lookup w j m ≡ none)
        × (S.lookup (reconcile_request C c n w).0 j m ≡ some y)
        × ((x : ObjectOf F (resource_of c)) × (S.lookup w (resource_of c) n ≡ some x)
            × IsPlanned S (children_of C c x) j m y))
      ⊎ IsMade rest j m y
  IsMade (change rest) j m y = IsMade rest j m y

  pub history-keeps :
      {w v : C.World} (p : History C w v) (j : Kind) (m : NamespacedName) (y : ObjectOf F j)
      → OthersLeave p j m y
      → S.lookup w j m ≡ some y
      → S.lookup v j m ≡ some y
  history-keeps stop j m y leave e = e
  history-keeps (call {w} c n rest) j m y leave e =
      history-keeps rest j m y leave ((request-Reconciles C S c n).keeps w j m e)
  history-keeps (change rest) j m y (leave, later) e = history-keeps rest j m y later (leave e)

  -- Whatever else others do in between, in any order: an object that is stored in the end, and that
  -- no change of others makes, was stored from the start or was stored by a call of Reconcile, under a
  -- name without an object, as a child, by the specification of its controller, of the resource that
  -- was stored when Reconcile was called for it.
  pub history_origin :
      {w v : C.World} (p : History C w v) (j : Kind) (m : NamespacedName) (y : ObjectOf F j)
      → OthersMakeNo p j m y
      → S.lookup v j m ≡ some y
      → (S.lookup w j m ≡ some y) ⊎ IsMade p j m y
  history_origin stop j m y none_made e = inl e
  history_origin (call {w} c n rest) j m y none_made e =
      elim (history_origin rest j m y none_made e) [
        | inl after ↦ elim (Option-cases (S.lookup w j m)) [
          | inl missing ↦ elim ((request-Reconciles C S c n).adds w j m y after) [
            | inl before ↦ inl before
            | inr planned ↦ inr (inl (missing, after, planned))
          ]
          | inr (z, before) ↦ let still = (request-Reconciles C S c n).keeps w j m before in inl cc
        ]
        | inr later ↦ inr (inr later)
      ]
  history_origin (change rest) j m y (not_made, later_none) e =
      elim (history_origin rest j m y later_none e) [
        | inl after ↦ inl (not_made after)
        | inr later ↦ inr later
      ]
