-- ===== src/Controller/Cached/Calls.antt =====
-- What the methods of the reconcilers do with a client that reads from a cache.
use atomix_operator.Base.{
  ◌≡◌, inl, inr, refl, sym, ap, ◌∙◌, true, Option-cases, some, Result, ok, err, panic, ok-injective,
  subst,
}
use atomix_operator.Kube.Meta.{Foreign, NamespacedName}
use atomix_operator.Kube.Platform.{Platform}
use atomix_operator.Controller.Client.{Kind, ObjectOf, key_of, Owner, Client}
use atomix_operator.Controller.Steps.{
  M, continue, then_do, unless_found, own, own_and_create, get_or_add, get_or_stop, when_found,
}
use atomix_operator.Controller.Ensures.Own.{own-key}
use atomix_operator.Controller.Cached.{
  CachedClient, Has, Settled, Ready, Missing, GetKeeps, CreateKeeps, Triple, get-keeps_Settled,
  get-keeps_Missing,
}

module _ {F : Foreign} {P : Platform F} (C : Client P) where
  continue_lem :
      (T : C.World → Type 0) (r : C.World × Result P.Error (Unit {0})) (b : M C (Unit {0}))
      → r.1 ≡ ok tt
      → ((b r.0).1 ≡ ok tt) × T (b r.0).0
      → ((continue C r λ _. b).1 ≡ ok tt) × T (continue C r λ _. b).0
  continue_lem T (w, ok a) b e h = h
  continue_lem T (w, err f) b e h = cc
  continue_lem T (w, panic) b e h = cc

  unless_found-ok :
      {A : Type 0} (r : C.World × Result P.Error A) (add : M C (Unit {0})) {x : A}
      → r.1 ≡ ok x
      → unless_found C r add ≡ (r.0, ok tt)
  unless_found-ok (w, ok a) add e = refl
  unless_found-ok (w, err f) add e = cc
  unless_found-ok (w, panic) add e = cc

  unless_found-missing :
      {A : Type 0} (r : C.World × Result P.Error A) (add : M C (Unit {0})) {e : P.Error}
      → r.1 ≡ err e
      → P.is_not_found e ≡ true
      → unless_found C r add ≡ add r.0
  unless_found-missing (w, ok a) add e h = cc
  unless_found-missing (w, err f) add e h = let same : P.is_not_found f ≡ true = cc in rw same refl
  unless_found-missing (w, panic) add e h = cc

  when_found-ok :
      {A : Type 0} (r : C.World × Result P.Error A) (next : A → M C (Unit {0})) {x : A}
      → r.1 ≡ ok x
      → when_found C r next ≡ next x r.0
  when_found-ok (w, ok a) next e = ap (λ z. next z w) (ok-injective e)
  when_found-ok (w, err f) next e = cc
  when_found-ok (w, panic) next e = cc

module _ {F : Foreign} {P : Platform F} (C : Client P) (K : CachedClient C) where
  pub then_do-Triple :
      (R Q T : C.World → Type 0) (a b : M C (Unit {0}))
      → Triple C K R a Q
      → Triple C K Q b T
      → Triple C K R (then_do C a λ _. b) T
  then_do-Triple R Q T a b f g w r =
      let (success, q) = f w r in continue_lem C T (a w) b success (g (a w).0 q)

  module _ (k : Kind) (n : NamespacedName) (R : C.World → Type 0) (gets : GetKeeps C K R) where
    -- What the cache shows is left alone.
    pub found-Triple :
        (add : M C (Unit {0}))
        → Triple C K
            (λ w. Settled C K k n w × R w)
            (get_or_add C k n add)
            (λ w. Settled C K k n w × R w)
    unfolding get_or_add
    found-Triple add w (settled, r) = elim (Option-cases (K.cache w k n)) [
      | inl gone ↦ absurd (settled.0 gone)
      | inr (x, e) ↦
          let done = unless_found-ok C (C.get k n w) add (K.get-cached k n w e) in
          subst (λ z. (z.1 ≡ ok tt) × (Settled C K k n z.0 × R z.0)) (sym done)
            (refl, (get-keeps_Settled C K k n k n w settled, gets k n w r))
    ]

    absent-Triple :
        (add : M C (Unit {0})) (Q : C.World → Type 0)
        → Triple C K (λ w. Missing C K k n w × R w) add Q
        → Triple C K (λ w. Missing C K k n w × R w) (get_or_add C k n add) Q
    unfolding get_or_add
    absent-Triple add Q added w (missing, r) =
        let (e, failed, not_found) = K.get-missing k n w missing.0 in
        let next = unless_found-missing C (C.get k n w) add failed not_found in
        subst (λ z. (z.1 ≡ ok tt) × Q z.0) (sym next)
          (added (C.get k n w).0 (get-keeps_Missing C K k n k n w missing, gets k n w r))

    module _ (owner : Owner F) (x y : ObjectOf F k) (creates : CreateKeeps C K k R)
        (named : n ≡ key_of F k x) (owned : own C owner k x ≡ ok y) where
      create-Triple :
          Triple C K
            (λ w. Missing C K k n w × R w)
            (own_and_create C owner k x)
            (λ w. Has C K k n w × R w)
      unfolding own_and_create
      create-Triple w ((c, s), r) =
          let at : n ≡ key_of F k y = named ∙ sym (own-key C owner k x owned) in
          let (success, there) = K.create-fresh k y w (sym (ap (K.server w k) at) ∙ s) in
          let here : Has C K k n (C.create k y w).0 =
            λ gone. let also = ap (K.server (C.create k y w).0 k) at in cc in
          rw owned (success, (here, creates y w r))

      -- What the cache shows, or shows the absence of, is there afterwards.
      pub method-Triple :
          Triple C K
            (λ w. Ready C K k n w × R w)
            (get_or_add C k n (get_or_add C k n (own_and_create C owner k x)))
            (λ w. Has C K k n w × R w)
      method-Triple w (inr settled, r) =
          let add = get_or_add C k n (own_and_create C owner k x) in
          let (success, (still, r')) = found-Triple add w (settled, r) in (success, (still.1, r'))
      method-Triple w (inl missing, r) =
          absent-Triple (get_or_add C k n (own_and_create C owner k x)) (λ v. Has C K k n v × R v)
            (absent-Triple (own_and_create C owner k x) (λ v. Has C K k n v × R v) create-Triple) w
            (missing, r)

  -- A resource that the cache shows is reconciled.
  pub get_or_stop-Triple :
      (k : Kind) (n : NamespacedName) (next : ObjectOf F k → M C (Unit {0}))
      (R Q : C.World → Type 0) (x : ObjectOf F k)
      → GetKeeps C K R
      → Triple C K R (next x) Q
      → (w : C.World) → K.cache w k n ≡ some x
      → R w
      → ((get_or_stop C k n next w).1 ≡ ok tt) × Q (get_or_stop C k n next w).0
  unfolding get_or_stop
  get_or_stop-Triple k n next R Q x gets f w found r =
      subst (λ z. (z.1 ≡ ok tt) × Q z.0)
        (sym (when_found-ok C (C.get k n w) next (K.get-cached k n w found)))
        (f (C.get k n w).0 (gets k n w r))
