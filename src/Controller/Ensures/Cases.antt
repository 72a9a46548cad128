-- ===== src/Controller/Ensures/Cases.antt =====
-- The outcomes of a `Get`, as the methods of the reconcilers tell them apart.
use atomix_operator.Base.{◌≡◌, refl, ◌≢◌, true, false, Bool-cases, inl, inr, Result, ok, err, panic}
use atomix_operator.Kube.Meta.{Foreign}
use atomix_operator.Kube.Platform.{Platform}
use atomix_operator.Controller.Client.{Client}
use atomix_operator.Controller.Steps.{M, continue, unless_found, when_found}

module _ {F : Foreign} {P : Platform F} (C : Client P) {A : Type 0} where
  pub unless_found_elim {ℓ} :
      (Q : C.World × Result P.Error (Unit {0}) → Type ℓ) (add : M C (Unit {0}))
      (g : C.World × Result P.Error A)
      → g.1 ≢ panic
      → ((x : A) → g.1 ≡ ok x → Q (g.0, ok tt))
      → ((e : P.Error) → g.1 ≡ err e → P.is_not_found e ≡ true → Q (add g.0))
      → ((e : P.Error) → g.1 ≡ err e → P.is_not_found e ≡ false → Q (g.0, err e))
      → Q (unless_found C g add)
  unless_found_elim Q add (w, ok x) calm found missing failed = found x refl
  unless_found_elim Q add (w, err e) calm found missing failed =
      elim (Bool-cases (P.is_not_found e)) [
        | inl gone ↦ rw gone (missing e refl gone)
        | inr other ↦ rw other (failed e refl other)
      ]
  unless_found_elim Q add (w, panic) calm found missing failed = absurd (calm refl)

  pub when_found_elim {ℓ} :
      (Q : C.World × Result P.Error (Unit {0}) → Type ℓ) (next : A → M C (Unit {0}))
      (g : C.World × Result P.Error A)
      → g.1 ≢ panic
      → ((x : A) → g.1 ≡ ok x → Q (next x g.0))
      → ((e : P.Error) → g.1 ≡ err e → P.is_not_found e ≡ true → Q (g.0, ok tt))
      → ((e : P.Error) → g.1 ≡ err e → P.is_not_found e ≡ false → Q (g.0, err e))
      → Q (when_found C g next)
  when_found_elim Q next (w, ok x) calm found missing failed = found x refl
  when_found_elim Q next (w, err e) calm found missing failed =
      elim (Bool-cases (P.is_not_found e)) [
        | inl gone ↦ rw gone (missing e refl gone)
        | inr other ↦ rw other (failed e refl other)
      ]
  when_found_elim Q next (w, panic) calm found missing failed = absurd (calm refl)

  -- A step that does not succeed ends the computation with its own outcome.
  pub continue_elim {ℓ} :
      (Q : C.World × Result P.Error (Unit {0}) → Type ℓ) (next : A → M C (Unit {0}))
      (g : C.World × Result P.Error A)
      → ((x : A) → g.1 ≡ ok x → Q (next x g.0))
      → ((e : P.Error) → g.1 ≡ err e → Q (g.0, err e))
      → (g.1 ≡ panic → Q (g.0, panic))
      → Q (continue C g next)
  continue_elim Q next (w, ok x) more failed broke = more x refl
  continue_elim Q next (w, err e) more failed broke = failed e refl
  continue_elim Q next (w, panic) more failed broke = broke refl
