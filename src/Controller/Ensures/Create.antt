-- ===== src/Controller/Ensures/Create.antt =====
-- Creating one object, and doing so only where it is missing.
use atomix_operator.Base.{◌≡◌, refl, inl, inr, [], ◌∷◌, Result, ok, err, panic}
use atomix_operator.Kube.Meta.{Foreign}
use atomix_operator.Kube.Platform.{Platform}
use atomix_operator.Controller.Client.{ObjectOf, key_of, Client}
use atomix_operator.Controller.Steps.{M, then_do, lift}
use atomix_operator.Controller.Store.{Store}
use atomix_operator.Controller.Ensures.{Child, here, Extends, Attempts}

module _ {F : Foreign} {P : Platform F} {C : Client P} (S : Store C) (c : Child P) where
  abbrev pub create_built : Result P.Error (ObjectOf F c.kind) → M C (Unit {0})
  create_built r = then_do C (lift C r) (λ x. C.create c.kind x)

  -- The key under which the object is stored is the name that was asked for.
  abbrev pub IsNamed : Type 0
  IsNamed = (x : ObjectOf F c.kind) → c.object ≡ ok x → c.name ≡ key_of F c.kind x

  create-Extends :
      (r : Result P.Error (ObjectOf F c.kind)) → c.object ≡ r → Extends S (create_built r) (c ∷ [])
  create-Extends (ok x) e = record {
    keeps = λ w j n h. S.create-keeps c.kind x w j n h;
    adds = λ w j n y h. elim (S.create-adds c.kind x w j n y h) [
      | inl old ↦ inl old
      | inr new ↦ inr (here e new)
    ];
    ne_panic = λ _ w. S.create-ne-panic c.kind x w;
  }
  create-Extends (err f) e = record {
    keeps = λ w j n h. h;
    adds = λ w j n y h. inl h;
    ne_panic = λ _ w h. cc;
  }
  create-Extends panic e = record {
    keeps = λ w j n h. h;
    adds = λ w j n y h. inl h;
    ne_panic = λ calm w h. calm.0 e;
  }

  create-Attempts_at :
      IsNamed
      → (r : Result P.Error (ObjectOf F c.kind)) → c.object ≡ r
      → Attempts S (create_built r) c
  create-Attempts_at named (ok x) e = record {
    extends = create-Extends (ok x) e;
    present = λ w h missing. cc (S.create-ok c.kind x w h, missing, named x e);
    progress = λ reliable _ w missing. reliable.create-fresh c.kind x w (rw (← named x e) missing);
  }
  create-Attempts_at named (err f) e = record {
    extends = create-Extends (err f) e;
    present = λ w h. cc;
    progress = λ reliable built w missing. cc (built.1, e);
  }
  create-Attempts_at named panic e = record {
    extends = create-Extends panic e;
    present = λ w h. cc;
    progress = λ reliable built w missing. cc (built.1, e);
  }

  pub create-Attempts : IsNamed → Attempts S (create_built c.object) c
  create-Attempts named = create-Attempts_at named c.object refl
