-- ===== src/Main.antt =====
-- cmd/manager/main.go: the start of the operator, over the packages that it calls, which are
-- parameters. Logging and the printing of versions are left out.
pub mod Calls
pub mod Laws
use atomix_operator.Base.{ℕ, String, Result, ok, err, panic}
use atomix_operator.Controller.Registration.{Manager, Step, add_to_manager}

-- The calls of main, in a world that the manager's state stands for.
pub record Process {E : Type 0} (M : Manager E) : Type 1 where
  pub Config : Type 0
  -- Where it refuses a flag it ends the process itself.
  pub flag_parse : M.State → M.State
  pub get_watch_namespace : Step M String
  pub get_config : Step M Config
  pub become_leader : String → Step M (Unit {0})
  pub set_ready : Step M (Unit {0})
  pub unset_ready : Step M (Unit {0})
  pub new_manager : Config → String → Step M (Unit {0})
  pub add_to_scheme : Step M (Unit {0})
  pub start : Step M (Unit {0})

-- How the process ends: main returns, `os.Exit`, or a panic that nothing recovers.
pub data Outcome : Type 0 where
  returned panicked : Outcome
  exited : (code : ℕ) → Outcome

module _ {S E : Type 0} where
  -- `if err != nil { os.Exit(1) }`
  abbrev pub or_exit : {A : Type 0} → S × Result E A → (A → S → S × Outcome) → S × Outcome
  or_exit (s, ok a) next = next a s
  or_exit (s, err e) next = (s, exited 1)
  or_exit (s, panic) next = (s, panicked)

  -- A call whose error is not looked at.
  abbrev pub or_not : {A : Type 0} → S × Result E A → (S → S × Outcome) → S × Outcome
  or_not (s, ok a) next = next s
  or_not (s, err e) next = next s
  or_not (s, panic) next = (s, panicked)

  -- `defer f()`: at a return and at a panic, but not at `os.Exit`.
  abbrev pub deferred : {A : Type 0} → (S → S × Result E A) → S × Outcome → S × Outcome
  deferred f (s, returned) = or_not (f s) λ t. (t, returned)
  deferred f (s, panicked) = ((f s).0, panicked)
  deferred f (s, exited code) = (s, exited code)

module _ {E : Type 0} {M : Manager E} (P : Process M) where
  -- From the new manager on.
  unfoldable pub run_manager : P.Config → String → M.State → M.State × Outcome
  run_manager config namespace s = or_exit (P.new_manager config namespace s) λ _ t.
      or_exit (P.add_to_scheme t)
        λ _ u. or_exit (add_to_manager M u) λ _ v. or_exit (P.start v) λ _ w. (w, returned)

  unfoldable pub main : M.State → M.State × Outcome
  unfolding run_manager
  main s = or_exit (P.get_watch_namespace (P.flag_parse s)) λ namespace t.
      or_exit (P.get_config t) λ config u.
        or_not (P.become_leader "atomix-operator-lock" u) λ v.
          or_exit (P.set_ready v) λ _ w. deferred P.unset_ready (run_manager config namespace w)
