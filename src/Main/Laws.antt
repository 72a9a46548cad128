-- ===== src/Main/Laws.antt =====
-- The order of the calls that start the operator, and how the process ends.
use atomix_operator.Base.{
  ℕ, suc, ◌≡◌, refl, ◌∙◌, ap, inl, inr, Bool, true, false, String, Result, ok, err, panic, some, [],
  ◌∷◌, ◌++◌,
}
use atomix_operator.Controller.Client.{
  Kind, atomix_cluster, partition_group, atomix_benchmark, stateful_set, pod,
}
use atomix_operator.Controller.Registration.{
  enqueue_request_for_object, enqueue_request_for_owner, Manager, Step, and_then, add_reconciler,
  add_benchmark, add_cluster, add_partition_group, add_to_manager,
}
use atomix_operator.Main.{
  Process, Outcome, returned, panicked, exited, or_exit, or_not, deferred, run_manager, main,
}
use atomix_operator.Main.Calls.{
  StoppedBy, EndsWith, IsNext, Call, namespace_call, config_call, ready_call, unset_call,
  manager_call, scheme_call, start_call, leader_call, new_call, watch_call, Verdict, succeeded,
  failed, panicking, verdict, fine, first, call_at, Recorded, Trace,
}

module _ {E : Type 0} {M : Manager E} {P : Process M} (T : Trace P) where
  -- The first `n` calls have been made.
  abbrev After : ℕ → M.State → Type 0
  After n s = (led : Bool) × (T.called s ≡ first n led)

  -- A step ends after the first `n` calls, or is stopped by one that does not succeed.
  abbrev RunsTo : {A : Type 0} → ℕ → M.State × Result E A → Type 0
  RunsTo n (s, ok a) = After n s
  RunsTo n (s, err e) = StoppedBy failed (T.called s)
  RunsTo n (s, panic) = StoppedBy panicking (T.called s)

  abbrev pub Ends : M.State × Outcome → Type 0
  Ends (s, o) = EndsWith (T.called s) o

  abbrev EndsManager : M.State × Outcome → Type 0
  EndsManager (s, returned) = After 16 s
  EndsManager (s, exited code) = (code ≡ 1) × StoppedBy failed (T.called s)
  EndsManager (s, panicked) = StoppedBy panicking (T.called s)

  after :
      (c : Call) (v : Verdict) (n : ℕ) (led : Bool) {s t : M.State}
      → T.called s ≡ first n led
      → T.called t ≡ T.called s ++ (c, v) ∷ []
      → T.called t ≡ first n led ++ (c, v) ∷ []
  after c v n led at call = call ∙ ap (λ l. l ++ (c, v) ∷ []) at

  called-RunsTo :
      {A : Type 0} (n : ℕ) (c : Call) (s : M.State) (r : M.State × Result E A)
      → IsNext n c
      → After n s
      → Recorded T.called s c r
      → RunsTo (suc n) r
  called-RunsTo n c s (t, ok a) (here, fatal, next) (led, at) call =
      (led, after c succeeded n led at call ∙ next led)
  called-RunsTo n c s (t, err e) (here, fatal, next) (led, at) call =
      (n, led, c, here, fatal, after c failed n led at call)
  called-RunsTo n c s (t, panic) (here, fatal, next) (led, at) call =
      (n, led, c, here, refl, after c panicking n led at call)

  and_then-RunsTo :
      {A B : Type 0} (n m : ℕ) (r : M.State × Result E A) (f : A → Step M B)
      → RunsTo n r
      → ((a : A) → After n r.0 → RunsTo m (f a r.0))
      → RunsTo m (and_then M r f)
  and_then-RunsTo n m (s, ok a) f at next = next a at
  and_then-RunsTo n m (s, err e) f at next = at
  and_then-RunsTo n m (s, panic) f at next = at

  add_reconciler-RunsTo :
      (name : String) (resource secondary : Kind) (n : ℕ) (s : M.State)
      → IsNext n (new_call name resource)
      → IsNext (suc n) (watch_call resource enqueue_request_for_object)
      → IsNext (suc (suc n)) (watch_call secondary (enqueue_request_for_owner resource true))
      → After n s
      → RunsTo (suc (suc (suc n))) (add_reconciler M name resource secondary s)
  unfolding add_reconciler
  add_reconciler-RunsTo name resource secondary n s e e' e'' at =
      let m = suc (suc (suc n)) in
      and_then-RunsTo (suc n) m (M.new name resource s) _
        (called-RunsTo n _ s _ e at (T.called-new name resource s))
        λ c at1.
          and_then-RunsTo (suc (suc n)) m (M.watch c resource enqueue_request_for_object _) _
            (called-RunsTo (suc n) _ _ _ e' at1 (T.called-watch c _ _ _))
            λ _ at2.
              and_then-RunsTo m m (M.watch c secondary (enqueue_request_for_owner resource true) _)
                _ (called-RunsTo (suc (suc n)) _ _ _ e'' at2 (T.called-watch c _ _ _)) λ _ at3. at3

  add_to_manager-RunsTo : (s : M.State) → After 6 s → RunsTo 15 (add_to_manager M s)
  unfolding add_to_manager add_benchmark add_cluster add_partition_group
  add_to_manager-RunsTo s at =
      and_then-RunsTo 9 15 (add_reconciler M "benchmark-controller" atomix_benchmark pod s) _
        (add_reconciler-RunsTo "benchmark-controller" atomix_benchmark pod 6 s
          (refl, refl, λ led. refl) (refl, refl, λ led. refl) (refl, refl, λ led. refl) at)
        λ _ at1.
          and_then-RunsTo 12 15
            (add_reconciler M "atomixcluster-controller" atomix_cluster stateful_set _) _
            (add_reconciler-RunsTo "atomixcluster-controller" atomix_cluster stateful_set 9 _
              (refl, refl, λ led. refl) (refl, refl, λ led. refl) (refl, refl, λ led. refl) at1)
            λ _ at2.
              and_then-RunsTo 15 15
                (add_reconciler M "partitiongroup-controller" partition_group stateful_set _) _
                (add_reconciler-RunsTo "partitiongroup-controller" partition_group stateful_set 12 _
                  (refl, refl, λ led. refl) (refl, refl, λ led. refl) (refl, refl, λ led. refl) at2)
                λ _ at3. at3

  or_exit-EndsManager :
      {A : Type 0} (n : ℕ) (r : M.State × Result E A) (next : A → M.State → M.State × Outcome)
      → RunsTo n r
      → ((a : A) → After n r.0 → EndsManager (next a r.0))
      → EndsManager (or_exit r next)
  or_exit-EndsManager n (s, ok a) next at rest = rest a at
  or_exit-EndsManager n (s, err e) next at rest = (refl, at)
  or_exit-EndsManager n (s, panic) next at rest = at

  or_exit-Ends :
      {A : Type 0} (n : ℕ) (r : M.State × Result E A) (next : A → M.State → M.State × Outcome)
      → RunsTo n r
      → ((a : A) → After n r.0 → Ends (next a r.0))
      → Ends (or_exit r next)
  or_exit-Ends n (s, ok a) next at rest = rest a at
  or_exit-Ends n (s, err e) next at rest = (refl, at)
  or_exit-Ends n (s, panic) next at rest = inl at

  become_leader-Ends :
      (lock : String) (s : M.State) (r : M.State × Result E (Unit {0}))
      (next : M.State → M.State × Outcome)
      → call_at 2 ≡ some (leader_call lock)
      → ((led was : Bool) → first 2 was ++ fine led (leader_call lock) ∷ [] ≡ first 3 led)
      → After 2 s
      → Recorded T.called s (leader_call lock) r
      → (After 3 r.0 → Ends (next r.0))
      → Ends (or_not r next)
  become_leader-Ends lock s (t, ok u) next here third (led, at) call rest =
      rest (true, after (leader_call lock) succeeded 2 led at call ∙ third true led)
  become_leader-Ends lock s (t, err e) next here third (led, at) call rest =
      rest (false, after (leader_call lock) failed 2 led at call ∙ third false led)
  become_leader-Ends lock s (t, panic) next here third (led, at) call rest =
      inl (2, led, leader_call lock, here, refl, after (leader_call lock) panicking 2 led at call)

  run_manager-EndsManager :
      (config : P.Config) (namespace : String) (s : M.State)
      → After 4 s
      → EndsManager (run_manager P config namespace s)
  unfolding run_manager
  run_manager-EndsManager config namespace s at =
      or_exit-EndsManager 5 (P.new_manager config namespace s) _
        (called-RunsTo 4 manager_call s _ (refl, refl, λ led. refl) at
          (T.called-manager config namespace s))
        λ _ at1.
          or_exit-EndsManager 6 (P.add_to_scheme _) _
            (called-RunsTo 5 scheme_call _ _ (refl, refl, λ led. refl) at1 (T.called-scheme _))
            λ _ at2.
              or_exit-EndsManager 15 (add_to_manager M _) _ (add_to_manager-RunsTo _ at2) λ _ at3.
                or_exit-EndsManager 16 (P.start _) _
                  (called-RunsTo 15 start_call _ _ (refl, refl, λ led. refl) at3 (T.called-start _))
                  λ _ at4. at4

  unset-returned :
      (s : M.State) (r : M.State × Result E (Unit {0}))
      → After 16 s
      → Recorded T.called s unset_call r
      → Ends (or_not r λ t. (t, returned))
  unset-returned s (t, ok u) (led, at) call = inl (led, after unset_call succeeded 16 led at call)
  unset-returned s (t, err e) (led, at) call = inr (led, after unset_call failed 16 led at call)
  unset-returned s (t, panic) (led, at) call =
      inr (inr (led, after unset_call panicking 16 led at call))

  deferred-Ends :
      (r : M.State × Outcome) → EndsManager r → Ends (deferred {A = Unit {0}} P.unset_ready r)
  deferred-Ends (s, returned) at = unset-returned s (P.unset_ready s) at (T.called-unset s)
  deferred-Ends (s, exited code) at = at
  deferred-Ends (s, panicked) at =
      inr (inl (T.called s, verdict (P.unset_ready s).1, at, T.called-unset s))

  -- Started with no call made, main makes its calls in one order: the namespace, the configuration,
  -- the leader's lock, the ready file, the manager, the scheme, the three controllers with their
  -- watches, and the manager's start. It returns only after all of them have succeeded, but maybe the
  -- one for the leader's lock, and the removal of the ready file has not panicked. It exits only with 1
  -- and directly after a call other than the one for the lock that failed, all before it but maybe that
  -- one having succeeded, and without a removal of the ready file. It panics only after a call that did.
  pub main-Ends : (s : M.State) → T.called s ≡ [] → Ends (main P s)
  unfolding main
  main-Ends s none_made =
      let t = P.flag_parse s in
      or_exit-Ends 1 (P.get_watch_namespace t) _
        (called-RunsTo 0 namespace_call t _ (refl, refl, λ led. refl)
          (true, T.called-flag_parse s ∙ none_made) (T.called-namespace t))
        λ namespace at1.
          or_exit-Ends 2 (P.get_config _) _
            (called-RunsTo 1 config_call _ _ (refl, refl, λ led. refl) at1 (T.called-config _))
            λ config at2.
              become_leader-Ends "atomix-operator-lock" _ (P.become_leader "atomix-operator-lock" _)
                _ refl (λ led was. refl) at2 (T.called-leader _ _)
                λ at3.
                  or_exit-Ends 4 (P.set_ready _) _
                    (called-RunsTo 3 ready_call _ _ (refl, refl, λ led. refl) at3
                      (T.called-ready _))
                    λ _ at4.
                      deferred-Ends (run_manager P config namespace _)
                        (run_manager-EndsManager config namespace _ at4)
