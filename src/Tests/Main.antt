-- ===== src/Tests/Main.antt =====
-- The start of the operator, in a process that keeps the calls and whose leader's lock fails.
use atomix_operator.Base.{◌≡◌, refl, String, ok, err, List, [], ◌∷◌, ◌++◌}
use atomix_operator.Controller.Registration.{Manager, add_reconciler, add_to_manager}
use atomix_operator.Main.{Process, exited, main}
use atomix_operator.Main.Calls.{
  Event, namespace_call, config_call, ready_call, unset_call, manager_call, scheme_call, start_call,
  leader_call, new_call, watch_call, succeeded, failed, Trace,
}
use atomix_operator.Main.Laws.{Ends, main-Ends}
use atomix_operator.Tests.Memory.{Failure, message}

abbrev manager : Manager Failure
manager = record {
  State = List Event;
  Handle = String;
  new = λ name resource s. (s ++ (new_call name resource, succeeded) ∷ [], ok name);
  watch = λ c type handler s. (s ++ (watch_call type handler, succeeded) ∷ [], ok tt);
}

abbrev process : Process manager
process = record {
  Config = Unit {0};
  flag_parse = λ s. s;
  get_watch_namespace = λ s. (s ++ (namespace_call, succeeded) ∷ [], ok "default");
  get_config = λ s. (s ++ (config_call, succeeded) ∷ [], ok tt);
  become_leader = λ lock s. (s ++ (leader_call lock, failed) ∷ [], err (message "no namespace"));
  set_ready = λ s. (s ++ (ready_call, succeeded) ∷ [], ok tt);
  unset_ready = λ s. (s ++ (unset_call, succeeded) ∷ [], ok tt);
  new_manager = λ config namespace s. (s ++ (manager_call, succeeded) ∷ [], ok tt);
  add_to_scheme = λ s. (s ++ (scheme_call, succeeded) ∷ [], ok tt);
  start = λ s. (s ++ (start_call, failed) ∷ [], err (message "the manager has stopped"));
}

abbrev trace : Trace process
trace = record {
  called = λ s. s;
  called-flag_parse = λ s. refl;
  called-namespace = λ s. refl;
  called-config = λ s. refl;
  called-leader = λ lock s. refl;
  called-ready = λ s. refl;
  called-unset = λ s. refl;
  called-manager = λ config namespace s. refl;
  called-scheme = λ s. refl;
  called-start = λ s. refl;
  called-new = λ name resource s. refl;
  called-watch = λ c type handler s. refl;
}

-- The process goes on without the lock, and ends by the manager's failure.
main_test : (main process []).1 ≡ exited 1
unfolding main add_to_manager add_reconciler
main_test = refl

main-Ends_example : Ends trace (main process [])
main-Ends_example = main-Ends trace [] refl
