-- ===== src/Main/Calls.antt =====
-- What main calls, in order, and a record that every call and what it led to is kept.
use atomix_operator.Base.{
  ◌⊎◌, if◌then◌else◌, ℕ, zero, suc, ◌≡◌, Bool, true, false, String, Result, ok, err, panic, Option,
  none, some, List, [], ◌∷◌, ◌++◌, map,
}
use atomix_operator.Controller.Client.{
  Kind, atomix_cluster, partition_group, atomix_benchmark, stateful_set, pod,
}
use atomix_operator.Controller.Registration.{
  EventHandler, enqueue_request_for_object, enqueue_request_for_owner, Manager,
}
use atomix_operator.Main.{Process, Outcome, returned, exited, panicked}

pub data Call : Type 0 where
  namespace_call config_call ready_call unset_call manager_call scheme_call start_call : Call
  leader_call : (lock : String) → Call
  new_call : (name : String) (resource : Kind) → Call
  watch_call : (type : Kind) (handler : EventHandler) → Call

abbrev add_calls : String → Kind → Kind → List Call
add_calls name resource secondary =
    new_call name resource
    ∷ watch_call resource enqueue_request_for_object
    ∷ watch_call secondary (enqueue_request_for_owner resource true)
    ∷ []

-- The calls of a start in which nothing fails, up to the manager's.
abbrev pub startup : List Call
startup =
    namespace_call
    ∷ config_call
    ∷ leader_call "atomix-operator-lock"
    ∷ ready_call
    ∷ manager_call
    ∷ scheme_call
    ∷ (add_calls "benchmark-controller" atomix_benchmark pod
        ++ (add_calls "atomixcluster-controller" atomix_cluster stateful_set
            ++ (add_calls "partitiongroup-controller" partition_group stateful_set
                ++ (start_call ∷ []))))

pub data Verdict : Type 0 where
  succeeded failed panicking : Verdict

abbrev pub verdict : {E A : Type 0} → Result E A → Verdict
verdict (ok a) = succeeded
verdict (err e) = failed
verdict panic = panicking

-- A call, and what it led to.
abbrev pub Event : Type 0
Event = Call × Verdict

-- Every call succeeded, but maybe the one for the leader's lock.
abbrev pub fine : Bool → Call → Event
fine led (leader_call lock) = (leader_call lock, if led then succeeded else failed)
fine led c = (c, succeeded)

-- A call after which main does not go on.
abbrev pub is_fatal : Verdict → Call → Bool
is_fatal succeeded c = false
is_fatal failed (leader_call lock) = false
is_fatal failed c = true
is_fatal panicking c = true

abbrev take : ℕ → List Call → List Call
take zero cs = []
take (suc n) [] = []
take (suc n) (c ∷ cs) = c ∷ take n cs

abbrev pub first : ℕ → Bool → List Event
first n led = map (fine led) (take n startup)

abbrev call_from : ℕ → List Call → Option Call
call_from n [] = none
call_from zero (c ∷ cs) = some c
call_from (suc n) (c ∷ cs) = call_from n cs

abbrev pub call_at : ℕ → Option Call
call_at n = call_from n startup

-- The calls up to one after which main does not go on.
abbrev pub StoppedBy : Verdict → List Event → Type 0
StoppedBy v events =
    (n : ℕ) × (led : Bool) × (c : Call) × (call_at n ≡ some c)
    × (is_fatal v c ≡ true)
    × (events ≡ first n led ++ (c, v) ∷ [])

-- All calls, and the removal of the ready file with what it led to.
abbrev pub AllThen : Verdict → List Event → Type 0
AllThen v events = (led : Bool) × (events ≡ map (fine led) startup ++ (unset_call, v) ∷ [])

-- How main ends, by what has been called.
abbrev pub EndsWith : List Event → Outcome → Type 0
EndsWith events returned = AllThen succeeded events ⊎ AllThen failed events
EndsWith events (exited code) = (code ≡ 1) × StoppedBy failed events
EndsWith events panicked =
    StoppedBy panicking events
    ⊎ (((l : List Event) × (v : Verdict) × StoppedBy panicking l
          × (events ≡ l ++ (unset_call, v) ∷ []))
        ⊎ AllThen panicking events)

-- The call is the one at a place, and no other than the leader's.
abbrev pub IsNext : ℕ → Call → Type 0
IsNext n c =
    (call_at n ≡ some c)
    × (is_fatal failed c ≡ true)
    × ((led : Bool) → first n led ++ (c, succeeded) ∷ [] ≡ first (suc n) led)

-- The call is the next one that is kept.
abbrev pub Recorded : {S E A : Type 0} → (S → List Event) → S → Call → S × Result E A → Type 0
Recorded called s c (t, r) = called t ≡ called s ++ (c, verdict r) ∷ []

module _ {E : Type 0} {M : Manager E} (P : Process M) where
  -- Every call is recorded, whatever it returns.
  pub record Trace : Type 0 where
    pub called : M.State → List Event
    pub called-flag_parse : (s : M.State) → called (P.flag_parse s) ≡ called s
    pub called-namespace :
        (s : M.State) → Recorded called s namespace_call (P.get_watch_namespace s)
    pub called-config : (s : M.State) → Recorded called s config_call (P.get_config s)
    pub called-leader :
        (lock : String) (s : M.State)
        → Recorded called s (leader_call lock) (P.become_leader lock s)
    pub called-ready : (s : M.State) → Recorded called s ready_call (P.set_ready s)
    pub called-unset : (s : M.State) → Recorded called s unset_call (P.unset_ready s)
    pub called-manager :
        (config : P.Config) (namespace : String) (s : M.State)
        → Recorded called s manager_call (P.new_manager config namespace s)
    pub called-scheme : (s : M.State) → Recorded called s scheme_call (P.add_to_scheme s)
    pub called-start : (s : M.State) → Recorded called s start_call (P.start s)
    pub called-new :
        (name : String) (resource : Kind) (s : M.State)
        → Recorded called s (new_call name resource) (M.new name resource s)
    pub called-watch :
        (c : M.Handle) (type : Kind) (handler : EventHandler) (s : M.State)
        → Recorded called s (watch_call type handler) (M.watch c type handler s)
