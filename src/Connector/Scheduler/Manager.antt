-- ===== src/Connector/Scheduler/Manager.antt =====
-- src/dakv/connector/state.py: the manager's reads after its writes, in the form that the scheduler's proofs use.
use awarekv.Prelude.{
  String, Option, none, some, if◌then◌else◌, string_eq, ◌==◌, ◌≡◌, arith, ==_iff, ==_refl,
}
use awarekv.Common.Types.{RequestTransferState, new_state}
use awarekv.Dict.Laws.{find-insert, find-modify, contains-find, option_map}
use awarekv.Connector.State
use awarekv.Connector.State.{StateManager}

pub get-assign :
    (rid j : String) (f : RequestTransferState → RequestTransferState) (s : StateManager)
    → State.get j (State.assign rid f s)
      ≡ (if rid == j then option_map f (State.get j s) else State.get j s)
unfolding State.get State.assign
get-assign rid j f s = find-modify rid j f s.states

-- the state that a request has after `create_or_get`
abbrev pub created : String → Option RequestTransferState → RequestTransferState
created rid none = new_state rid
created rid (some st) = st

pub get-create_or_get :
    (rid j : String) (s : StateManager)
    → State.get j (State.create_or_get rid s)
      ≡ (if rid == j then some (created rid (State.get rid s)) else State.get j s)
unfolding State.get State.create_or_get
get-create_or_get rid j s =
    ground
      (arith, find-insert rid j (new_state rid) s.states, contains-find rid s.states, ==_iff rid j)

pub get-assign_self :
    (rid : String) (f : RequestTransferState → RequestTransferState) (s : StateManager)
    → State.get rid (State.assign rid f s) ≡ option_map f (State.get rid s)
get-assign_self rid f s = rw (get-assign rid rid f s, ==_refl rid)

pub get-create_or_get_self :
    (rid : String) (s : StateManager)
    → State.get rid (State.create_or_get rid s) ≡ some (created rid (State.get rid s))
get-create_or_get_self rid s = rw (get-create_or_get rid rid s, ==_refl rid)

pub ruleset manager_laws = (get-assign_self, get-create_or_get_self)
