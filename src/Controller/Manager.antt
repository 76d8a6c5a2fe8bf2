-- ===== src/Controller/Manager.antt =====
-- The wiring of the reconciler into its manager in internal/controller/secret_controller.go:
-- SetupWithManager with its event filter, Close and the SPIRE closer. The manager is a parameter.
use haproxy_operator.Base.{String, Bool, true, false, Option, none, some, [], if◌then◌else◌}
use haproxy_operator.Haproxy.Errors.{Cause, Error, foreign, wrap}
use haproxy_operator.Platform.{Secret, Platform}
use haproxy_operator.Act.{Reconciler, Act, pure, gets, ◌>>=◌, until_done, close_source}
use haproxy_operator.Controller.Annotations.{is_relevant_update}

-- `client.Object`: a Secret, or an object of another kind.
pub data Object : Type 0 where
  secret_object : Secret → Object
  other_object : String → String → Object

pub data Event : Type 0 where
  create : Object → Event
  update : Object → Object → Event
  delete : Object → Event
  generic : Object → Event

-- The four predicates of `WithEventFilter`.
unfoldable pub passes : Event → Bool
passes (create o) = true
passes (update (secret_object old) (secret_object new)) = is_relevant_update old new
passes (update _ _) = true
passes (delete o) = false
passes (generic o) = false

-- What the registrations of a manager answer: `mgr.Add`, `mgr.AddReadyzCheck` and `Complete`.
pub record Manager : Type 0 where
  pub add : Option Cause
  pub add_readyz_check : Option Cause
  pub complete : Option Cause

abbrev registered : Option Cause → String → Option Error → Option Error
registered none what rest = rest
registered (some c) what rest = some (wrap what (foreign c) [])

abbrev completed : Option Cause → Option Error
completed none = none
completed (some c) = some (foreign c)

-- `SetupWithManager`, with the reconciler that it leaves
unfoldable pub set_up_with_manager : Manager → Reconciler → Option Error × Reconciler
set_up_with_manager mgr r = (
  registered mgr.add "register SPIRE source closer: " (
      registered mgr.add_readyz_check "register dataplane readiness check: "
        (completed mgr.complete)),
  record r { recorder = true },
)

module _ {p : Platform} where
  -- `Close`
  unfoldable pub close : Act p (Option Error)
  close = do held ← gets (λ s. s.reconciler.spire_source); if held then close_source else pure none

  -- `spireSourceCloser.Start`
  unfoldable pub start_closer : Act p (Option Error)
  start_closer = do _ ← until_done; close
