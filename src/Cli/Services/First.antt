-- ===== src/Cli/Services/First.antt =====
-- services.go: what becomes of the first failure behind the start of both services.
use gatus_qqbot.Base.{List, [], ◌∷◌, ◌++◌, Option, if◌then◌else◌, ◌⊎◌, ◌≡◌}
use gatus_qqbot.Errors.{Error, join_two}
use gatus_qqbot.Cli.Services.{
  Name, qq_gateway, http_server, ServiceResult, service_failure, shutdown_error, Service, active,
  returned, System, Event, service_return, run,
}
use gatus_qqbot.Strings.{Text}

abbrev pub service_of : System → Name → Service
service_of y qq_gateway = y.gateway
service_of y http_server = y.http

-- Among the events from `y` on a service that is at work then returns, with the result `r`, before
-- there is any other result to receive.
abbrev pub IsSent : Text → System → List Event → ServiceResult → Type 0
IsSent t y es r =
    (before : List Event) × (after : List Event) × (es
      ≡ before ++ service_return r.name r.err ∷ after)
    × (service_of (run t y before) r.name ≡ active)
    × ((run t y before).results ≡ [])

-- `r` is the next result in the channel, or there is none and a service returns it later.
abbrev pub IsNext : Text → System → List Event → ServiceResult → Type 0
IsNext t y es r =
    ((rs : List ServiceResult) × (y.results ≡ r ∷ rs)) ⊎ ((y.results ≡ []) × IsSent t y es r)

-- `x` is `f` joined with what the next result gives.
abbrev pub IsJoined : Text → Option Error → System → List Event → Option Error → Type 0
IsJoined t f y es x =
    (r : ServiceResult) × IsNext t y es r × (x ≡ join_two f (shutdown_error r.err))

-- The rest of a run that waits for the second result.
module _ (t : Text) (f x : Option Error) where
  abbrev Ends : System → List Event → Type 0
  Ends y es = (run t y es).phase ≡ returned x → IsJoined t f y es x

-- what the first result behind the start of both services gives
abbrev pub first_failure : System → ServiceResult → Option Error
first_failure y r = if y.ctx_ended then shutdown_error r.err else service_failure r
