-- ===== src/Intake/Body.antt =====
-- `readBody` of intake/server.ts: the events of a request until its body is there or has failed.
use whats_app_mcp_server.Base.{
  ℕ, ◌+◌, Option, none, some, List, [], ◌∷◌, ◌++◌, ltb, if◌then◌else◌, length,
}
use whats_app_mcp_server.Domain.Errors.{
  Result, ok, err, body_too_large, body_invalid, request_timeout,
}

-- `data`, `end`, `aborted` or `error`, and the timer.
pub data BodyEvent : Type 0 where
  chunk : List ℕ → BodyEvent
  finish abort timeout : BodyEvent

-- The chunks so far, joined, and the events that come; none while the body is waited for.
unfoldable pub read_on : ℕ → List ℕ → List BodyEvent → Option (Result (List ℕ))
read_on limit chunks [] = none
read_on limit chunks (chunk c ∷ events) =
    let rest = read_on limit (chunks ++ c) events in
    if ltb limit (length chunks + length c) then some (err body_too_large) else rest
read_on limit chunks (finish ∷ events) = some (ok chunks)
read_on limit chunks (abort ∷ events) = some (err body_invalid)
read_on limit chunks (timeout ∷ events) = some (err request_timeout)

unfoldable pub read_body : ℕ → List BodyEvent → Option (Result (List ℕ))
unfolding read_on
read_body limit events = read_on limit [] events
