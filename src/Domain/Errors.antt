-- ===== src/Domain/Errors.antt =====
-- `ErrorClassSchema` and `ControllerError` of domain.ts: a call returns a value or throws a class.
use whats_app_mcp_server.Base.{Bool, true, false}

pub data ErrorClass : Type 0 where
  config_invalid signature_invalid payload_invalid policy_denied body_too_large : ErrorClass
  body_invalid request_timeout store_unavailable identity_conflict not_ready : ErrorClass
  intake_closed internal_failed listen_failed lease_lost sequence_gap : ErrorClass
  session_failed mutation_uncertain usage_unknown preparation_failed : ErrorClass
  checkpoint_invalid compaction_capacity compaction_failed restore_failed : ErrorClass

pub data Result {ℓ} (A : Type ℓ) : Type ℓ where
  ok : A → Result A
  err : ErrorClass → Result A

infixl 5 ◌>>=◌ ◌>>◌
-- A throw ends the function.
abbrev pub ◌>>=◌ {ℓ κ} : {A : Type ℓ} {B : Type κ} → Result A → (A → Result B) → Result B
m >>= f = elim m [ ok a ↦ f a | err e ↦ err e ]

abbrev pub ◌>>◌ {ℓ} : {B : Type ℓ} → Result (Unit {0}) → Result B → Result B
err e >> k = err e
ok _ >> k = k

-- `if (!b) throw new ControllerError(e)`.
abbrev pub require : Bool → ErrorClass → Result (Unit {0})
require true e = ok tt
require false e = err e
