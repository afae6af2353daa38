-- ===== src/Error.antt =====
-- error.rs and net/error.rs: the errors, and the outcome of code that returns, fails or panics.
use sapvi.Prelude.{String, ◌≡◌, refl, ◌⊎◌, inl, inr}

-- `NetError` of net/error.rs.
pub data NetError : Type 0 where
  operation_failed connect_failed connect_timeout channel_stopped channel_timeout : NetError
  service_stopped : NetError

-- `ZKVMError` of vm.rs.
pub data VmError : Type 0 where
  division_by_zero malformed_range : VmError

-- The kinds of `std::io::Error` that the modelled code tells apart.
pub data IoError : Type 0 where
  unexpected_eof other : IoError

-- `Error` of error.rs. The payloads of the variants that wrap an error of another crate (bellman,
-- zmq, rusqlite) are dropped.
pub data Error : Type 0 where
  foo commits_dont_add invalid_credential transaction_pedersen_check_failed : Error
  token_already_spent input_token_verify_failed rangeproof_pedersen_match_failed : Error
  proofs_failed missing_proofs : Error
  io : IoError → Error
  non_minimal_var_int : Error
  parse_failed : String → Error
  parse_int_error async_channel_error malformed_packet addr_parse_error : Error
  bad_variable_ref_type bad_operation_type bad_constraint_type : Error
  invalid_param_name missing_params : Error
  vm_error : VmError → Error
  bad_contract groth16_error zmq_error rusqlite_error : Error
  operation_failed connect_failed connect_timeout channel_stopped channel_timeout : Error
  service_stopped utf8_error note_decryption_failed : Error

-- `impl From<NetError> for Error`.
pub from_net_error : NetError → Error
from_net_error NetError.operation_failed = Error.operation_failed
from_net_error NetError.connect_failed = Error.connect_failed
from_net_error NetError.connect_timeout = Error.connect_timeout
from_net_error NetError.channel_stopped = Error.channel_stopped
from_net_error NetError.channel_timeout = Error.channel_timeout
from_net_error NetError.service_stopped = Error.service_stopped

-- A call returns a value, returns an error, or panics.
pub data Outcome {ℓ} (E : Type 0) (A : Type ℓ) : Type ℓ where
  ok : A → Outcome E A
  err : E → Outcome E A
  panic : Outcome E A

-- To split on an outcome and keep the equation.
pub Outcome-cases {ℓ} :
    {E : Type 0} {A : Type ℓ} (r : Outcome E A)
    → ((a : A) × (r ≡ ok a)) ⊎ (((e : E) × (r ≡ err e)) ⊎ (r ≡ panic))
Outcome-cases (ok a) = inl (a, refl)
Outcome-cases (err e) = inr (inl (e, refl))
Outcome-cases panic = inr (inr refl)
