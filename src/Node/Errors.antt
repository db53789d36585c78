-- ===== src/Node/Errors.antt =====
-- Errors of node/pkg/consensus, and `wrapError` of protocol.go.
use multi_raft_storage.Prelude.{String}

-- The error values of dragonboat that the source names; `other` is any error besides.
pub data HostError : Type 0 where
  cluster_not_found cluster_not_bootstrapped cluster_not_initialized cluster_not_ready : HostError
  cluster_closed system_busy bad_key closed node_removed : HostError
  invalid_session invalid_target invalid_address invalid_operation : HostError
  payload_too_big timeout_too_small deadline_not_set invalid_deadline dir_not_exist : HostError
  timeout_reached canceled_request rejected_request cluster_already_exist : HostError
  other : String → HostError

-- What the constructors of the runtime's errors package make: `errors.NewUnavailable(msg)` and so
-- on. `raw` is a dragonboat error that is passed on as it is.
pub data Error : Type 0 where
  unavailable invalid forbidden internal timeout canceled unknown : String → Error
  raw : HostError → Error

-- `message` is `err.Error()`
unfoldable pub wrap_error : (HostError → String) → HostError → Error
wrap_error message cluster_not_found = unavailable (message cluster_not_found)
wrap_error message cluster_not_bootstrapped = unavailable (message cluster_not_bootstrapped)
wrap_error message cluster_not_initialized = unavailable (message cluster_not_initialized)
wrap_error message cluster_not_ready = unavailable (message cluster_not_ready)
wrap_error message cluster_closed = unavailable (message cluster_closed)
wrap_error message system_busy = unavailable (message system_busy)
wrap_error message bad_key = unavailable (message bad_key)
wrap_error message closed = unavailable (message closed)
wrap_error message node_removed = unavailable (message node_removed)
wrap_error message invalid_session = invalid (message invalid_session)
wrap_error message invalid_target = invalid (message invalid_target)
wrap_error message invalid_address = invalid (message invalid_address)
wrap_error message invalid_operation = invalid (message invalid_operation)
wrap_error message payload_too_big = forbidden (message payload_too_big)
wrap_error message timeout_too_small = forbidden (message timeout_too_small)
wrap_error message deadline_not_set = internal (message deadline_not_set)
wrap_error message invalid_deadline = internal (message invalid_deadline)
wrap_error message dir_not_exist = internal (message dir_not_exist)
wrap_error message timeout_reached = timeout (message timeout_reached)
wrap_error message canceled_request = canceled (message canceled_request)
wrap_error message rejected_request = forbidden (message rejected_request)
wrap_error message e = unknown (message e)
