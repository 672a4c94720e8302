-- ===== src/Bindings/Contract.antt =====
-- `EndpointContract::validate` and `EndpointAddress::validate` of crates/reiny-core/src/bindings.rs.
use reiny.Prelude.{Bool, not, ◌&&◌, ◌||◌, Result, ◌>>◌, is_none, is_some_and, ◌===◌}
use reiny.Bindings.Types.{
  PortKind, QosProfile, Retention, Replay, ReceiveBuffer, EndpointContract, EndpointAddress,
  BindingError, qos_equal, retention_equal, replay_equal, buffer_equal,
}
use reiny.Bindings.Names.{
  require, type_name, validate_namespace, validate_port_name, validate_semantics,
}

unfoldable pub validate_address : EndpointAddress → Result BindingError (Unit {0})
validate_address address = do validate_namespace address.namespace; validate_port_name address.port

abbrev pub validate_kind : EndpointContract → PortKind → Result BindingError (Unit {0})
validate_kind contract PortKind.stream =
    require (is_none contract.response) "stream cannot declare a response"
validate_kind contract PortKind.rpc = do
  require (is_some_and contract.response type_name) "RPC requires a valid response type"
  require
      (contract.qos === QosProfile.default
        && contract.retention === Retention.volatile
        && contract.replay === Replay.live
        && contract.buffer === ReceiveBuffer.fifo)
      "stream policies do not apply to RPC"

unfoldable pub validate_contract : EndpointContract → Bool → Result BindingError (Unit {0})
validate_contract contract input = do
  validate_semantics contract.semantics
  require (type_name contract.type_name) "invalid endpoint type"
  require (not (contract.buffer === ReceiveBuffer.latest 0)) "latest buffer depth must be positive"
  require
      (not input
        || (contract.qos === QosProfile.default && contract.retention === Retention.volatile))
      "qos and retention belong to outputs"
  require (input || (contract.replay === Replay.live && contract.buffer === ReceiveBuffer.fifo))
      "replay and buffer belong to inputs"
  validate_kind contract contract.kind
