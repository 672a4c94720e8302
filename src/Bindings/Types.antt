-- ===== src/Bindings/Types.antt =====
-- The data of crates/reiny-core/src/bindings.rs.
use reiny.Prelude.{
  ℕ, zero, suc, ◌≡◌, refl, Bool, Option, none, some, List, Bytes, Map, Equal, equal_by, nat_equal,
  option_equal, list_equal, Key, ◌&&◌, ◌||◌, pair_equal, bytes_lt, ◌===◌, bytes_key,
}

abbrev pub module_bindings_version : ℕ
module_bindings_version = 3

pub data PortKind : Type 0 where
  stream : PortKind
  rpc : PortKind

pub data QosProfile : Type 0 where
  default : QosProfile
  command : QosProfile
  sensor : QosProfile

pub data Retention : Type 0 where
  volatile : Retention
  last : Retention

pub data Replay : Type 0 where
  live : Replay
  last : Replay

pub data ReceiveBuffer : Type 0 where
  fifo : ReceiveBuffer
  latest : ℕ → ReceiveBuffer

-- The variants by number, which carries the derived equality.
abbrev pub kind_code : PortKind → ℕ
kind_code PortKind.stream = 0
kind_code PortKind.rpc = 1

abbrev pub kind_of : ℕ → PortKind
kind_of zero = PortKind.stream
kind_of (suc n) = PortKind.rpc

abbrev pub kind_of-kind_code : (k : PortKind) → kind_of (kind_code k) ≡ k
kind_of-kind_code PortKind.stream = refl
kind_of-kind_code PortKind.rpc = refl

instance abbrev pub kind_equal : Equal PortKind
kind_equal = equal_by kind_code kind_of kind_of-kind_code

abbrev pub qos_code : QosProfile → ℕ
qos_code QosProfile.default = 0
qos_code QosProfile.command = 1
qos_code QosProfile.sensor = 2

abbrev pub qos_of : ℕ → QosProfile
qos_of zero = QosProfile.default
qos_of (suc zero) = QosProfile.command
qos_of (suc (suc n)) = QosProfile.sensor

abbrev pub qos_of-qos_code : (k : QosProfile) → qos_of (qos_code k) ≡ k
qos_of-qos_code QosProfile.default = refl
qos_of-qos_code QosProfile.command = refl
qos_of-qos_code QosProfile.sensor = refl

instance abbrev pub qos_equal : Equal QosProfile
qos_equal = equal_by qos_code qos_of qos_of-qos_code

abbrev pub retention_code : Retention → ℕ
retention_code Retention.volatile = 0
retention_code Retention.last = 1

abbrev pub retention_of : ℕ → Retention
retention_of zero = Retention.volatile
retention_of (suc n) = Retention.last

abbrev pub retention_of-retention_code : (k : Retention) → retention_of (retention_code k) ≡ k
retention_of-retention_code Retention.volatile = refl
retention_of-retention_code Retention.last = refl

instance abbrev pub retention_equal : Equal Retention
retention_equal = equal_by retention_code retention_of retention_of-retention_code

abbrev pub replay_code : Replay → ℕ
replay_code Replay.live = 0
replay_code Replay.last = 1

abbrev pub replay_of : ℕ → Replay
replay_of zero = Replay.live
replay_of (suc n) = Replay.last

abbrev pub replay_of-replay_code : (k : Replay) → replay_of (replay_code k) ≡ k
replay_of-replay_code Replay.live = refl
replay_of-replay_code Replay.last = refl

instance abbrev pub replay_equal : Equal Replay
replay_equal = equal_by replay_code replay_of replay_of-replay_code

abbrev pub buffer_code : ReceiveBuffer → Option ℕ
buffer_code ReceiveBuffer.fifo = none
buffer_code (ReceiveBuffer.latest depth) = some depth

abbrev pub buffer_of : Option ℕ → ReceiveBuffer
buffer_of none = ReceiveBuffer.fifo
buffer_of (some depth) = ReceiveBuffer.latest depth

abbrev pub buffer_of-buffer_code : (k : ReceiveBuffer) → buffer_of (buffer_code k) ≡ k
buffer_of-buffer_code ReceiveBuffer.fifo = refl
buffer_of-buffer_code (ReceiveBuffer.latest depth) = refl

instance abbrev pub buffer_equal : Equal ReceiveBuffer
buffer_equal = equal_by buffer_code buffer_of buffer_of-buffer_code

pub record EndpointContract : Type 0 where
  pub semantics : Map Bytes Bytes
  pub type_name : Bytes
  pub kind : PortKind
  pub response : Option Bytes
  pub qos : QosProfile
  pub retention : Retention
  pub replay : Replay
  pub buffer : ReceiveBuffer

abbrev pub contract_parts :
    EndpointContract
    → Map Bytes Bytes
      × (Bytes
          × (PortKind × (Option Bytes × (QosProfile × (Retention × (Replay × ReceiveBuffer))))))
contract_parts a = (
  a.semantics,
  (a.type_name, (a.kind, (a.response, (a.qos, (a.retention, (a.replay, a.buffer)))))),
)

abbrev pub contract_whole :
    Map Bytes Bytes
      × (Bytes
          × (PortKind × (Option Bytes × (QosProfile × (Retention × (Replay × ReceiveBuffer))))))
    → EndpointContract
contract_whole p = record {
  semantics = p.0;
  type_name = p.1.0;
  kind = p.1.1.0;
  response = p.1.1.1.0;
  qos = p.1.1.1.1.0;
  retention = p.1.1.1.1.1.0;
  replay = p.1.1.1.1.1.1.0;
  buffer = p.1.1.1.1.1.1.1;
}

instance abbrev pub contract_equal : Equal EndpointContract
contract_equal = equal_by contract_parts contract_whole (λ a. refl)

pub record PortDelegation : Type 0 where
  pub inputs : List Bytes
  pub outputs : List Bytes

pub record EndpointAddress : Type 0 where
  pub namespace : Bytes
  pub port : Bytes

abbrev pub address_parts : EndpointAddress → Bytes × Bytes
address_parts a = (a.namespace, a.port)

abbrev pub address_whole : Bytes × Bytes → EndpointAddress
address_whole p = record { namespace = p.0; port = p.1 }

instance abbrev pub address_equal : Equal EndpointAddress
address_equal = equal_by address_parts address_whole (λ a. refl)

-- `Ord`: by namespace, then by port.
abbrev pub address_before : EndpointAddress → EndpointAddress → Bool
address_before a b =
    bytes_lt a.namespace b.namespace || (a.namespace === b.namespace && bytes_lt a.port b.port)

instance abbrev pub address_key : Key EndpointAddress
address_key = record {
  same = address_equal.eq;
  before = address_before;
  same_iff = address_equal.eq_iff;
}

pub record InputBinding : Type 0 where
  pub contract : EndpointContract
  pub sources : List EndpointAddress

pub record OutputBinding : Type 0 where
  pub contract : EndpointContract

pub record ModuleBindings : Type 0 where
  pub version : ℕ
  pub namespace : Bytes
  pub endpoint_namespace : Bytes
  pub inputs : Map Bytes InputBinding
  pub outputs : Map Bytes OutputBinding
  pub children : Map Bytes PortDelegation
  pub executables : List Bytes

pub record BindingError : Type 0 where
  pub message : Bytes
