-- ===== src/Tests/Modules.antt =====
-- A graph of two modules, a sensor that publishes its state and a controller that reads it.
use reiny.Prelude.{none, List, [], ◌∷◌, codes}
use reiny.Bindings.Types.{
  module_bindings_version, PortKind, QosProfile, Retention, Replay, ReceiveBuffer, EndpointContract,
  ModuleBindings, EndpointAddress,
}
use reiny.Bindings.ReportTypes.{module_report_version, PortEndpoint, ModuleReport, ReportEntry}

abbrev pub published : EndpointContract
published = record {
  semantics = (codes "unit", codes "m") ∷ [];
  type_name = codes "robot.State";
  kind = PortKind.stream;
  response = none;
  qos = QosProfile.sensor;
  retention = Retention.last;
  replay = Replay.live;
  buffer = ReceiveBuffer.fifo;
}

abbrev pub received : EndpointContract
received = record {
  semantics = (codes "unit", codes "m") ∷ [];
  type_name = codes "robot.State";
  kind = PortKind.stream;
  response = none;
  qos = QosProfile.default;
  retention = Retention.volatile;
  replay = Replay.last;
  buffer = ReceiveBuffer.latest 2;
}

abbrev pub state_address : EndpointAddress
state_address = record { namespace = codes "a/s"; port = codes "state" }

abbrev pub sensor_bindings : ModuleBindings
sensor_bindings = record {
  version = module_bindings_version;
  namespace = codes "a/s";
  endpoint_namespace = codes "a/s";
  inputs = [];
  outputs = (codes "state", record { contract = published }) ∷ [];
  children = [];
  executables = codes "sensor" ∷ [];
}

abbrev pub control_bindings : ModuleBindings
control_bindings = record {
  version = module_bindings_version;
  namespace = codes "c";
  endpoint_namespace = codes "c";
  inputs = (codes "in", record { contract = received; sources = state_address ∷ [] }) ∷ [];
  outputs = [];
  children = (codes "worker", record { inputs = codes "in" ∷ []; outputs = [] }) ∷ [];
  executables = [];
}

abbrev pub sensor_report : ModuleReport
sensor_report = record {
  version = module_report_version;
  fingerprint_version = 2;
  namespace = codes "a/s";
  endpoint_namespace = codes "a/s";
  inputs = [];
  outputs =
      (
        codes "state",
        record {
          endpoint = PortEndpoint.output state_address;
          type_name = codes "robot.State";
          schema = 77;
          contract = published;
          response = none;
        },
      )
      ∷ [];
}

abbrev pub control_report : ModuleReport
control_report = record {
  version = module_report_version;
  fingerprint_version = 2;
  namespace = codes "c";
  endpoint_namespace = codes "c";
  inputs =
      (
        codes "in",
        record {
          endpoint = PortEndpoint.input (state_address ∷ []);
          type_name = codes "robot.State";
          schema = 77;
          contract = received;
          response = none;
        },
      )
      ∷ [];
  outputs = [];
}

abbrev pub robot : List ReportEntry
robot =
    record { bindings = sensor_bindings; report = sensor_report }
    ∷ record { bindings = control_bindings; report = control_report }
    ∷ []

-- The same with the controller alone.
abbrev pub lonely : List ReportEntry
lonely = record { bindings = control_bindings; report = control_report } ∷ []
