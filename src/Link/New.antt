-- ===== src/Link/New.antt =====
-- `Link::new`, `with_config` and `into_bridge` of crates/reiny-link/src/link.rs.
use reiny.Prelude.{
  is_empty, Bool, true, false, not, ◌&&◌, ◌||◌, none, Result, ok, refuse, List, [], Bytes, length,
  ◌>>=◌, ◌>>◌, any, any_after, replicate, ltb, ◌==◌, bytes_eq, is_some,
}
use reiny.Core.{
  PortDirection, input, output, rpc_server, rpc_client, direction_eq, StaticEndpointAddress,
  address_eq, StaticPort,
}
use reiny.Wire.Types.{overhead}
use reiny.Wire.Text.{valid_port, valid_namespace}
use reiny.Link.State.{
  Env, Link, LinkConfig, default_config, zero_stats, Error, invalid_ports, too_large, id_buf,
}

abbrev is_service : PortDirection → Bool
is_service d = direction_eq d rpc_server || direction_eq d rpc_client

abbrev is_receiver : PortDirection → Bool
is_receiver d = direction_eq d input || direction_eq d rpc_client

abbrev is_provider : PortDirection → Bool
is_provider d = direction_eq d output || direction_eq d rpc_server

abbrev same : Bool → Bool → Bool
same true b = b
same false b = not b

-- One round over the sources of a port; `before` is `port.sources[..i]`.
static_source_refused : List StaticEndpointAddress → StaticEndpointAddress → Bool
static_source_refused before source =
    not (valid_namespace source.namespace)
    || not (valid_port source.port)
    || any (λ other. address_eq other source) before

-- One round of the loop of `new` over the table; `before` is `ports[..index]`.
port_refused : List StaticPort → StaticPort → Bool
unfolding static_source_refused
port_refused before port =
    not (valid_port port.name)
    || is_empty port.ty
    || (is_receiver port.direction && length port.sources == 0)
    || (is_provider port.direction && not (length port.sources == 0))
    || (direction_eq port.direction rpc_client && not (length port.sources == 1))
    || any_after static_source_refused [] port.sources
    || not (same (is_service port.direction) (is_some port.response))
    || any
        (λ other.
          bytes_eq other.name port.name
          && same (is_provider other.direction) (is_provider port.direction))
        before

module _ (env : Env) where
  initial : Bytes → List StaticPort → Bytes → Bytes → Link
  initial id ports tx rx = record {
    id = id;
    peer = none;
    local = replicate env.n none;
    ports = ports;
    declared = replicate env.n none;
    remote = replicate env.n none;
    peer_hello = replicate env.frame 0;
    peer_hello_len = 0;
    pending = replicate env.n none;
    tx = tx;
    tx_len = 0;
    rx = rx;
    rx_len = 0;
    rx_consumed = 0;
    rx_skip = false;
    rx_generation = 0;
    scratch = replicate env.frame 0;
    config = default_config;
    started = false;
    connected = false;
    bridge = false;
    peer_bridge = false;
    data_seq = 0;
    req_seq = 0;
    now_ms = 0;
    last_rx_ms = 0;
    last_tx_ms = 0;
    stats = zero_stats;
  }

  -- `Link::new`, with the two buffers it is given.
  unfoldable pub new : Bytes → List StaticPort → Bytes → Bytes → Result Error Link
  unfolding port_refused initial id_buf
  new id ports tx rx = do
    refuse (ltb env.frame overhead) too_large
    refuse (any_after port_refused [] ports) invalid_ports
    refuse (not (valid_namespace id)) invalid_ports
    id' ← id_buf id
    ok (initial id' ports tx rx)

-- `with_config` and `into_bridge`
pub with_config : Link → LinkConfig → Link
with_config l config = record l { config = config }

pub into_bridge : Link → Link
into_bridge l = record l { bridge = true }
