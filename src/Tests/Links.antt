-- ===== src/Tests/Links.antt =====
-- Links for the runs: one that has just been made, and one that is connected and waits for an answer.
use reiny.Prelude.{true, false, none, some, [], ◌∷◌, replicate, codes}
use reiny.Wire.Types.{Kind}
use reiny.Link.State.{Env, Link, Frame, default_config, zero_stats}
use reiny.Tests.Samples.{sample}

abbrev pub small : Env
small = record { codec = sample; n = 2; frame = 48; tx_size = 128; rx_size = 128 }

abbrev pub fresh : Link
fresh = record {
  id = codes "b";
  peer = none;
  local = replicate 2 none;
  ports = [];
  declared = replicate 2 none;
  remote = replicate 2 none;
  peer_hello = replicate 48 0;
  peer_hello_len = 0;
  pending = replicate 2 none;
  tx = replicate 128 0;
  tx_len = 0;
  rx = replicate 128 0;
  rx_len = 0;
  rx_consumed = 0;
  rx_skip = false;
  rx_generation = 0;
  scratch = replicate 48 0;
  config = default_config;
  started = false;
  connected = false;
  bridge = false;
  peer_bridge = false;
  data_seq = 0;
  req_seq = 0;
  now_ms = 0;
  last_rx_ms = 0;
  last_tx_ms = 0;
  stats = zero_stats;
}

-- It has asked the endpoint 700 for something, under the number 3.
abbrev pub waiting_link : Link
waiting_link = record fresh {
  started = true;
  connected = true;
  peer = some (codes "a");
  pending = some (700, 3) ∷ none ∷ [];
  last_rx_ms = 100;
}

abbrev pub answer : Frame
answer = record { kind = Kind.reply; hash = 700; seq = 3; len = 0; generation = 0 }
