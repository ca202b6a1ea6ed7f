-- ===== src/Client/Scenarios.antt =====
-- can-lite/client/CanProtocolClient.cpp and can-lite/server/CanProtocolServer.cpp: three commands across
-- the wrap-around of their numbers, a command that is refused, and a discovery that is answered while
-- a second one is refused.
use can_lite.Base.{ℕ, ◌≡◌, refl, true, false, none, some, List, [], ◌∷◌, arith}
use can_lite.Hal.{tagged_ids}
use can_lite.FrameTransport
use can_lite.Server
use can_lite.Codec.{Message}
use can_lite.Protocol.{
  success, extract_can_category, extract_can_priority, extract_can_message_type,
  is_command_message_type,
}
use can_lite.Server.{
  Server, command_ack, find_category, is_emergency, expected_sequence, is_expected_sequence,
}
use can_lite.Server.Dispatch.{Handlers, handle_message, execute}
use can_lite.Client.{PerServerState, empty_state, Sequences, serves, find_slot}
use can_lite.Client.Exchange.{Command}
use can_lite.Client.Resync.{Corrected, refusal_resynchronises}
use can_lite.Client.Dispatch as Dispatch
use can_lite.Client.Dispatch.{Client, no_discovery, system_category}
use can_lite.Client.Dispatch.Accounts.{Accounted}
use can_lite.Client.Dispatch.Discovery.{
  Input, discover, received, discovery_timeout, heartbeat_due, run, run-Accounted,
}

-- Number 254 is the next one for node 5.
abbrev known : PerServerState
known = record empty_state { node_id = 5; sequence_counter = 254; occupied = true }

abbrev tracking : Sequences
tracking = record {
  server_states =
      known ∷ empty_state ∷ empty_state ∷ empty_state ∷ empty_state ∷ empty_state ∷ empty_state
      ∷ empty_state ∷ [];
  next_sequence_evict_index = 0;
  last_reservation = none;
}

abbrev motor : Server.Category
motor = record {
  key = 1;
  id = 2;
  requires_sequence_validation = true;
  has_acknowledger = true;
  message_types = 3 ∷ [];
}

abbrev turns : List Command
turns =
    record { message_type = 3; payload = 1 ∷ []; deadline = 100 }
    ∷ record { message_type = 3; payload = 2 ∷ 3 ∷ []; deadline = 200 }
    ∷ record { message_type = 3; payload = []; deadline = 300 }
    ∷ []

-- The motor's handler collects the payloads that it gets.
abbrev collecting : Handlers (List Message)
collecting = record {
  handle =
      λ key message_type app content. (content ∷ app, command_ack message_type success ∷ [], true);
  handle_pdu = λ key message_type app content. (app, [], false);
  process_frame = λ app raw_id content. (app, [], false);
}

-- Node 5 expects number 254 and has no frame on its way.
abbrev server : Server (tagged_ids.Ident) ℕ (List Message)
server = record {
  config = record {
    node_id = 5;
    max_messages_per_second = 100;
    heartbeat_interval = 1000;
    client_timeout = 3000;
    max_emergency_messages_per_second = 10;
  };
  transport = record {
    node_id = 5;
    current = none;
    current_retries = 0;
    counters = FrameTransport.no_counts;
    has_notification = true;
    send_queue = [];
  };
  heartbeat_timer = some 1000;
  client_liveness_timer = none;
  message_count_this_period = 0;
  emergency_message_count_this_period = 0;
  counters = record {
    rate_limited = 0;
    emergency_rate_limited = 0;
    invalid_frames = 0;
    emergency_admitted = 0;
  };
  sequence = record { last_sequence_number = 253; sequence_initialized = true };
  client_online = false;
  heartbeat_pending = false;
  categories = Server.system_category ∷ motor ∷ [];
  iso_tp_attached = false;
  app = [];
}

stale_is_unexpected : is_expected_sequence server.sequence 20 ≡ false
unfolding is_expected_sequence expected_sequence
stale_is_unexpected = refl

-- A command of type 3 to the motor of node 5.
abbrev move : ℕ
move = 0x4203005

move_is_command : is_command_message_type (extract_can_message_type move) ≡ true
unfolding is_command_message_type extract_can_message_type
move_is_command = refl

move_is_found : find_category (extract_can_category move) server.categories ≡ some motor
unfolding find_category extract_can_category
move_is_found = refl

move_is_ordinary : is_emergency move ≡ false
unfolding extract_can_priority
move_is_ordinary = refl

known_is_found : find_slot (serves 5) tracking.server_states ≡ some 0
unfolding find_slot
known_is_found = refl

refusal_resynchronises_example :
    let (s', out) =
      execute tagged_ids 8 (handle_message tagged_ids 8 collecting) server move (20 ∷ 1 ∷ []) in
    Corrected tagged_ids 5 s'.sequence out tracking 2 3 900
refusal_resynchronises_example =
    refusal_resynchronises tagged_ids 8 collecting server move 20 (1 ∷ []) motor tracking 0 2 3 900
      move_is_command move_is_found refl move_is_ordinary stale_is_unexpected (omega arith) refl
      (omega arith) (λ e. omega arith) known_is_found

abbrev counting : Dispatch.Handlers ℕ
counting = record {
  handle = λ key message_type calls content. calls;
  handle_pdu = λ key message_type calls content. calls;
  process_frame = λ calls raw_id content. (calls, [], false);
}

abbrev idle_client : Client (tagged_ids.Ident) ℕ ℕ
idle_client = record {
  config = record { server_timeout = 3000; heartbeat_interval = 1000; discovery_timeout = 1000 };
  node = record {
    transport = record {
      node_id = 0;
      current = none;
      current_retries = 0;
      counters = FrameTransport.no_counts;
      has_notification = true;
      send_queue = [];
    };
    sequences = tracking;
  };
  servers = record { server_liveness = []; next_liveness_evict_index = 0 };
  heartbeat_timer = some 1000;
  discovery = no_discovery;
  categories = system_category ∷ [];
  iso_tp_attached = false;
  app = 0;
}

-- The answer of node 5 to a request for its categories.
abbrev list_response : ℕ
list_response = 0x8004005

abbrev inputs : List (Input (tagged_ids.Ident))
inputs =
    discover 5 1
    ∷ discover 6 2
    ∷ heartbeat_due
    ∷ received (true, list_response) (2 ∷ [])
    ∷ discovery_timeout
    ∷ []

run-Accounted_example :
    let (c, out, k) = run tagged_ids 8 counting idle_client inputs in
    Accounted no_discovery c.discovery out k
run-Accounted_example =
    run-Accounted tagged_ids 8 counting idle_client inputs (record { handler = refl; timer = refl })
