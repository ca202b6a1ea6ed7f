-- ===== src/Server/Tests.antt =====
-- A server for node 5 with one category of its own, number 2, whose message type 3 counts its calls
-- and takes every payload.
use can_lite.Base.{
  ℕ, ◌+◌, ◌≡◌, ◌≢◌, refl, sym, ◌∙◌, true, false, none, some, List, [], ◌∷◌, arith, min,
  if◌then◌else◌, suc, ◌==◌,
}
use can_lite.Hal.{tagged_ids}
use can_lite.Protocol.{command, make_can_id}
use can_lite.FrameTransport
use can_lite.Server.{
  Server, Category, handled, system_category, command_ack, register_category, find_category, has_id,
  is_emergency, unknown_message_type, is_expected_sequence,
}
use can_lite.Protocol.{
  success, extract_can_category, extract_can_priority, extract_can_message_type,
  is_command_message_type,
}
use can_lite.Server.Dispatch.{
  Handlers, handle_message, execute, count_invalid, admit_command, admit_found, admit_sequenced,
  has_message_type,
}
use can_lite.Server.Core.{core}
use can_lite.Server.Commands.{
  outcome, execute-refused, execute-Accepted, Accepted, execute-repeated, NotCalled, answer,
}
use can_lite.Server.Budget.{WithinBudget, passed, passed_lem, of_class}
use can_lite.Server.Registry.{IsValid, Distinct, register_category-IsValid}

abbrev counting : Handlers ℕ
counting = record {
  handle =
      λ key message_type calls content. (suc calls, command_ack message_type success ∷ [], true);
  handle_pdu = λ key message_type calls content. (calls, [], false);
  process_frame = λ calls raw_id content. (calls, [], false);
}

abbrev motor : Category
motor = record {
  key = 1;
  id = 2;
  requires_sequence_validation = true;
  has_acknowledger = true;
  message_types = 3 ∷ [];
}

abbrev node : Server (tagged_ids.Ident) ℕ ℕ
node = record {
  config = record {
    node_id = 5;
    max_messages_per_second = 2;
    heartbeat_interval = 1000;
    client_timeout = 3000;
    max_emergency_messages_per_second = 1;
  };
  transport = record {
    node_id = 5;
    current = none;
    current_retries = 0;
    counters = FrameTransport.no_counts;
    has_notification = true;
    send_queue = [];
  };
  heartbeat_timer = some 1000;
  client_liveness_timer = none;
  message_count_this_period = 0;
  emergency_message_count_this_period = 0;
  counters = record {
    rate_limited = 0;
    emergency_rate_limited = 0;
    invalid_frames = 0;
    emergency_admitted = 0;
  };
  sequence = record { last_sequence_number = 0; sequence_initialized = false };
  client_online = false;
  heartbeat_pending = false;
  categories = system_category ∷ motor ∷ [];
  iso_tp_attached = false;
  app = 0;
}

abbrev move : ℕ
move = 0x4203005

abbrev turn : ℕ
turn = 0x4204005

make_can_id-move : make_can_id command 2 3 5 ≡ move
unfolding make_can_id
make_can_id-move = refl

move_is_handled : outcome tagged_ids 8 counting node move (7 ∷ 1 ∷ []) ≡ some handled
unfolding answer admit_command admit_found admit_sequenced handle_message is_command_message_type
    extract_can_message_type find_category extract_can_category extract_can_priority
    is_expected_sequence has_message_type
move_is_handled = refl

turn_answer : outcome tagged_ids 8 counting node turn (7 ∷ 1 ∷ []) ≡ some unknown_message_type
unfolding answer admit_command admit_found admit_sequenced handle_message is_command_message_type
    extract_can_message_type find_category extract_can_category extract_can_priority
    is_expected_sequence has_message_type
turn_answer = refl

turn_is_unknown : outcome tagged_ids 8 counting node turn (7 ∷ 1 ∷ []) ≢ some handled
turn_is_unknown e = let apart : some unknown_message_type ≡ some handled = sym turn_answer ∙ e in cc

execute-refused_example :
    core (execute tagged_ids 8 (handle_message tagged_ids 8 counting) node turn (7 ∷ 1 ∷ [])).0
    ≡ core (count_invalid tagged_ids 8 node)
execute-refused_example =
    execute-refused tagged_ids 8 counting node turn (7 ∷ 1 ∷ []) turn_is_unknown

execute-Accepted_example :
    (category : Category) × Accepted tagged_ids 8 counting node
      (execute tagged_ids 8 (handle_message tagged_ids 8 counting) node move (7 ∷ 1 ∷ [])).0
      move
      (7 ∷ 1 ∷ [])
      category
execute-Accepted_example =
    execute-Accepted tagged_ids 8 counting node move (7 ∷ 1 ∷ []) move_is_handled

motor_is_found : find_category (extract_can_category move) node.categories ≡ some motor
unfolding find_category extract_can_category
motor_is_found = refl

move_is_ordinary : is_emergency move ≡ false
unfolding extract_can_priority
move_is_ordinary = refl

execute-repeated_example :
    NotCalled tagged_ids 8 counting
      (execute tagged_ids 8 (handle_message tagged_ids 8 counting) node move (7 ∷ 1 ∷ [])).0
      move
      (7 ∷ 2 ∷ [])
execute-repeated_example =
    execute-repeated tagged_ids 8 counting node move 7 (1 ∷ []) motor move (2 ∷ []) motor
      move_is_handled motor_is_found refl motor_is_found refl move_is_ordinary (omega arith)

node-WithinBudget : WithinBudget node
node-WithinBudget = record {
  ordinary_used = omega arith;
  ordinary_limit = omega arith;
  emergency_used = omega arith;
  emergency_limit = omega arith;
}

abbrev burst : List ℕ
burst = move ∷ 5 ∷ move ∷ move ∷ 5 ∷ []

passed_lem_example :
    (of_class false (passed node burst) + 0 ≡ min 2 (0 + of_class false burst))
    × (of_class true (passed node burst) + 0 ≡ min 1 (0 + of_class true burst))
passed_lem_example = passed_lem node burst node-WithinBudget

node-IsValid : IsValid node
unfolding Distinct has_id find_category
node-IsValid = record { bounded = omega arith; distinct = (refl, (refl, refl)); system = refl }

register_category-IsValid_example :
    let (s', registered) = register_category node (record motor { id = 4 }) in
    IsValid s'
    × (if registered
        then find_category 2 s'.categories
          ≡ (if 4 == 2 then some (record motor { id = 4 }) else find_category 2 node.categories)
        else s' ≡ node)
register_category-IsValid_example =
    register_category-IsValid node (record motor { id = 4 }) 2 node-IsValid
