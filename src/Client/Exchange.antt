-- ===== src/Client/Exchange.antt =====
-- can-lite/core/CanCategory.cpp (`CanCategoryClient::SendCommand`), can-lite/client/CanProtocolClient.cpp
-- (`ReserveSequence`) and can-lite/server/CanProtocolServer.cpp (`ExecuteCommand`) together: commands
-- of one client to one server over a bus that loses nothing.
use can_lite.Base.{
  ℕ, ◌+◌, ◌≤◌, ◌<◌, ◌≡◌, true, false, Option, some, List, [], ◌∷◌, ◌==◌, length, ◌%◌,
}
use can_lite.Codec.{Message}
use can_lite.Hal.{CanIds}
use can_lite.Protocol as Wire
use can_lite.Protocol.{make_can_id, is_command_message_type}
use can_lite.Server.{Server, Category, DispatchResult, find_category, system_category}
use can_lite.Server.Dispatch.{Handlers, handle_message, has_message_type, execute}
use can_lite.Server.Commands.{outcome}
use can_lite.Client.{Sequences, reserve_sequence}
use can_lite.Client.Sending.{command_data}

pub record Command : Type 0 where
  pub message_type : ℕ
  pub payload : Message
  pub deadline : ℕ

-- The number that the client uses next for the server.
unfoldable pub Next : ℕ → Sequences → ℕ → Type 0
Next node_id c number =
    (category message_type deadline : ℕ)
    → (reserve_sequence c node_id category message_type deadline).1 ≡ number

-- A command that the category lists and that fits a frame behind its number.
pub record Sendable (max_size : ℕ) (category : Category) (command : Command) : Type 0 where
  pub byte : command.message_type < 256
  pub is_command : is_command_message_type command.message_type ≡ true
  pub listed : has_message_type command.message_type category.message_types ≡ true
  pub fits : 1 + length command.payload ≤ max_size

-- A registered category of the server that is not its own and requires sequence numbers.
pub record Serving {Ident App State : Type 0} (s : Server Ident App State) (category : Category)
    : Type 0 where
  pub identifier : category.id < 16
  pub found : find_category category.id s.categories ≡ some category
  pub sequenced : category.requires_sequence_validation ≡ true
  pub own : (category.key == system_category.key) ≡ false

-- The category's handler, called with the payloads in turn, each behind its number.
unfoldable pub handled_in_turn :
    {State : Type 0} → Handlers State → ℕ → State → ℕ → List Command → State
handled_in_turn handlers key app number [] = app
handled_in_turn handlers key app number (command ∷ commands) =
    let (app', replies, taken) =
      handlers.handle key command.message_type app (number ∷ command.payload) in
    handled_in_turn handlers key app' ((number + 1) % 256) commands

module _ (hal : CanIds) (max_size : ℕ) {App State : Type 0} (handlers : Handlers State)
    (node_id : ℕ) (category : Category) where
  -- The client sends the commands in turn and the server executes each: the server at the end, and
  -- what became of each command.
  unfoldable pub exchange :
      Server (hal.Ident) App State
      → Sequences
      → List Command
      → Server (hal.Ident) App State × List (Option DispatchResult)
  unfolding command_data reserve_sequence execute
  exchange s c [] = (s, [])
  exchange s c (command ∷ commands) =
      let (c', number) =
        reserve_sequence c node_id category.id command.message_type command.deadline in
      let raw_id = make_can_id Wire.command category.id command.message_type node_id in
      let content = (command_data max_size number command.payload).message in
      let (s', out) =
        execute hal max_size (handle_message hal max_size handlers) s raw_id content in
      let (s2, results) = exchange s' c' commands in
      (s2, outcome hal max_size handlers s raw_id content ∷ results)
