-- ===== src/Server/Handled.antt =====
-- can-lite/server/CanProtocolServer.cpp (`ExecuteCommand`): a command that is admitted and that its
-- handler takes.
use can_lite.Base.{ℕ, ◌≡◌, refl, sym, ap, ◌∙◌, true, false, some, [], ◌∷◌, ◌==◌, arith}
use can_lite.Codec.{Message}
use can_lite.Hal.{CanIds}
use can_lite.Protocol.{extract_can_category, extract_can_message_type, is_command_message_type}
use can_lite.Server.{
  Server, Category, handled, find_category, is_expected_sequence, accept_command, mark_client_alive,
  system_category, commit_sequence,
}
use can_lite.Server.Dispatch.{
  Handlers, handle_message, has_message_type, admit_command, admit_found, admit_sequenced, execute,
  execute_admitted, conclude,
}
use can_lite.Server.Core.{app-send_replies}
use can_lite.Server.Commands.{outcome, answer, numbered, execute-Accepted, some_inner}

module _ (hal : CanIds) (max_size : ℕ) {App State : Type 0} (handlers : Handlers State) where
  -- A command of a registered category that the server is to admit.
  pub record Acceptable (s : Server (hal.Ident) App State) (raw_id byte : ℕ) (category : Category)
      : Type 0 where
    pub is_command : is_command_message_type (extract_can_message_type raw_id) ≡ true
    pub found : find_category (extract_can_category raw_id) s.categories ≡ some category
    pub sequenced : category.requires_sequence_validation ≡ true
    pub own : (category.key == system_category.key) ≡ false
    pub listed : has_message_type (extract_can_message_type raw_id) category.message_types ≡ true
    pub expected : is_expected_sequence s.sequence byte ≡ true

  admitted_lem :
      (s : Server (hal.Ident) App State) (raw_id byte : ℕ) (payload : Message) (category : Category)
      → Acceptable s raw_id byte category
      → admit_command hal max_size s raw_id (byte ∷ payload) ≡ (s, [], some category)
  unfolding admit_command admit_found admit_sequenced
  admitted_lem s raw_id byte payload category ok =
      ground (arith, ok.is_command, ok.found, ok.sequenced, ok.expected)

  app-handle_message :
      (s : Server (hal.Ident) App State) (category : Category) (message_type : ℕ)
      (content : Message)
      → has_message_type message_type category.message_types ≡ true
      → (category.key == system_category.key) ≡ false
      → (handlers.handle category.key message_type s.app content).2 ≡ true
      → let (s', out, result) =
          handle_message hal max_size handlers s category message_type content in
        (s'.app ≡ (handlers.handle category.key message_type s.app content).0) × (result ≡ handled)
  unfolding handle_message
  app-handle_message s category message_type content listed own taken =
      let (app, replies, answered) = handlers.handle category.key message_type s.app content in
      rw (listed, own, taken)
        (app-send_replies hal max_size (record s { app = app }) category replies, refl)

  app-accept_command :
      (s : Server (hal.Ident) App State) (raw_id : ℕ) → (accept_command s raw_id).0.app ≡ s.app
  unfolding accept_command mark_client_alive
  app-accept_command s raw_id = ground arith

  -- What a server has become by handling the command.
  pub record Handled (s s' : Server (hal.Ident) App State) (raw_id byte : ℕ) (payload : Message)
      (category : Category) : Type 0 where
    pub answered : outcome hal max_size handlers s raw_id (byte ∷ payload) ≡ some handled
    pub app :
        (s'.app
          ≡ (handlers.handle category.key
              (extract_can_message_type raw_id)
              s.app
              (byte ∷ payload)).0)
    pub sequence : s'.sequence ≡ record { last_sequence_number = byte; sequence_initialized = true }
    pub categories : s'.categories ≡ s.categories

  pub execute-Handled :
      (s : Server (hal.Ident) App State) (raw_id byte : ℕ) (payload : Message) (category : Category)
      → Acceptable s raw_id byte category
      → (handlers.handle category.key (extract_can_message_type raw_id) s.app (byte ∷ payload)).2
        ≡ true
      → Handled s
          (execute hal max_size (handle_message hal max_size handlers) s raw_id (byte ∷ payload)).0
          raw_id
          byte
          payload
          category
  unfolding execute execute_admitted conclude answer numbered
  execute-Handled s raw_id byte payload category ok taken =
      let message_type = extract_can_message_type raw_id in
      let content = byte ∷ payload in
      let admitted = admitted_lem s raw_id byte payload category ok in
      let committed = record s { sequence = commit_sequence category content s.sequence } in
      let (app, result) =
        app-handle_message committed category message_type content ok.listed ok.own taken in
      let s1 = (handle_message hal max_size handlers committed category message_type content).0 in
      let answered : outcome hal max_size handlers s raw_id content ≡ some handled =
        ap (λ a. answer hal max_size handlers a raw_id content) admitted ∙ ap some result in
      let (found_category, accepted) =
        execute-Accepted hal max_size handlers s raw_id content answered in
      let same : found_category ≡ category = some_inner (sym accepted.found ∙ ok.found) in
      record {
        answered = answered;
        app =
            ap
              (λ a.
                (execute_admitted hal max_size (handle_message hal max_size handlers) raw_id content
                  a).0.app)
              admitted
            ∙ ap (λ r. (conclude hal max_size s1 raw_id s.sequence r).0.app) result
            ∙ app-accept_command s1 raw_id
            ∙ app;
        sequence =
            accepted.sequence
            ∙ ap (λ (c : Category). numbered c content s.sequence) same
            ∙ rw ok.sequenced refl;
        categories = accepted.categories;
      }
