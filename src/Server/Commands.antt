-- ===== src/Server/Commands.antt =====
-- Commands, their sequence numbers and what a refusal leaves alone.
use can_lite.Base.{
  ℕ, ◌+◌, ◌<◌, ◌≡◌, ◌≢◌, inl, inr, refl, sym, ap, ◌∙◌, true, false, not, ◌&&◌, Option, none, some,
  List, [], ◌∷◌, if◌then◌else◌, Bool-cases, arith,
}
use can_lite.Base.Bits.{u32}
use can_lite.Codec.{Message}
use can_lite.Hal.{CanIds}
use can_lite.Protocol.{
  extract_can_category, extract_can_message_type, is_command_message_type, CanAckStatus,
  invalid_payload, sequence_error, unknown_command,
}
use can_lite.Server.{
  Server, Category, Sequence, Event, DispatchResult, handled, rejected, unknown_message_type,
  is_emergency, find_category, expected_sequence, is_expected_sequence, commit_sequence,
  accept_command, mark_client_alive,
}
use can_lite.Server.Dispatch.{
  Handlers, handle_message, admit_command, admit_found, admit_sequenced, reject_command, conclude,
  execute, execute_admitted, count_invalid,
}
use can_lite.Server.Core.{
  Core, core, core-send_command_ack, app-send_command_ack, core-handle_message,
}

pub some_inner {ℓ} : {A : Type ℓ} {a b : A} → some a ≡ some b → a ≡ b
some_inner e = cc

-- The sequence after a handled command, read off the category and the command's bytes.
unfoldable pub numbered : Category → Message → Sequence → Sequence
numbered category [] q = q
numbered category (byte ∷ payload) q =
    if category.requires_sequence_validation
    then record { last_sequence_number = byte; sequence_initialized = true }
    else q

commit_sequence-numbered :
    (category : Category) (payload : Message) (q : Sequence)
    → commit_sequence category payload q ≡ numbered category payload q
unfolding commit_sequence numbered
commit_sequence-numbered category [] q = refl
commit_sequence-numbered category (byte ∷ payload) q = refl

committed_sequence :
    (categories : List Category) (id byte : ℕ) (payload : Message) (category found : Category)
    (q q' : Sequence)
    → find_category id categories ≡ some found
    → find_category id categories ≡ some category
    → category.requires_sequence_validation ≡ true
    → q' ≡ numbered found (byte ∷ payload) q
    → (q'.last_sequence_number ≡ byte) × (q'.sequence_initialized ≡ true)
unfolding numbered
committed_sequence categories id byte payload category found q q' e e' sequenced committed =
    let same : found ≡ category = some_inner (sym e ∙ e') in
    let validates : found.requires_sequence_validation ≡ true =
      ap Category.requires_sequence_validation same ∙ sequenced in
    (ground arith, ground arith)

repeated_is_unexpected :
    (q : Sequence) (byte : ℕ)
    → byte < 256
    → q.last_sequence_number ≡ byte
    → q.sequence_initialized ≡ true
    → is_expected_sequence q byte ≡ false
unfolding is_expected_sequence expected_sequence
repeated_is_unexpected q byte small last initialized = ground arith

module _ (hal : CanIds) (max_size : ℕ) {App State : Type 0} where
  core-reject_command :
      (s : Server (hal.Ident) App State) (raw_id : ℕ) (status : CanAckStatus) (expected : ℕ)
      → core (reject_command hal max_size s raw_id status expected).0
        ≡ core (count_invalid hal max_size s)
  unfolding reject_command
  core-reject_command s raw_id status expected =
      core-send_command_ack hal max_size (count_invalid hal max_size s) _ _ status expected

  app-reject_command :
      (s : Server (hal.Ident) App State) (raw_id : ℕ) (status : CanAckStatus) (expected : ℕ)
      → (reject_command hal max_size s raw_id status expected).0.app ≡ s.app
  unfolding reject_command
  app-reject_command s raw_id status expected =
      app-send_command_ack hal max_size (count_invalid hal max_size s) _ _ status expected

  -- A refused admission counts an invalid frame and nothing else.
  record Refused (s s' : Server (hal.Ident) App State) : Type 0 where
    same_core : core s' ≡ core (count_invalid hal max_size s)
    same_app : s'.app ≡ s.app

  Refused-reject_command :
      (s : Server (hal.Ident) App State) (raw_id : ℕ) (status : CanAckStatus) (expected : ℕ)
      → Refused s (reject_command hal max_size s raw_id status expected).0
  Refused-reject_command s raw_id status expected = record {
    same_core = core-reject_command s raw_id status expected;
    same_app = app-reject_command s raw_id status expected;
  }

  data Admission (s : Server (hal.Ident) App State) (raw_id : ℕ) (payload : Message)
      : Server (hal.Ident) App State × List (Event (hal.Ident) App) × Option Category → Type 0 where
    refused :
        (s' : Server (hal.Ident) App State) (out : List (Event (hal.Ident) App))
        → Refused s s'
        → Admission s raw_id payload (s', out, none)
    admitted :
        (category : Category)
        → find_category (extract_can_category raw_id) s.categories ≡ some category
        → Admission s raw_id payload (s, [], some category)

  admit_sequenced-Admission :
      (s : Server (hal.Ident) App State) (raw_id : ℕ) (category : Category) (payload : Message)
      → find_category (extract_can_category raw_id) s.categories ≡ some category
      → Admission s raw_id payload (admit_sequenced hal max_size s raw_id category payload)
  unfolding admit_sequenced
  admit_sequenced-Admission s raw_id category [] found =
      refused _ _ (Refused-reject_command s raw_id invalid_payload 0)
  admit_sequenced-Admission s raw_id category (byte ∷ payload) found =
      elim (Bool-cases (not (is_emergency raw_id) && not (is_expected_sequence s.sequence byte))) [
        | inl wrong ↦ rw wrong (
            refused _ _
              (Refused-reject_command s raw_id sequence_error (expected_sequence s.sequence)))
        | inr fine ↦ rw fine (admitted category found)
      ]

  admit_found-Admission :
      (s : Server (hal.Ident) App State) (raw_id : ℕ) (payload : Message) (found : Option Category)
      → ((category : Category)
          → found ≡ some category
          → find_category (extract_can_category raw_id) s.categories ≡ some category)
      → Admission s raw_id payload (admit_found hal max_size s raw_id payload found)
  unfolding admit_found
  admit_found-Admission s raw_id payload none is_found =
      refused _ _ (record { same_core = refl; same_app = refl })
  admit_found-Admission s raw_id payload (some category) is_found =
      elim (Bool-cases category.requires_sequence_validation) [
        | inl sequenced ↦
            simp sequenced
              (admit_sequenced-Admission s raw_id category payload (is_found category refl))
        | inr free ↦ simp free (admitted category (is_found category refl))
      ]

  admit_command-Admission :
      (s : Server (hal.Ident) App State) (raw_id : ℕ) (payload : Message)
      → Admission s raw_id payload (admit_command hal max_size s raw_id payload)
  unfolding admit_command
  admit_command-Admission s raw_id payload =
      admit_found-Admission s raw_id payload _ (λ category e. ground arith)

  -- The state that a command reaches when its handler is called.
  abbrev committed :
      Server (hal.Ident) App State → Category → Message → Server (hal.Ident) App State
  committed s category payload = record s { sequence = commit_sequence category payload s.sequence }

  module _ (handlers : Handlers State) where
    -- What the handler of an admitted command answers.
    unfoldable pub answer :
        Server (hal.Ident) App State × List (Event (hal.Ident) App) × Option Category
        → ℕ
        → Message
        → Option DispatchResult
    answer (s, out, none) raw_id payload = none
    answer (s, out, some category) raw_id payload =
        some
          (handle_message hal max_size handlers (committed s category payload) category
            (extract_can_message_type raw_id) payload).2

    -- `none` for a command that is not admitted.
    abbrev pub outcome : Server (hal.Ident) App State → ℕ → Message → Option DispatchResult
    outcome s raw_id payload = answer (admit_command hal max_size s raw_id payload) raw_id payload

    core-conclude_refused :
        (s : Server (hal.Ident) App State) (s1 : Server (hal.Ident) App State) (raw_id : ℕ)
        (q : Sequence) (result : DispatchResult)
        → core s1 ≡ core (record s { sequence = q })
        → result ≢ handled
        → core (conclude hal max_size s1 raw_id s.sequence result).0
          ≡ core (count_invalid hal max_size s)
    unfolding conclude
    core-conclude_refused s s1 raw_id q handled e denied = absurd (denied refl)
    core-conclude_refused s s1 raw_id q rejected e denied =
        core-reject_command (record s1 { sequence = s.sequence }) raw_id invalid_payload 0
        ∙ ap
            (λ (c : Core). record c {
              sequence = s.sequence;
              counters = record (c.counters) {
                invalid_frames = u32 (c.counters.invalid_frames + 1);
              };
            })
            e
    core-conclude_refused s s1 raw_id q unknown_message_type e denied =
        core-reject_command (record s1 { sequence = s.sequence }) raw_id unknown_command 0
        ∙ ap
            (λ (c : Core). record c {
              sequence = s.sequence;
              counters = record (c.counters) {
                invalid_frames = u32 (c.counters.invalid_frames + 1);
              };
            })
            e

    refused_at :
        (s : Server (hal.Ident) App State) (raw_id : ℕ) (payload : Message)
        (a : Server (hal.Ident) App State × List (Event (hal.Ident) App) × Option Category)
        → Admission s raw_id payload a
        → answer a raw_id payload ≢ some handled
        → core
            (execute_admitted hal max_size
              (handle_message hal max_size handlers)
              raw_id
              payload
              a).0
          ≡ core (count_invalid hal max_size s)
    unfolding execute_admitted answer
    refused_at s raw_id payload _ (refused s' out r) denied = r.same_core
    refused_at s raw_id payload _ (admitted category found) denied =
        core-conclude_refused s _ raw_id (commit_sequence category payload s.sequence) _
          (core-handle_message hal max_size handlers (committed s category payload) category
            (extract_can_message_type raw_id) payload)
          (λ e. denied (ap some e))

    -- A command that is not admitted, or whose handler refuses it or does not know it, changes
    -- nothing but the count of invalid frames in the server: not the sequence number that is
    -- expected next, not whether the client counts as online, not the rate budget or the
    -- categories. (The transport and the heartbeats, which the refusal's acknowledgement goes
    -- through, are not compared.)
    pub execute-refused :
        (s : Server (hal.Ident) App State) (raw_id : ℕ) (payload : Message)
        → outcome s raw_id payload ≢ some handled
        → core (execute hal max_size (handle_message hal max_size handlers) s raw_id payload).0
          ≡ core (count_invalid hal max_size s)
    unfolding execute
    execute-refused s raw_id payload denied =
        refused_at s raw_id payload (admit_command hal max_size s raw_id payload)
          (admit_command-Admission s raw_id payload) denied

    -- What a command that its handler took leaves behind.
    pub record Accepted (s s' : Server (hal.Ident) App State) (raw_id : ℕ) (payload : Message)
        (category : Category) : Type 0 where
      pub found : find_category (extract_can_category raw_id) s.categories ≡ some category
      pub sequence : s'.sequence ≡ numbered category payload s.sequence
      pub alive : s'.client_online ≡ true
      pub timer : s'.client_liveness_timer ≡ some s.config.client_timeout
      pub counters : s'.counters ≡ (
          if is_emergency raw_id
          then record (s.counters) { emergency_admitted = u32 (s.counters.emergency_admitted + 1) }
          else s.counters)
      pub categories : s'.categories ≡ s.categories

    committed-Accepted :
        (s s1 : Server (hal.Ident) App State) (raw_id : ℕ) (payload : Message) (category : Category)
        → find_category (extract_can_category raw_id) s.categories ≡ some category
        → core s1 ≡ core (committed s category payload)
        → Accepted s (accept_command s1 raw_id).0 raw_id payload category
    unfolding accept_command mark_client_alive
    committed-Accepted s s1 raw_id payload category found e = record {
      found = found;
      sequence =
          ground (arith, ap Core.sequence e) ∙ commit_sequence-numbered category payload s.sequence;
      alive = ground arith;
      timer = ground (arith, ap Core.config e);
      counters = ground (arith, ap Core.counters e);
      categories = ground (arith, ap Core.categories e);
    }

    admitted-Accepted :
        (s : Server (hal.Ident) App State) (raw_id : ℕ) (payload : Message)
        (a : Server (hal.Ident) App State × List (Event (hal.Ident) App) × Option Category)
        → Admission s raw_id payload a
        → answer a raw_id payload ≡ some handled
        → (category : Category) × Accepted s
            (execute_admitted hal max_size
              (handle_message hal max_size handlers)
              raw_id
              payload
              a).0
            raw_id
            payload
            category
    unfolding execute_admitted answer conclude
    admitted-Accepted s raw_id payload _ (refused s' out r) taken = absurd cc
    admitted-Accepted s raw_id payload _ (admitted category found) taken = (
      category,
      rw (some_inner taken) (
          committed-Accepted s _ raw_id payload category found (
            core-handle_message hal max_size handlers (committed s category payload) category
              (extract_can_message_type raw_id) payload)),
    )

    -- A command that its handler took was addressed to a registered category. It makes its first
    -- byte the last sequence number (where that category validates sequences), marks the client as
    -- online and starts its liveness timer anew; it counts as an admitted emergency exactly if its
    -- identifier has that priority, and no other counter and no registration changes.
    pub execute-Accepted :
        (s : Server (hal.Ident) App State) (raw_id : ℕ) (payload : Message)
        → outcome s raw_id payload ≡ some handled
        → (category : Category) × Accepted s
            (execute hal max_size (handle_message hal max_size handlers) s raw_id payload).0
            raw_id
            payload
            category
    unfolding execute
    execute-Accepted s raw_id payload taken =
        admitted-Accepted s raw_id payload (admit_command hal max_size s raw_id payload)
          (admit_command-Admission s raw_id payload) taken

    -- Nothing is left of an admission but its refusal.
    pub record NotCalled (s : Server (hal.Ident) App State) (raw_id : ℕ) (payload : Message)
        : Type 0 where
      pub not_admitted : outcome s raw_id payload ≡ none
      pub same_app :
          (execute hal max_size (handle_message hal max_size handlers) s raw_id payload).0.app
          ≡ s.app

    none_admitted :
        (s : Server (hal.Ident) App State) (raw_id : ℕ) (payload : Message)
        (a : Server (hal.Ident) App State × List (Event (hal.Ident) App) × Option Category)
        → Admission s raw_id payload a
        → a.2 ≡ none
        → (answer a raw_id payload ≡ none)
          × ((execute_admitted hal max_size
                (handle_message hal max_size handlers)
                raw_id
                payload
                a).0.app
              ≡ s.app)
    unfolding execute_admitted answer
    none_admitted s raw_id payload _ (refused s' out r) nothing = (refl, r.same_app)
    none_admitted s raw_id payload _ (admitted category found) nothing = absurd cc

    unexpected_is_not_admitted :
        (s : Server (hal.Ident) App State) (raw_id byte : ℕ) (payload : Message)
        (category : Category)
        → find_category (extract_can_category raw_id) s.categories ≡ some category
        → category.requires_sequence_validation ≡ true
        → is_emergency raw_id ≡ false
        → is_expected_sequence s.sequence byte ≡ false
        → (admit_command hal max_size s raw_id (byte ∷ payload)).2 ≡ none
    unfolding admit_command admit_found admit_sequenced
    unexpected_is_not_admitted s raw_id byte payload category found sequenced ordinary unexpected =
        elim (Bool-cases (is_command_message_type (extract_can_message_type raw_id))) [
          | inl command ↦ ground arith
          | inr other ↦ ground arith
        ]

    -- Directly after a command of a category that validates sequences was handled, with sequence
    -- number `byte`, no command to such a category with the same number is admitted, whatever its
    -- type and payload, unless it is an emergency: no handler is called for it, so a frame received
    -- twice in a row is carried out once.
    pub execute-repeated :
        (s : Server (hal.Ident) App State) (first byte : ℕ) (payload : Message)
        (category : Category) (second : ℕ) (payload' : Message) (category' : Category)
        → outcome s first (byte ∷ payload) ≡ some handled
        → find_category (extract_can_category first) s.categories ≡ some category
        → category.requires_sequence_validation ≡ true
        → find_category (extract_can_category second) s.categories ≡ some category'
        → category'.requires_sequence_validation ≡ true
        → is_emergency second ≡ false
        → byte < 256
        → NotCalled
            (execute hal max_size (handle_message hal max_size handlers) s first (byte ∷ payload)).0
            second
            (byte ∷ payload')
    unfolding execute
    execute-repeated s first byte payload category second payload' category' taken found sequenced
          found' sequenced' ordinary small =
        let s' =
          (execute hal max_size (handle_message hal max_size handlers) s first
            (byte ∷ payload)).0 in
        let (found_category, accepted) = execute-Accepted s first (byte ∷ payload) taken in
        let (last, initialized) =
          committed_sequence s.categories (extract_can_category first) byte payload category
            found_category s.sequence s'.sequence accepted.found found sequenced
            accepted.sequence in
        let (none_answered, app) =
          none_admitted s' second (byte ∷ payload')
            (admit_command hal max_size s' second (byte ∷ payload'))
            (admit_command-Admission s' second (byte ∷ payload'))
            (unexpected_is_not_admitted s' second byte payload' category'
              (ap (find_category (extract_can_category second)) accepted.categories ∙ found')
              sequenced' ordinary
              (repeated_is_unexpected s'.sequence byte small last initialized)) in
        record { not_admitted = none_answered; same_app = app }
