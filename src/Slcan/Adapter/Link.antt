-- ===== src/Slcan/Adapter/Link.antt =====
-- can-lite/drivers/implementation/SlcanAdapter.cpp: what each method does to the link and tells the
-- observers of it.
use can_lite.Base.{
  ℕ, zero, suc, ◌≤◌, ◌≡◌, refl, ap, ◌∙◌, inl, inr, Bool, true, false, not, ◌&&◌, ◌||◌, Option, none,
  some, List, [], ◌∷◌, ◌++◌, if◌then◌else◌, Bool-cases, arith,
}
use can_lite.Codec.{Message}
use can_lite.Hal.{CanIds}
use can_lite.Slcan.{Item, frame, error, feed, slcan_bitrate_code, encode_slcan_frame}
use can_lite.Slcan.Adapter.{
  Adapter, LinkState, closed_link, opening_link, open_link, Event, port_opened, port_closed,
  written, reported, connection_changed, frame_logged, delivered, is_open, is_closed, is_event,
  SerialPortOpenResult, is_opened, close, disconnect, connect_closed, connect, schedule_completion,
  send_data, complete_handshake, handshake, deliver, dispatch_running, dispatch_in, dispatch,
  drop_link, feed_bytes, read_available, read_chunks, command_rejected, not_sent, disconnected,
}

abbrev pub is_opening : LinkState → Bool
is_opening opening_link = true
is_opening _ = false

-- The handshake's timer runs while the link opens, and fewer than three replies have come by then.
pub record IsValid {App : Type 0} (a : Adapter App) : Type 0 where
  pub timer : a.handshake_timer ≡ is_opening a.state
  pub replies : is_opening a.state ≡ true → a.replies_received ≤ 2

-- What an observer knows that knew `known` before.
abbrev pub told : {Ident : Type 0} → Bool → List (Event Ident) → Bool
told known [] = known
told known (connection_changed connected ∷ events) = told connected events
told known (event ∷ events) = told known events

told-append :
    {Ident : Type 0} (known : Bool) (xs ys : List (Event Ident))
    → told known (xs ++ ys) ≡ told (told known xs) ys
told-append known [] ys = refl
told-append known (connection_changed connected ∷ xs) ys = told-append connected xs ys
told-append known (port_opened ∷ xs) ys = told-append known xs ys
told-append known (port_closed ∷ xs) ys = told-append known xs ys
told-append known (written bytes ∷ xs) ys = told-append known xs ys
told-append known (reported reason ∷ xs) ys = told-append known xs ys
told-append known (frame_logged transmitted id content ∷ xs) ys = told-append known xs ys
told-append known (delivered id content ∷ xs) ys = told-append known xs ys

-- A step keeps the adapter valid, and its observers know whether the link is open.
pub record Kept {Ident App : Type 0} (a a' : Adapter App) (out : List (Event Ident)) : Type 0 where
  pub valid : IsValid a'
  pub known : told (is_open a.state) out ≡ is_open a'.state

module _ {Ident App : Type 0} where
  pub then-Kept :
      (a1 a2 a3 : Adapter App) (out more : List (Event Ident))
      → Kept a1 a2 out
      → Kept a2 a3 more
      → Kept a1 a3 (out ++ more)
  then-Kept a1 a2 a3 out more first next = record {
    valid = next.valid;
    known =
        told-append (is_open a1.state) out more ∙ ap (λ b. told b more) first.known ∙ next.known;
  }

  pub either-Kept :
      (a : Adapter App) (b : Bool) (x y : Adapter App × List (Event Ident))
      → Kept a x.0 x.1
      → Kept a y.0 y.1
      → let out = if b then x else y in Kept a out.0 out.1
  either-Kept a true x y left right = left
  either-Kept a false x y left right = right

  pub idle-Kept : (a : Adapter App) → IsValid a → Kept {Ident = Ident} a a []
  idle-Kept a valid = record { valid = valid; known = refl }

module _ (hal : CanIds) {App : Type 0} where
  pub close-Kept :
      (a : Adapter App) (reports : List (Event (hal.Ident)))
      → Kept a (close hal a reports).0 (close hal a reports).1
  unfolding close
  close-Kept a reports = record {
    valid = record { timer = refl; replies = λ opening. absurd cc };
    known = told-append (is_open a.state) reports (connection_changed false ∷ []);
  }

  pub disconnect-Kept :
      (a : Adapter App) → IsValid a → Kept a (disconnect hal a).0 (disconnect hal a).1
  unfolding disconnect
  disconnect-Kept a valid =
      either-Kept a (is_closed a.state) (a, []) (_, _) (idle-Kept a valid)
        (record { valid = (close-Kept a []).valid; known = (close-Kept a []).known })

  connect_closed-Kept :
      (a : Adapter App) (code : Option ℕ) (result : SerialPortOpenResult) (taken : Bool)
      → IsValid a
      → is_open a.state ≡ false
      → let out = connect_closed hal a code result taken in Kept a out.0 out.1
  unfolding connect_closed
  connect_closed-Kept a none result taken valid down = record { valid = valid; known = refl }
  connect_closed-Kept a (some code) result taken valid down = elim (Bool-cases (is_opened result)) [
    | inr fails ↦ rw fails (record { valid = valid; known = refl })
    | inl fine ↦ elim (Bool-cases taken) [
      | inr lost ↦ rw (fine, lost) (record { valid = valid; known = refl })
      | inl sent ↦
          rw (fine, sent)
            (record {
              valid = record { timer = refl; replies = λ opening. omega arith };
              known = down;
            })
    ]
  ]

  handshake-Kept :
      (a : Adapter App) (item : Item)
      → IsValid a
      → a.state ≡ opening_link
      → Kept a (handshake hal a item).0 (handshake hal a item).1
  unfolding handshake complete_handshake close
  handshake-Kept a item valid opening =
      let running = valid.timer in
      let few = valid.replies (ap is_opening opening) in
      let state_known = ap is_open opening in
      let state_opening = ap is_opening opening in
      record {
        valid = record {
          timer = ground (arith, running, state_opening);
          replies = λ still. ground (arith, few, still);
        };
        known = ground (arith, state_known);
      }

  told-deliver :
      (a : Adapter App) (known : Bool) (item : Item)
      → told known (deliver hal a item.item_frame) ≡ known
  unfolding deliver
  told-deliver a known item = elim (Bool-cases a.has_receive_callback) [
    | inl set ↦ rw set
    | inr unset ↦ rw unset
  ]

  -- Outside the handshake an item changes nothing of the link.
  running-Kept :
      (a : Adapter App) (item : Item)
      → IsValid a
      → Kept a (dispatch_running hal a item).0 (dispatch_running hal a item).1
  unfolding dispatch_running
  running-Kept a item valid =
      either-Kept a (is_event item.event error) (a, reported command_rejected ∷ [])
        (if is_event item.event frame && item.item_frame.extended && not item.item_frame.remote
          then (a, deliver hal a item.item_frame)
          else (a, []))
        (record { valid = valid; known = refl })
        (either-Kept a
          (is_event item.event frame && item.item_frame.extended && not item.item_frame.remote)
          (a, deliver hal a item.item_frame) (a, [])
          (record { valid = valid; known = told-deliver a (is_open a.state) item })
          (idle-Kept a valid))

  dispatch_in-Kept :
      (a : Adapter App) (state : LinkState) (item : Item)
      → IsValid a
      → a.state ≡ state
      → Kept a (dispatch_in hal state a item).0 (dispatch_in hal state a item).1
  unfolding dispatch_in
  dispatch_in-Kept a opening_link item valid e = handshake-Kept a item valid e
  dispatch_in-Kept a closed_link item valid e = running-Kept a item valid
  dispatch_in-Kept a open_link item valid e = running-Kept a item valid

  dispatch-Kept :
      (a : Adapter App) (item : Option Item)
      → IsValid a
      → Kept a (dispatch hal a item).0 (dispatch hal a item).1
  unfolding dispatch
  dispatch-Kept a none valid = idle-Kept a valid
  dispatch-Kept a (some item) valid = dispatch_in-Kept a a.state item valid refl

  feed_bytes-Kept :
      (bytes : List ℕ) (a : Adapter App)
      → IsValid a
      → Kept a (feed_bytes hal a bytes).0 (feed_bytes hal a bytes).1
  unfolding feed_bytes
  feed_bytes-Kept [] a valid = idle-Kept a valid
  feed_bytes-Kept (byte ∷ bytes) a valid =
      let (decoder, item) = feed a.decoder byte in
      let fed : Adapter App = record a { decoder = decoder } in
      let (a1, out) = dispatch hal fed item in
      let (a2, more) = feed_bytes hal a1 bytes in
      let first =
        dispatch-Kept fed item (record { timer = valid.timer; replies = valid.replies }) in
      either-Kept a (is_closed a.state) (a, []) (a2, out ++ more) (idle-Kept a valid)
        (then-Kept a a1 a2 out more (record { valid = first.valid; known = first.known })
          (feed_bytes-Kept bytes a1 first.valid))

  read_available-Kept :
      (a : Adapter App) (answer : Option (List ℕ))
      → IsValid a
      → Kept a (read_available hal a answer).0 (read_available hal a answer).1
  unfolding read_available
  read_available-Kept a none valid = close-Kept a (reported disconnected ∷ [])
  read_available-Kept a (some bytes) valid = feed_bytes-Kept bytes a valid

  pub read_chunks-Kept :
      (chunks : ℕ) (answers : List (Option (List ℕ))) (a : Adapter App)
      → IsValid a
      → Kept a (read_chunks hal chunks a answers).0 (read_chunks hal chunks a answers).1
  unfolding read_chunks
  read_chunks-Kept zero answers a valid = idle-Kept a valid
  read_chunks-Kept (suc chunks) [] a valid = idle-Kept a valid
  read_chunks-Kept (suc chunks) (answer ∷ answers) a valid =
      let (a1, out, full) = read_available hal a answer in
      let (a2, more) = read_chunks hal chunks a1 answers in
      let first = read_available-Kept a answer valid in
      either-Kept a (is_closed a.state) (a, []) (if full then (a2, out ++ more) else (a1, out))
        (idle-Kept a valid)
        (either-Kept a full (a2, out ++ more) (a1, out)
          (then-Kept a a1 a2 out more first (read_chunks-Kept chunks answers a1 first.valid)) first)

  drop_link-Kept : (a : Adapter App) → IsValid a → Kept a (drop_link hal a).0 (drop_link hal a).1
  unfolding drop_link
  drop_link-Kept a valid =
      either-Kept a (is_open a.state) (disconnect hal a) (a, []) (disconnect-Kept a valid)
        (idle-Kept a valid)

  drop_link_down : (a : Adapter App) → is_open (drop_link hal a).0.state ≡ false
  unfolding drop_link disconnect close
  drop_link_down a = ground arith

  pub send_data-Kept :
      (a : Adapter App) (id : hal.Ident) (content : Message) (action : App) (taken : Bool)
      → IsValid a
      → let out = send_data hal a id content action taken in Kept a out.0 out.1
  unfolding send_data
  send_data-Kept a id content action taken valid =
      let raw_id = hal.get_29_bit_id id in
      let out : List (Event (hal.Ident)) =
        written (encode_slcan_frame raw_id true content)
        ∷ (if taken then frame_logged true raw_id content else reported not_sent)
        ∷ [] in
      either-Kept a (not (is_open a.state) || not (hal.is_29_bit_id id))
        (schedule_completion hal a action false, []) (schedule_completion hal a action taken, out)
        (record { valid = record { timer = valid.timer; replies = valid.replies }; known = refl })
        (record {
          valid = record { timer = valid.timer; replies = valid.replies };
          known = elim (Bool-cases taken) [ inl sent ↦ rw sent | inr lost ↦ rw lost ];
        })

  pub connect-Kept :
      (a : Adapter App) (bitrate : ℕ) (result : SerialPortOpenResult) (taken : Bool)
      → IsValid a
      → let out = connect hal a bitrate result taken in Kept a out.0 out.1
  unfolding connect
  connect-Kept a bitrate result taken valid =
      let dropped = drop_link-Kept a valid in
      let (a1, out) = drop_link hal a in
      then-Kept a a1 _ out _ dropped (
        connect_closed-Kept a1 (slcan_bitrate_code bitrate) result taken dropped.valid
          (drop_link_down a))
