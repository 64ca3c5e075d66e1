-- ===== src/Journey.antt =====
-- A chat message from one window to another: the window and the client of the sender, the server,
-- and the client and the window of the receiver, each with its own json library.
use qt_chat.Base.{
  ℕ, String, ◌≡◌, ◌≢◌, refl, sym, ap, ◌∙◌, Bool, true, false, List, [], ◌∷◌, append-nil, Option,
  none, some, arith,
}
use qt_chat.Base.Tests.{if◌then◌else◌, if-true, if-false}
use qt_chat.Base.Int.{ℤ, pos, minus_one, eq_ℤ_iff}
use qt_chat.Base.Lists.{Str, codes, is_empty, str_eq}
use qt_chat.Base.Map.{lookup, insert, int_eq, str_key}
use qt_chat.Wire.{packet, deliver}
use qt_chat.Wire.Frames.{Fits}
use qt_chat.Wire.Stream.{deliver-stream}
use qt_chat.Server.Api.{JsonApi, Mysql, Pubsub, Field, num, text}
use qt_chat.Server.State.{Conn, State, sent, ◌>>=◌}
use qt_chat.Server.Replies.{msgid, msg_code, one_chat_msg}
use qt_chat.Server.Routing.{Serving, delivery, deliver_to, away, one_chat_once}
use qt_chat.Server.Dispatch.{
  handle_body, handle_json, get_handler, handlers, or_default, update_conn_time, server_read,
  on_parsed,
}
use qt_chat.Client.{QtJson, Client, wrote, signal, received_chat, put}
use qt_chat.Client.Calls.{ask_one_chat, ask_group_chat}
use qt_chat.Client.Reading.{reads_stream}
use qt_chat.Client.Messages.{on_ready_read, handle_bytes, handle_message, on_document, cases}
use qt_chat.Window.{QtText, ChatMsg, Window}
use qt_chat.Window.Chat.{history_of, push_bounded, append_to_history, add_message}
use qt_chat.Window.Actions.{on_send, send_text, own_message, post}
use qt_chat.Window.Slots.{received, on_chat_msg}
use qt_chat.Window.Runs.{step, entries, chat_msg}
use qt_chat.Window.Pushes.{pushes}
use qt_chat.Window.History.{step-history}
use qt_chat.Window.Screens.{pick_self}

-- The first field with the key.
unfoldable pub field : String → List (String × Field) → Option Field
field key [] = none
field key ((k, f) ∷ fs) = if str_eq (codes k) (codes key) then some f else field key fs

-- What the json libraries do with an object of these fields: the text that Qt writes parses on the
-- server to an object with them, and the text that the server writes of that one parses on the
-- other client, with the same numbers and texts.
pub record Carried (A : JsonApi) (Q : QtJson) (fs : List (String × Field)) : Type 0 where
  pub js : A.Json
  pub qs : Q.Json
  pub there : A.parse (Q.compact (Q.object fs)) ≡ some js
  pub back : Q.parse (A.dump js) ≡ some qs
  pub has : (key : String) (f : Field) → field key fs ≡ some f → A.contains js key ≡ true
  pub get : (key : String) (n : ℤ) → field key fs ≡ some (num n) → A.get_int js key ≡ some n
  pub int : (key : String) (n : ℤ) → field key fs ≡ some (num n) → Q.to_int qs key ≡ n
  pub str : (key : String) (s : Str) → field key fs ≡ some (text s) → Q.to_text qs key ≡ s

-- The fields that `oneChat` sends.
abbrev pub chat_fields : ℤ → Str → ℤ → Str → Str → List (String × Field)
chat_fields id name toid msg stamp =
    msgid one_chat_msg
    ∷ ("id", num id)
    ∷ ("name", text name)
    ∷ ("toid", num toid)
    ∷ ("msg", text msg)
    ∷ ("time", text stamp)
    ∷ []

module _ (A : JsonApi) (D : Mysql) (R : Pubsub) (up : Serving D) (Q : QtJson)
    (T : QtText Q.Array) where
  append-client :
      (k : ℤ) (b : Bool) (m : ChatMsg) (w : Window Q.Array)
      → (append_to_history k b m w).client ≡ w.client
  unfolding append_to_history
  append-client k b m w = ground arith

  send_text-trace :
      (now : ℕ) (stamp time msg : Str) (w : Window Q.Array)
      → w.current_group ≡ false
      → (send_text Q T now stamp time msg w).client.trace
        ≡ wrote (
            packet (
              Q.compact
                (Q.object (chat_fields w.client.my_id w.client.my_name w.current msg stamp))))
          ∷ w.client.trace
  unfolding send_text
  send_text-trace now stamp time msg w g =
      ap (λ c. c.trace)
        (append-client w.current w.current_group (own_message Q T time msg)
            (add_message (own_message Q T time msg) (post Q T now stamp msg w))
          ∙ ap (λ v. v.client)
              (sym (
                if-true (record w { client = ask_one_chat Q now stamp w.current msg w.client })
                  (record w { client = ask_group_chat Q now stamp w.current msg w.client })
                  (ground (arith, g)))))

  -- The sender's window and client.
  sends :
      (now : ℕ) (stamp time : Str) (w : Window Q.Array)
      → w.current ≢ minus_one
      → w.current_group ≡ false
      → w.online ≡ true
      → is_empty (T.trimmed w.input) ≡ false
      → (on_send Q T now stamp time w).client.trace
        ≡ wrote (
            packet (
              Q.compact (
                Q.object (
                  chat_fields w.client.my_id w.client.my_name w.current
                    (T.trimmed w.input)
                    stamp))))
          ∷ w.client.trace
  unfolding on_send
  sends now stamp time w n g on full =
      ap (λ v. v.client.trace)
        (sym (
            if-false w
              (if is_empty (T.trimmed w.input)
                then w
                else send_text Q T now stamp time (T.trimmed w.input) w)
              (ground (arith, n, on, eq_ℤ_iff w.current minus_one)))
          ∙ sym (if-false w (send_text Q T now stamp time (T.trimmed w.input) w) full))
      ∙ send_text-trace now stamp time (T.trimmed w.input) w g

  handles :
      (now : ℕ) (conn phone : Conn) (s : State D.Db R.Link) (js : A.Json) (id toid : ℤ)
      → A.get_int js "msgid" ≡ some (pos 6)
      → A.contains js "id" ≡ true
      → A.contains js "toid" ≡ true
      → A.get_int js "toid" ≡ some toid
      → A.get_int js "id" ≡ some id
      → lookup toid s.conns ≡ some phone
      → (handle_json A D R now conn js s).1.trace ≡ sent phone (packet (A.dump js)) ∷ s.trace
  unfolding handle_json update_conn_time get_handler handlers or_default lookup msg_code delivery
      ◌>>=◌
  handles now conn phone s js id toid m i t e f here =
      let s' = record s { last_time = insert conn.name (now, conn) s.last_time } in
      rw m (
        (one_chat_once A D R up js toid id s' i t e f).trace
        ∙ ap (λ o. deliver_to A D R o (away A D R s.db toid (A.dump js)) (A.dump js) ∷ s.trace)
            here)

  -- The server, on a connection with an empty buffer.
  serves :
      (now : ℕ) (conn phone : Conn) (s : State D.Db R.Link) (id toid : ℤ) (name msg stamp : Str)
      → (k : Carried A Q (chat_fields id name toid msg stamp))
      → Fits (Q.compact (Q.object (chat_fields id name toid msg stamp)))
      → lookup toid s.conns ≡ some phone
      → (server_read A D R now conn
          (packet (Q.compact (Q.object (chat_fields id name toid msg stamp))))
          s).1.trace
        ≡ sent phone (packet (A.dump k.js)) ∷ s.trace
  unfolding server_read deliver handle_body on_parsed field str_eq msg_code
  serves now conn phone s id toid name msg stamp k fit here =
      let b = Q.compact (Q.object (chat_fields id name toid msg stamp)) in
      ap (λ o. o.1.trace)
        (deliver-stream (handle_body A D R now conn) (λ s. s) (packet b ∷ []) (b ∷ []) s (fit, tt)
          refl)
      ∙ ap (λ o. (on_parsed A D R now conn o s).trace) k.there
      ∙ handles now conn phone s k.js id toid (k.get "msgid" (pos 6) refl)
          (k.has "id" (num id) refl) (k.has "toid" (num toid) refl) (k.get "toid" toid refl)
          (k.get "id" id refl) here

  -- The receiver's client, with an empty buffer.
  reads :
      (now : ℕ) (c : Client Q.Array) (id toid : ℤ) (name msg stamp : Str)
      → (k : Carried A Q (chat_fields id name toid msg stamp)) → Fits (A.dump k.js)
      → c.recv_buf ≡ []
      → (on_ready_read Q now (packet (A.dump k.js)) c).trace
        ≡ signal (received_chat id name msg stamp) ∷ c.trace
  unfolding handle_bytes handle_message cases lookup field str_eq msg_code put
  reads now c id toid name msg stamp k fit empty =
      let b = A.dump k.js in
      ap (λ p. (on_ready_read Q now p c).trace) (sym (append-nil (packet b)))
      ∙ ap (λ d. d.trace) (reads_stream Q now (b ∷ []) c (fit, tt) empty)
      ∙ ap (λ o. (on_document Q o (record c { last_data = now })).trace) k.back
      ∙ rw
          (
            k.int "msgid" (pos 6) refl,
            k.int "id" id refl,
            k.str "name" name refl,
            k.str "msg" msg refl,
            k.str "time" stamp refl,
          )
          refl

  keeps :
      (id : ℤ) (name msg stamp : Str) (v : Window Q.Array)
      → history_of false id (on_chat_msg Q T id name msg stamp v)
        ≡ push_bounded (received name stamp msg) (history_of false id v)
  unfolding step entries pushes
  keeps id name msg stamp v =
      step-history Q T false id (chat_msg id name msg stamp) v
      ∙ ap (λ ms. pushes ms (history_of false id v)) (pick_self false id (received name stamp msg))

  -- A user has the chat of a friend open, is online and has typed a text that is not blank; the json
  -- libraries carry the fields of the message; both texts of the message fit a packet; the pool
  -- gives connections; the friend is connected to the same server; and the buffers are empty. Then
  -- a click on Send makes the sender's client write one packet; the server, reading it, makes one
  -- call, a packet to the friend's connection; the friend's client, reading that, emits one signal,
  -- with the sender's id and name, the text as typed but for the white space at its ends and the
  -- time as sent; and the slot on that signal appends this message to the friend's history of the
  -- chat with the sender.
  pub chat_message_arrives :
      (now : ℕ) (stamp time : Str) (w : Window Q.Array) (conn phone : Conn)
      → (s : State D.Db R.Link) (c : Client Q.Array) (v : Window Q.Array) → w.current ≢ minus_one
      → w.current_group ≡ false
      → w.online ≡ true
      → is_empty (T.trimmed w.input) ≡ false
      → (k : Carried A Q
          (chat_fields w.client.my_id w.client.my_name w.current (T.trimmed w.input) stamp))
      → Fits (
          Q.compact (
            Q.object
              (chat_fields w.client.my_id w.client.my_name w.current (T.trimmed w.input) stamp)))
      → Fits (A.dump k.js)
      → lookup w.current s.conns ≡ some phone
      → c.recv_buf ≡ []
      → let id = w.client.my_id in
        let name = w.client.my_name in
        let msg = T.trimmed w.input in
        let asked = packet (Q.compact (Q.object (chat_fields id name w.current msg stamp))) in
        let passed = packet (A.dump k.js) in
        ((on_send Q T now stamp time w).client.trace ≡ wrote asked ∷ w.client.trace)
        × ((server_read A D R now conn asked s).1.trace ≡ sent phone passed ∷ s.trace)
        × ((on_ready_read Q now passed c).trace
            ≡ signal (received_chat id name msg stamp) ∷ c.trace)
        × (history_of false id (on_chat_msg Q T id name msg stamp v)
            ≡ push_bounded (received name stamp msg) (history_of false id v))
  chat_message_arrives now stamp time w conn phone s c v n g on full k fit fit' here empty =
      let id = w.client.my_id in
      let name = w.client.my_name in
      let msg = T.trimmed w.input in
      (
        sends now stamp time w n g on full,
        serves now conn phone s id w.current name msg stamp k fit here,
        reads now c id w.current name msg stamp k fit' empty,
        keeps id name msg stamp v,
      )
