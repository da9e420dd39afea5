-- ===== src/Agent/Outbound/Echo.antt =====
-- A direct message of src/agent/agent.ts on the wire and in the store.
use pdn_whatspac_client.Base.{
  ℕ, ◌/◌, ◌≡◌, refl, ap, true, false, none, some, [], ◌∷◌, ◌++◌, Text, text_eq,
}
use pdn_whatspac_client.Js.Json.{Fields, get}
use pdn_whatspac_client.Js.Json.Numbers.{write_nat}
use pdn_whatspac_client.Protocol.Messages.{Callsign, DirectMessage, direct_message}
use pdn_whatspac_client.Protocol.Narrowing.{message_of, narrow_as, narrow}
use pdn_whatspac_client.Store.{Store, MessageRow, message_row, update_message}
use pdn_whatspac_client.Store.Rows.{Absent, upsert_new}
use pdn_whatspac_client.Store.Conversation.{conversation_id}
use pdn_whatspac_client.Store.Lookups.{put_direct_message_twice}
use pdn_whatspac_client.Agent.Dispatch.{dispatch}
use pdn_whatspac_client.Agent.Outbound.{Identity, own_message, message_object, send_direct_message}

-- The id by which the message is known on the wire and in the store.
abbrev pub id_at : Identity → ℕ → Text
id_at who later = write_nat later (45 ∷ who.callsign)

-- What the text comes to in the store, and on the wire.
abbrev pub row_of : Identity → ℕ → ℕ → Callsign → Text → MessageRow
row_of who now later tc text = record {
  id = id_at who later;
  sid = conversation_id who.callsign tc;
  fc = who.callsign;
  tc = tc;
  m = text;
  ts = now / 1000;
  ets = 0;
  edts = 0;
  r = none;
}

abbrev pub sent_as : Identity → ℕ → ℕ → Callsign → Text → DirectMessage
sent_as who now later tc text = record {
  fc = who.callsign;
  tc = tc;
  m = text;
  ts = some (now / 1000);
  id = some (id_at who later);
  r = none;
}

narrow-message_object :
    (who : Identity) (now later : ℕ) (tc : Callsign) (text : Text)
    → narrow (message_object who now later tc text)
      ≡ some (direct_message (sent_as who now later tc text))
unfolding narrow narrow_as message_of get text_eq
narrow-message_object who now later tc text = refl

-- A direct message under a new id is put behind the others with its text, its time in seconds and
-- its callsigns, whether it goes out or not. Where it goes out, what is sent is read by the protocol
-- as the message with the same id, text, time and callsigns, and when the server sends that back the
-- store stays as it is.
pub send_direct_message-dispatch :
    (who : Identity) (now later : ℕ) (tc : Callsign) (text : Text) (s : Store)
    → Absent (λ q. q.id) (id_at who later) s.messages
    → let o = send_direct_message who true now later tc text s in
      (o.store ≡ record s { messages = s.messages ++ row_of who now later tc text ∷ [] })
      × (send_direct_message who false now later tc text s
          ≡ record { store = o.store; sent = none })
      × ((fields : Fields) × (o.sent ≡ some fields)
          × (narrow fields ≡ some (direct_message (sent_as who now later tc text))))
      × ((dispatch (direct_message (sent_as who now later tc text)) o.store).0 ≡ o.store)
unfolding send_direct_message dispatch
send_direct_message-dispatch who now later tc text s new = (
  ap (λ rows. record s { messages = rows })
      (upsert_new (λ q. q.id) (update_message (own_message who now later tc text))
        (message_row (own_message who now later tc text)) s.messages new),
  refl,
  (message_object who now later tc text, refl, narrow-message_object who now later tc text),
  put_direct_message_twice (own_message who now later tc text) s,
)
