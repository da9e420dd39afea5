-- ===== src/Lib.antt =====
-- A model of the WhatsPac client: a daemon that keeps one link to the WhatsPac server (WPS)
-- through a packet node's RHP port, mirrors what comes over it in a store, and shows the store
-- to users over RF and the web.
--
-- Parts, from the wire up, and the files that model them:
-- - Js: what the program uses of its language. UTF-16 strings and UTF-8 (Js/Utf8), Base64
--   (Js/Base64), trim (Js/Trim), toUpperCase and toLowerCase (Js/Case), and JSON.parse and
--   JSON.stringify on exact decimals (Js/Json). A number with more digits than a double holds is
--   kept exactly here, and rounded by JavaScript.
-- - Rhp/Wire, Rhp/Envelope and Rhp/Deframer: src/rhp/wire.ts, the Latin-1 data strings
--   (bytesToWireString, wireStringToBytes), the envelopes (encodeFrame, serialiseEnvelope,
--   decodeFrameBody) and the FrameDeframer.
-- - Rhp/Connection: RhpConnection of src/rhp/client.ts, a step for each event of the socket, a
--   timer or a caller. Its state is the maps of the class, by their keys. Rhp/Requests: the
--   requests that the class makes, and what it takes from the reply to an open. Rhp/Link:
--   RhpTcpTransport.open, with the dialling of connectTcp, and RhpTcpLink.
-- - Protocol/Framing and Protocol/Codec: src/protocol/framing.ts and src/protocol/codec.ts.
--   Protocol/Pako holds the package pako as a parameter: it deflates and inflates, and IsZlib
--   says that inflating gives back a deflated text and that bytes come out.
--   Protocol/Messages: the messages of src/protocol/messages.ts that the agent acts on.
--   Protocol/Narrowing: how a parsed object becomes one of them (isType).
-- - Agent/Script: src/agent/connectScript.ts. Agent/Lifecycle: the connection of
--   src/agent/agent.ts, a step for each event, where an await is a state (Progress); it feeds the
--   script runner and the frame reader and says what it asks of the transport and the timers.
--   Agent/Dispatch: dispatch of the same file, on the store. Agent/Outbound: the calls by which
--   the agent sends. Agent/Client: all of these on one state, the connection and the store.
-- - Store: src/store/store.ts. Each table is a list of rows in the order of the row ids
--   (Store/Tables), each method that changes the database an operation on the record of tables
--   (Store), the queries in Store/Queries and Store/Conversations, and the connect cursors in
--   Store/Cursors.
-- - Rf/Server: the two phases of a connection of src/heads/rf/server.ts, and parseHeader in
--   Rf/Server/Header. Rf/Session: the views, commands and live forwarding of
--   src/heads/rf/session.ts, with the reading of a line (Rf/Session/Lines) and the wording of what
--   is shown (Rf/Session/Wording). Rf/Head: a connection with its session, from the text that
--   comes on the socket to the text that goes out.
-- - Web/App: the gate and the changing routes of src/heads/web/app.ts. Web/Reads: the reading
--   routes. Web/Events: the event stream. Util/Emitter: src/util/emitter.ts.
-- - Config: src/config.ts. Util/Log: src/util/log.ts. Main: the shutdown of src/main.ts.
-- - Base: lists, tests, splitting and searching of texts. Examples: concrete runs.
--
-- Parameters: pako as above; the Unicode tables of upper and lower case above ASCII (Js/Case); in
-- Config, JavaScript's Number, the type of its numbers, and the path join of Node; the clock, where
-- a call reads it.
--
-- Bounds and fuel: the deframer's loop and the line loop take the length of their buffer as fuel,
-- and take two bytes, or one character, a round; wire_chunks takes the number of bytes. Bytes are
-- numbers below 256 where a hypothesis says so, code units numbers; the 16-bit length prefix and
-- the masks with 0xff are written out as remainders.
--
-- Not modelled: the sockets, the timers themselves, SQLite's files, and the package hono; the
-- binding of the HTTP server (src/heads/web/server.ts) and the page of src/heads/web/ui.ts, which
-- is one text of HTML and browser script; the wiring of the parts in src/main.ts; the message
-- interfaces of src/protocol/messages.ts that no code reads (edits, emojis, receipts, statistics);
-- the agent's event sent, which no part listens to, and the texts of the log. ORDER BY is a stable
-- sort, by the bytes of UTF-8 for texts, where SQL leaves the order of equal rows open. A message whose fields have not the types of
-- its interface is told apart (unread in Agent/Client) and not followed: the code trusts the
-- server there. The rule of toLowerCase for a final sigma and a header key __proto__ are left out.
pub mod Base
pub mod Js
pub mod Protocol
pub mod Rhp
pub mod Store
pub mod Agent
pub mod Rf
pub mod Web
pub mod Util
pub mod Config
pub mod Main
pub mod Examples
