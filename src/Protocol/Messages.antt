-- ===== src/Protocol/Messages.antt =====
-- src/protocol/messages.ts: the messages that the agent reads and writes, with the interfaces'
-- own field names; a field that may be missing is an `Option`.
use pdn_whatspac_client.Base.{ℕ, Option, List, Text}

abbrev pub Callsign : Type 0
Callsign = Text

abbrev pub Timestamp : Type 0
Timestamp = ℕ

-- `UserObject`; `us` is the one field beyond those named that the store reads.
pub record UserObject : Type 0 where
  pub tc : Callsign
  pub n : Option Text
  pub ls : Option Timestamp
  pub us : Option ℕ

pub record HamName : Type 0 where
  pub c : Callsign
  pub n : Text
  pub ts : Option Timestamp

pub record Avatar : Type 0 where
  pub c : Option Callsign
  pub a : Option Text
  pub ts : Option Timestamp
  pub ac : Option ℕ

pub record ChannelHeader : Type 0 where
  pub cid : Text
  pub cn : Option Text

pub record DirectMessage : Type 0 where
  pub fc : Callsign
  pub tc : Callsign
  pub m : Text
  pub ts : Option Timestamp
  pub id : Option Text
  pub r : Option Text

pub record ChannelPost : Type 0 where
  pub cid : Text
  pub fc : Callsign
  pub p : Text
  pub ts : Option Timestamp
  pub rts : Option Timestamp
  pub rfc : Option Callsign
  pub at : Option (List Callsign)
  pub id : Option Text

-- The messages that `dispatch` acts on, one constructor for each type;
-- `other_type` is every type that it passes over. An entry of `he`
-- that is a bare callsign is `none`.
pub data Inbound : Type 0 where
  connect_reply : Option ℕ → Inbound
  user_list : List UserObject → Inbound
  online_list : List Callsign → Inbound
  user_connected : Callsign → Inbound
  user_disconnected : Callsign → Inbound
  ham_enquiry : List (Option HamName) → Inbound
  channel_headers : List ChannelHeader → Inbound
  channel_subscribe : Option ℕ → Text → Inbound
  direct_message : DirectMessage → Inbound
  dm_backfill : List DirectMessage → Inbound
  channel_post : ChannelPost → Inbound
  post_backfill : Option (List ChannelPost) → Inbound
  avatar : Avatar → Inbound
  other_type : Text → Inbound
