-- ===== src/Store/Tables.antt =====
-- The tables of src/store/store.ts: a record for a row, and the database as the lists of rows.
use pdn_whatspac_client.Base.{ℕ, Bool, Option, List, [], Text}
use pdn_whatspac_client.Protocol.Messages.{Callsign}

pub record ConfigRow : Type 0 where
  pub k : Text
  pub v : Text

pub record UserRow : Type 0 where
  pub tc : Callsign
  pub n : Option Text
  pub ls : Option ℕ
  pub us : Option ℕ

pub record HamRow : Type 0 where
  pub c : Callsign
  pub n : Option Text
  pub ts : ℕ
  pub a : Option Text
  pub ats : ℕ

pub record ChannelRow : Type 0 where
  pub cid : Text
  pub cn : Option Text
  pub subscribed : Bool

pub record MessageRow : Type 0 where
  pub id : Text
  pub sid : Text
  pub fc : Callsign
  pub tc : Callsign
  pub m : Text
  pub ts : ℕ
  pub ets : ℕ
  pub edts : ℕ
  pub r : Option Text

pub record PostRow : Type 0 where
  pub id : Text
  pub cid : Text
  pub fc : Callsign
  pub p : Text
  pub ts : ℕ
  pub ets : ℕ
  pub edts : ℕ
  pub rts : Option ℕ
  pub rfc : Option Callsign
  pub at : Option (List Callsign)

pub record Store : Type 0 where
  pub config : List ConfigRow
  pub users : List UserRow
  pub online : List Callsign
  pub hams : List HamRow
  pub channels : List ChannelRow
  pub messages : List MessageRow
  pub posts : List PostRow

-- A new database.
abbrev pub empty : Store
empty = record {
  config = [];
  users = [];
  online = [];
  hams = [];
  channels = [];
  messages = [];
  posts = [];
}
