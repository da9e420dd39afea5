-- ===== src/Rf/Head/Effects.antt =====
-- What all effects of the outputs of src/heads/rf have in common.
use pdn_whatspac_client.Base.{Bool, List, [], ◌∷◌, Text, All, All-append}
use pdn_whatspac_client.Protocol.Messages.{Callsign}
use pdn_whatspac_client.Store.{Store}
use pdn_whatspac_client.Rf.Session.{
  Output, says, shows_help, shows_channels, shows_title, shows_posts, shows_messages, shows_online,
  shows_conversations, live_post, live_message, posts_to, sends_to, subscribes_to,
}
use pdn_whatspac_client.Rf.Session.Wording.{lines_of}
use pdn_whatspac_client.Rf.Head.{
  Effect, posts, sends, subscribes, write, write_all, effects_of, all_effects,
}

module _ (P : Effect → Type 0) where
  pub write_all-All :
      (Q : Text → Type 0) (writable : Bool) (lines : List Text)
      → ((line : Text) → Q line → All P (write writable line))
      → All Q lines
      → All P (write_all writable lines)
  write_all-All Q writable [] h q = tt
  write_all-All Q writable (line ∷ lines) h q =
      All-append P (write writable line) (write_all writable lines) (h line q.0)
        (write_all-All Q writable lines h q.1)

  module _ (posted : (cid text : Text) → P (posts cid text))
      (sent : (peer : Callsign) (text : Text) → P (sends peer text))
      (subscribed : (on : Bool) (cid : Text) → P (subscribes on cid)) (mine : Callsign)
      (store : Store) (writable : Bool) where
    abbrev Written : Output → Type 0
    Written o = All P (write_all writable (lines_of mine store o))

    effects_of-All : (o : Output) → Written o → All P (effects_of mine store writable o)
    effects_of-All (posts_to cid text) h = (posted cid text, tt)
    effects_of-All (sends_to peer text) h = (sent peer text, tt)
    effects_of-All (subscribes_to on cid) h = (subscribed on cid, tt)
    effects_of-All (says text) h = h
    effects_of-All shows_help h = h
    effects_of-All (shows_channels cs) h = h
    effects_of-All (shows_title v) h = h
    effects_of-All (shows_posts ps) h = h
    effects_of-All (shows_messages ms) h = h
    effects_of-All (shows_online cs) h = h
    effects_of-All (shows_conversations cs) h = h
    effects_of-All (live_post p) h = h
    effects_of-All (live_message m) h = h

    -- What the writing of each output's lines keeps holds for all that the outputs do.
    pub all_effects-All :
        (Q : Output → Type 0) (os : List Output)
        → ((o : Output) → Q o → Written o)
        → All Q os
        → All P (all_effects mine store writable os)
    all_effects-All Q [] h q = tt
    all_effects-All Q (o ∷ os) h q =
        All-append P (effects_of mine store writable o) (all_effects mine store writable os)
          (effects_of-All o (h o q.0)) (all_effects-All Q os h q.1)
