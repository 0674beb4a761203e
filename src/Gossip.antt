-- ===== src/Gossip.antt =====
-- internal/p2p/gossip.go: the topics that a node has joined and subscribed to, and what it has
-- published. The answers of go-libp2p-pubsub are arguments, one for each topic.
pub mod Topics
pub mod Tests
use openclaw_p2p.Prelude.{String, Bool, true, false, not, ◌&&◌, List, [], ◌∷◌, ◌++◌, if◌then◌else◌}
use openclaw_p2p.Error.{Result, ok, err, Check, nil}
use openclaw_p2p.Exec.{Exec, lift, ◌>>=◌, ◌>>◌}
use openclaw_p2p.Sae.Envelope.{SaeEnvelope}
use openclaw_p2p.Sae.Libs.{Libs, Bytes}
use openclaw_p2p.Sae.Validate.{encode}
use openclaw_p2p.Topics.{has, unique_strings}

-- The keys of the two maps of `Gossip`, and the messages that were handed to pubsub.
pub record Gossip : Type 0 where
  pub topics : List String
  pub subs : List String
  pub published : List (String × Bytes)

-- PubSub.Join, Topic.Subscribe and Topic.Publish, for a topic of the given name
pub record PubSub : Type 0 where
  pub join : String → Check
  pub subscribe : String → Check
  pub publish : String → Check

-- if topic, ok := g.topics[topicName]; !ok { join it, which gives the answer }
abbrev pub joined : Bool → Check → String → Exec Gossip (Unit {0})
joined true answer name g = (nil, g)
joined false (ok _) name g = (nil, record g { topics = name ∷ g.topics })
joined false (err e) name g = (err e, g)

-- if _, ok := g.subs[topicName]; !ok { subscribe, and start a reader }
abbrev pub subscribed : Bool → Check → String → Exec Gossip (Unit {0})
subscribed true answer name g = (nil, g)
subscribed false (ok _) name g = (nil, record g { subs = name ∷ g.subs })
subscribed false (err e) name g = (err e, g)

-- topic.Publish, which gives the answer
abbrev pub sent : Check → Bytes → String → Exec Gossip (Unit {0})
sent (ok _) payload name g = (nil, record g { published = g.published ++ (name, payload) ∷ [] })
sent (err e) payload name g = (err e, g)

module _ (ps : PubSub) where
  unfoldable pub join_topic : String → Exec Gossip (Unit {0})
  join_topic name g = joined (has g.topics name) (ps.join name) name g

  unfoldable pub subscribe_topic : String → Exec Gossip (Unit {0})
  subscribe_topic name g = subscribed (has g.subs name) (ps.subscribe name) name g

  unfoldable pub ensure_topic : String → Bool → Exec Gossip (Unit {0})
  unfolding join_topic subscribe_topic
  ensure_topic name subscribe = do
    join_topic name
    if subscribe then subscribe_topic name else lift nil

  -- the loop of `SubscribeTopics`
  unfoldable pub subscribe_each : List String → Exec Gossip (Unit {0})
  subscribe_each [] = lift nil
  subscribe_each (name ∷ rest) = do ensure_topic name true; subscribe_each rest

  unfoldable pub subscribe_topics : List String → Exec Gossip (Unit {0})
  unfolding subscribe_each
  subscribe_topics topics = subscribe_each (unique_strings topics)

  unfoldable pub publish_topic : Bytes → String → Exec Gossip (Unit {0})
  publish_topic payload name g = sent (ps.publish name) payload name g

  -- the loop of `PublishSAE`
  unfoldable pub publish_each : Bytes → List String → Exec Gossip (Unit {0})
  publish_each payload [] = lift nil
  publish_each payload (name ∷ rest) = do
    ensure_topic name false
    publish_topic payload name
    publish_each payload rest

  unfoldable pub publish_sae : (L : Libs) → SaeEnvelope → Exec Gossip (Unit {0})
  unfolding publish_each
  publish_sae L env = do
    payload ← lift (encode L env)
    publish_each payload (unique_strings env.topics)
