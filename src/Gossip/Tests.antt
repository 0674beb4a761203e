-- ===== src/Gossip/Tests.antt =====
-- Runs of internal/p2p/gossip.go.
use openclaw_p2p.Text.Print.{bytes_of}
use openclaw_p2p.Sae.Validate.{encode}
use openclaw_p2p.Topics.{unique_strings}
use openclaw_p2p.Error.{ok, nil}
use openclaw_p2p.Sae.Tests.{signed_task, toy}
use openclaw_p2p.Gossip.{publish_topic, ensure_topic, PubSub, publish_sae, subscribe_topics, Gossip}
use openclaw_p2p.Sae.Libs.{Bytes}
use openclaw_p2p.Gossip.Topics.{publish_sae_lem, HasSent, subscribe_topics_lem, AllSubscribed}
use openclaw_p2p.Prelude.{refl, ◌≡◌, String, List, [], ◌∷◌}

-- A network that lets everything through.
abbrev ready : PubSub
ready = record { join = λ t. nil; subscribe = λ t. nil; publish = λ t. nil }

abbrev idle : Gossip
idle = record { topics = []; subs = []; published = [] }

abbrev names : List String
names = "a" ∷ "b" ∷ "a" ∷ []

subscribe_test : (subscribe_topics ready names idle).0 ≡ nil
unfolding subscribe_topics unique_strings ensure_topic
subscribe_test = refl

subscribe_topics_lem_test :
    AllSubscribed (unique_strings names) idle (subscribe_topics ready names idle).1
subscribe_topics_lem_test = subscribe_topics_lem ready names idle subscribe_test

publish_test : (publish_sae ready toy signed_task idle).0 ≡ nil
unfolding publish_sae encode bytes_of unique_strings ensure_topic publish_topic
publish_test = refl

publish_sae_lem_test :
    (body : Bytes) × (encode toy signed_task ≡ ok body)
    × HasSent body
        (unique_strings signed_task.topics)
        idle
        (publish_sae ready toy signed_task idle).1
publish_sae_lem_test = publish_sae_lem ready toy signed_task idle publish_test
