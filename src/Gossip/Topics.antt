-- ===== src/Gossip/Topics.antt =====
-- What `SubscribeTopics` and `PublishSAE` have done when they return nil.
use openclaw_p2p.Sae.Validate.{encode}
use openclaw_p2p.Sae.Envelope.{SaeEnvelope}
use openclaw_p2p.Sae.Libs.{Libs, Bytes}
use openclaw_p2p.Exec.{lift, >>=-ok}
use openclaw_p2p.Topics.{unique_strings, has}
use openclaw_p2p.Gossip.{
  publish_sae, sent, publish_each, subscribe_topics, publish_topic, subscribe_each, join_topic,
  joined, subscribed, ensure_topic, subscribe_topic, PubSub, Gossip,
}
use mathlib.Core.List.{append-nil, append_assoc}
use openclaw_p2p.Exec
use openclaw_p2p.Prelude.{
  ◌++◌, sym, ap, if◌then◌else◌, eq_refl, false, true, All, refl, arith, ◌∙◌, String, List, Bool,
  ◌≡◌, [], ◌∷◌,
}
use openclaw_p2p.Error.{nil, Check, ok, err}

-- The map only grows.
abbrev pub Covers : List String → List String → Type 0
Covers xs ys = (name : String) → has xs name ≡ true → has ys name ≡ true

-- All the topics are in the list.
abbrev pub HasAll : List String → List String → Type 0
HasAll xs names = All (λ name. has xs name ≡ true) names

pub Covers-HasAll : (xs ys names : List String) → Covers xs ys → HasAll xs names → HasAll ys names
Covers-HasAll xs ys [] c h = tt
Covers-HasAll xs ys (name ∷ names) c h = (c name h.0, Covers-HasAll xs ys names c h.1)

-- What joining and subscribing change: the two maps, which grow.
pub record Extends (g h : Gossip) : Type 0 where
  pub topics : Covers g.topics h.topics
  pub subs : Covers g.subs h.subs
  pub published : h.published ≡ g.published

Extends-trans : (g h k : Gossip) → Extends g h → Extends h k → Extends g k
Extends-trans g h k a b = record {
  topics = λ name e. b.topics name (a.topics name e);
  subs = λ name e. b.subs name (a.subs name e);
  published = b.published ∙ a.published;
}

Extends-refl : (g : Gossip) → Extends g g
Extends-refl g = record { topics = λ name e. e; subs = λ name e. e; published = refl }

has_head : (xs : List String) (name : String) → has (name ∷ xs) name ≡ true
has_head xs name = rw (eq_refl name)

has_tail : (xs : List String) (x : String) → Covers xs (x ∷ xs)
has_tail xs x name e = ground arith

joined_lem :
    (b : Bool) (answer : Check) (name : String) (g : Gossip)
    → has g.topics name ≡ b
    → (joined b answer name g).0 ≡ nil
    → Extends g (joined b answer name g).1 × (has (joined b answer name g).1.topics name ≡ true)
joined_lem true answer name g e h = (Extends-refl g, e)
joined_lem false (ok _) name g e h = (
  record { topics = has_tail g.topics name; subs = λ n e. e; published = refl },
  has_head g.topics name,
)
joined_lem false (err x) name g e h = cc

subscribed_lem :
    (b : Bool) (answer : Check) (name : String) (g : Gossip)
    → has g.subs name ≡ b
    → (subscribed b answer name g).0 ≡ nil
    → Extends g (subscribed b answer name g).1
      × (has (subscribed b answer name g).1.subs name ≡ true)
subscribed_lem true answer name g e h = (Extends-refl g, e)
subscribed_lem false (ok _) name g e h = (
  record { topics = λ n e. e; subs = has_tail g.subs name; published = refl },
  has_head g.subs name,
)
subscribed_lem false (err x) name g e h = cc

-- Every topic of the list is joined and subscribed to.
pub record AllSubscribed (names : List String) (g h : Gossip) : Type 0 where
  pub extends : Extends g h
  pub is_joined : HasAll h.topics names
  pub is_subscribed : HasAll h.subs names

-- The payload goes to each of the topics, in order.
abbrev pub to_each : Bytes → List String → List (String × Bytes)
to_each payload [] = []
to_each payload (name ∷ rest) = (name, payload) ∷ to_each payload rest

-- What publishing to the topics changes.
pub record HasSent (payload : Bytes) (names : List String) (g h : Gossip) : Type 0 where
  pub published : h.published ≡ g.published ++ to_each payload names
  pub subs : Covers g.subs h.subs

HasSent-refl : (payload : Bytes) (g : Gossip) → HasSent payload [] g g
HasSent-refl payload g = record { published = sym (append-nil g.published); subs = λ n e. e }

HasSent-cons :
    (payload : Bytes) (name : String) (rest : List String) (g h k l : Gossip)
    → Extends g h
    → HasSent payload (name ∷ []) h k
    → HasSent payload rest k l
    → HasSent payload (name ∷ rest) g l
HasSent-cons payload name rest g h k l a b c = record {
  published =
      rw (c.published, b.published, a.published)
        (append_assoc g.published ((name, payload) ∷ []) (to_each payload rest));
  subs = λ n e. c.subs n (b.subs n (a.subs n e));
}

module _ (ps : PubSub) where
  -- `ensureTopic` that returns nil has joined the topic, and subscribed to it if it was to.
  record Ensured (name : String) (subscribe : Bool) (g h : Gossip) : Type 0 where
    extends : Extends g h
    is_joined : has h.topics name ≡ true
    is_subscribed : subscribe ≡ true → has h.subs name ≡ true

  after_join :
      (name : String) (subscribe : Bool) (g h : Gossip)
      → Extends g h
      → has h.topics name ≡ true
      → ((if subscribe then subscribe_topic ps name else lift nil) h).0 ≡ nil
      → Ensured name subscribe g ((if subscribe then subscribe_topic ps name else lift nil) h).1
  unfolding subscribe_topic
  after_join name false g h ext j n = record {
    extends = ext;
    is_joined = j;
    is_subscribed = λ e. cc e;
  }
  after_join name true g h ext j n =
      let r = subscribed_lem (has h.subs name) (ps.subscribe name) name h refl n in
      record {
        extends = Extends-trans g h _ ext r.0;
        is_joined = r.0.topics name j;
        is_subscribed = λ e. r.1;
      }

  ensure_topic_lem :
      (name : String) (subscribe : Bool) (g : Gossip)
      → (ensure_topic ps name subscribe g).0 ≡ nil
      → Ensured name subscribe g (ensure_topic ps name subscribe g).1
  unfolding ensure_topic
  ensure_topic_lem name subscribe g n =
      let (u, e, moved) =
        >>=-ok (join_topic ps name) (λ _. if subscribe then subscribe_topic ps name else lift nil) g
          n in
      let j = joined_lem (has g.topics name) (ps.join name) name g refl e in
      rw moved (
        after_join name subscribe g (join_topic ps name g).1 j.0 j.1
          (ap (λ r. r.0) (sym moved) ∙ n))

  subscribe_each_lem :
      (names : List String) (g : Gossip)
      → (subscribe_each ps names g).0 ≡ nil
      → AllSubscribed names g (subscribe_each ps names g).1
  unfolding subscribe_each
  subscribe_each_lem [] g n = record {
    extends = Extends-refl g;
    is_joined = tt;
    is_subscribed = tt;
  }
  subscribe_each_lem (name ∷ rest) g n =
      let (u, e, moved) = >>=-ok (ensure_topic ps name true) (λ _. subscribe_each ps rest) g n in
      let first = ensure_topic_lem name true g e in
      let others =
        subscribe_each_lem rest (ensure_topic ps name true g).1 (ap (λ r. r.0) (sym moved) ∙ n) in
      rw moved (record {
        extends = Extends-trans g _ _ first.extends others.extends;
        is_joined = (others.extends.topics name first.is_joined, others.is_joined);
        is_subscribed = (others.extends.subs name (first.is_subscribed refl), others.is_subscribed);
      })

  -- When `SubscribeTopics` returns nil, the node has joined and subscribed to every topic of the
  -- list that is not empty, has left none, and has published nothing.
  pub subscribe_topics_lem :
      (topics : List String) (g : Gossip)
      → (subscribe_topics ps topics g).0 ≡ nil
      → AllSubscribed (unique_strings topics) g (subscribe_topics ps topics g).1
  unfolding subscribe_topics
  subscribe_topics_lem topics g n = subscribe_each_lem (unique_strings topics) g n

  sent_lem :
      (answer : Check) (payload : Bytes) (name : String) (g : Gossip)
      → (sent answer payload name g).0 ≡ nil
      → HasSent payload (name ∷ []) g (sent answer payload name g).1
  sent_lem (ok _) payload name g n = record { published = refl; subs = λ n' e. e }
  sent_lem (err x) payload name g n = cc n

  publish_each_lem :
      (payload : Bytes) (names : List String) (g : Gossip)
      → (publish_each ps payload names g).0 ≡ nil
      → HasSent payload names g (publish_each ps payload names g).1
  unfolding publish_each publish_topic
  publish_each_lem payload [] g n = HasSent-refl payload g
  publish_each_lem payload (name ∷ rest) g n =
      let (u, e, moved) =
        >>=-ok (ensure_topic ps name false)
          (λ _. Exec.◌>>◌ (publish_topic ps payload name) (publish_each ps payload rest)) g n in
      let (v, d, moved') =
        >>=-ok (publish_topic ps payload name) (λ _. publish_each ps payload rest)
          (ensure_topic ps name false g).1 (ap (λ r. r.0) (sym moved) ∙ n) in
      rw (moved, moved')
        (HasSent-cons payload name rest g _ _ _ (ensure_topic_lem name false g e).extends
          (sent_lem (ps.publish name) payload name _ d)
          (publish_each_lem payload rest _
            (ap (λ r. r.0) (sym moved') ∙ ap (λ r. r.0) (sym moved) ∙ n)))

  -- When `PublishSAE` returns nil, the envelope fits in 1024 bytes, and exactly its bytes were
  -- published, once to each topic of the envelope that is not empty; no subscription was dropped.
  pub publish_sae_lem :
      (L : Libs) (env : SaeEnvelope) (g : Gossip)
      → (publish_sae ps L env g).0 ≡ nil
      → (body : Bytes) × (encode L env ≡ ok body)
        × HasSent body (unique_strings env.topics) g (publish_sae ps L env g).1
  unfolding publish_sae
  publish_sae_lem L env g n =
      let (body, e, moved) =
        >>=-ok (lift (encode L env)) (λ body. publish_each ps body (unique_strings env.topics)) g
          n in
      (
        body,
        e,
        rw moved
            (publish_each_lem body (unique_strings env.topics) g (ap (λ r. r.0) (sym moved) ∙ n)),
      )
