-- ===== src/Node/Publish/Effect.antt =====
-- What a call of `PublishTask` or `PublishFact` that returns no error has done.
use openclaw_p2p.Sae.Validate.{encode}
use openclaw_p2p.Topics.{unique_strings}
use openclaw_p2p.Store.Records.{upsert_payload}
use openclaw_p2p.Error.{Result, nil, ok}
use openclaw_p2p.Gossip.Topics.{
  Covers-HasAll, publish_sae_lem, subscribe_topics_lem, to_each, HasAll,
}
use openclaw_p2p.Node.Inbound.Gate.{enforce_sound, IsWithinPolicy}
use openclaw_p2p.Sae.Envelope.{SaeEnvelope}
use openclaw_p2p.Store.State.{Store}
use openclaw_p2p.Clock.{Time}
use openclaw_p2p.Prelude.{subst, refl, List, ◌∙◌, sym, ◌++◌, ap, arith, false, ◌≡◌, String}
use openclaw_p2p.Node.Publish.Draft.{SignedDraft}
use openclaw_p2p.Node.State.{on_store, self, on_gossip, Node, enforce_envelope_policy}
use openclaw_p2p.Gossip.{publish_sae, subscribe_topics, PubSub}
use openclaw_p2p.Node.Publish.{announce, payload_of, PublishInputs}
use openclaw_p2p.Sae.Libs.{Bytes, Libs}
use openclaw_p2p.Exec.{Exec, lift, ◌>>◌, >>=-ok}

module _ (L : Libs) (i : PublishInputs) (ps : PubSub) where
  -- An outbound envelope is not counted against a rate, so that the check leaves the node alone.
  enforce_outbound :
      (now : Time) (env : SaeEnvelope) (n : Node L)
      → (enforce_envelope_policy L now env false n).1 ≡ n
  unfolding enforce_envelope_policy
  enforce_outbound now env n = ground arith

  -- The end of a publication: the payload was written and the announcement applied, in this order,
  -- its topics are subscribed to, and its text was published to each.
  pub record IsAnnounced (kind : String) (apply : Exec Store (Unit {0})) (d : SignedDraft)
      (n m : Node L) : Type 0 where
    pub within : IsWithinPolicy L n.policy d.envelope
    pub payload_written :
        (upsert_payload i.payload_out (payload_of (self L n) kind i.payload_now d) n.store).0 ≡ nil
    pub applied :
        (apply
          (upsert_payload i.payload_out (payload_of (self L n) kind i.payload_now d) n.store).1).0
        ≡ nil
    pub store :
        m.store
        ≡ (apply
            (upsert_payload i.payload_out (payload_of (self L n) kind i.payload_now d) n.store).1).1
    pub subscribed : HasAll m.gossip.subs (unique_strings d.topics)
    pub body : Bytes
    pub body_of : encode L d.envelope ≡ ok body
    pub published :
        m.gossip.published ≡ n.gossip.published ++ to_each body (unique_strings d.envelope.topics)

  -- the calls behind the policy check, and those behind the store's
  gossip_part : SignedDraft → Exec (Node L) SaeEnvelope
  gossip_part d = do
    on_gossip L (subscribe_topics ps d.topics)
    on_gossip L (publish_sae ps L d.envelope)
    lift (ok d.envelope)

  record IsSent (d : SignedDraft) (n m : Node L) : Type 0 where
    store : m.store ≡ n.store
    subscribed : HasAll m.gossip.subs (unique_strings d.topics)
    body : Bytes
    body_of : encode L d.envelope ≡ ok body
    published :
        m.gossip.published ≡ n.gossip.published ++ to_each body (unique_strings d.envelope.topics)

  gossip_part_lem :
      (d : SignedDraft) (n : Node L) {env : SaeEnvelope}
      → (gossip_part d n).0 ≡ ok env
      → (env ≡ d.envelope) × IsSent d n (gossip_part d n).1
  unfolding gossip_part
  gossip_part_lem d n {env} h =
      let (u, e, moved) =
        >>=-ok (on_gossip L (subscribe_topics ps d.topics))
          (λ _. on_gossip L (publish_sae ps L d.envelope) >> lift (ok d.envelope)) n h in
      let g = (subscribe_topics ps d.topics n.gossip).1 in
      let h' = ap (λ r. r.0) (sym moved) ∙ h in
      let (v, e', moved') =
        >>=-ok (on_gossip L (publish_sae ps L d.envelope)) (λ _. lift (ok d.envelope))
          (record n { gossip = g }) h' in
      let subs = subscribe_topics_lem ps d.topics n.gossip e in
      let (body, body_of, sent) = publish_sae_lem ps L d.envelope g e' in
      let same : ok d.envelope ≡ ok env = ap (λ r. r.0) (sym moved') ∙ h' in
      (
        cc same,
        rw (moved, moved')
            (record {
              store = refl;
              subscribed =
                  Covers-HasAll g.subs _ (unique_strings d.topics) sent.subs subs.is_subscribed;
              body = body;
              body_of = body_of;
              published =
                  sent.published
                  ∙ ap
                      (λ (p : List (String × Bytes)).
                        p ++ to_each body (unique_strings d.envelope.topics))
                      subs.extends.published;
            }),
      )

  pub announce_lem :
      (kind : String) (apply : Exec Store (Unit {0})) (d : SignedDraft) (n : Node L)
      {env : SaeEnvelope}
      → (announce L i ps kind apply d n).0 ≡ ok env
      → (env ≡ d.envelope) × IsAnnounced kind apply d n (announce L i ps kind apply d n).1
  unfolding announce gossip_part
  announce_lem kind apply d n {env} h =
      let payload = payload_of (self L n) kind i.payload_now d in
      let write = on_store L (upsert_payload i.payload_out payload) in
      let rest = on_store L apply >> gossip_part d in
      let checked = enforce_envelope_policy L i.policy_now d.envelope false in
      let (u, e1, m1) = >>=-ok checked (λ _. write >> rest) n {b = env} h in
      let to_write : (checked >> (write >> rest)) n ≡ (write >> rest) n =
        m1 ∙ ap (write >> rest) (enforce_outbound i.policy_now d.envelope n) in
      let (v, e2, m2) = >>=-ok write (λ _. rest) n {b = env} (ap (λ r. r.0) (sym to_write) ∙ h) in
      let to_apply = to_write ∙ m2 in
      let n2 = (write n).1 in
      let (w, e3, m3) =
        >>=-ok (on_store L apply) (λ _. gossip_part d) n2 {b = env}
          (ap (λ r. r.0) (sym to_apply) ∙ h) in
      let to_gossip = to_apply ∙ m3 in
      let (same, sent) =
        gossip_part_lem d (on_store L apply n2).1 (ap (λ r. r.0) (sym to_gossip) ∙ h) in
      (
        same,
        subst (λ (r : Result SaeEnvelope × Node L). IsAnnounced kind apply d n r.1) (sym to_gossip)
            (record {
              within = enforce_sound L i.policy_now d.envelope false n e1;
              payload_written = e2;
              applied = e3;
              store = sent.store;
              subscribed = sent.subscribed;
              body = sent.body;
              body_of = sent.body_of;
              published = sent.published;
            }),
      )
