-- ===== src/Node/Start/Release.antt =====
-- What a failed `NewNode` stops, and what it leaves running.
use openclaw_p2p.Node.Start.Started.{all_running, run_host-ok}
use openclaw_p2p.Node.Start.Services.{start_services_lem}
use openclaw_p2p.Node.Start.{Running}
use openclaw_p2p.Exec.Outcomes.{>>=-err}
use openclaw_p2p.Exec.Outcomes.{on_error-Fails, >>=-Fails, Fails}
use openclaw_p2p.Store.Open.{open_store}
use openclaw_p2p.Store.State.{Store}
use openclaw_p2p.Store.Records.{append_event}
use openclaw_p2p.Gossip.{subscribe_topics}
use openclaw_p2p.Node.Config.{with_defaults, check_config, Config}
use openclaw_p2p.Node.Peers.{AddrInfo}
use openclaw_p2p.Hosts.{Identity, KeyFormat}
use openclaw_p2p.Error.{wrap, Check, err, ok, Error, Result}
use openclaw_p2p.Node.Start.{
  start_host, with_cancel, RunningNode, run_host, start_hosted, started_event, opened_in,
  start_node, log_started, new_node, prepare, on_gossip_of, start_gossip, stop_discovery,
  start_discovery, close_mdns, start_mdns, cancel, run_subscriptions, run_gossip, run_discovery,
  run_mdns, start_services, StartInputs, World,
}
use openclaw_p2p.Sae.Libs.{Libs}
use openclaw_p2p.Exec.{Exec, lift, continue, ◌>>=◌, ◌>>◌}
use openclaw_p2p.Prelude.{
  ◌∙◌, ap, true, sym, subst, inr, inl, none, Option, some, ◌⊎◌, refl, String, false, ◌≡◌,
}

-- The contexts are cancelled.
abbrev pub IsCancelled : World → Type 0
IsCancelled w = (w.running.context ≡ false) × (w.running.discovery ≡ false)

module _ {L : Libs} {Addr : Type 0} (K : KeyFormat L) (new_multiaddr : String → Result Addr)
    (addr_info : Addr → Result (AddrInfo L)) (i : StartInputs L) where
  start_services-Fails :
      (cfg : Config) (own : L.PeerId)
      → Fails IsCancelled (start_services K new_multiaddr addr_info i cfg own)
  unfolding start_services
  start_services-Fails cfg own =
      let mdns = run_mdns K new_multiaddr addr_info i in
      let discovery = run_discovery K new_multiaddr addr_info i cfg own in
      let gossip = run_gossip K new_multiaddr addr_info i in
      let subscriptions = run_subscriptions K new_multiaddr addr_info i cfg in
      >>=-Fails IsCancelled mdns (λ _. discovery >> (gossip >> subscriptions))
        (on_error-Fails IsCancelled cancel (start_mdns K new_multiaddr addr_info i)
          (λ w. (refl, refl)))
        (λ _.
          >>=-Fails IsCancelled discovery (λ _. gossip >> subscriptions)
            (on_error-Fails IsCancelled (λ w. cancel (close_mdns w))
              (start_discovery K new_multiaddr addr_info i cfg own) (λ w. (refl, refl)))
            (λ _.
              >>=-Fails IsCancelled gossip (λ _. subscriptions)
                (on_error-Fails IsCancelled (λ w. cancel (stop_discovery w))
                  (start_gossip K new_multiaddr addr_info i) (λ w. (refl, refl)))
                (λ _.
                  on_error-Fails IsCancelled (λ w. cancel (stop_discovery (close_mdns w)))
                    (on_gossip_of (subscribe_topics i.pubsub cfg.topics)) (λ w. (refl, refl)))))

  opened_in-running : (w : World) (r : Result Store) → (opened_in w r).1.running ≡ w.running
  opened_in-running w (ok s) = refl
  opened_in-running w (err e) = refl

  prepare-running :
      (cfg : Config) (w : World) → (prepare K new_multiaddr addr_info i cfg w).1.running ≡ w.running
  unfolding prepare
  prepare-running cfg w = after (check_config cfg) (wrap "create data dir" i.mkdir)
    where
      after :
          (a b : Check)
          → ((lift a >> (lift b >> λ v. opened_in v (open_store i.opening v.store))) w).1.running
            ≡ w.running
      after (ok a) (ok b) = opened_in-running w (open_store i.opening w.store)
      after (ok a) (err e) = refl
      after (err e) b = refl

  log_started-err :
      (cfg : Config) (own : L.PeerId) (w : World) (e : Error)
      → (log_started K new_multiaddr addr_info i cfg own w).0 ≡ err e
      → i.event_fault ≡ some e
  unfolding log_started append_event
  log_started-err cfg own w e h = after i.event_fault h
    where
      after :
          (fault : Option Error)
          → (append_event fault i.event_now
              (started_event cfg.profile (L.peer_string own))
              w.store).0
            ≡ err e
          → fault ≡ some e
      after none h = cc h
      after (some x) h = cc h

  log_started-running :
      (cfg : Config) (own : L.PeerId) (w : World)
      → (log_started K new_multiaddr addr_info i cfg own w).1.running ≡ w.running
  unfolding log_started
  log_started-running cfg own w = refl

  -- The contexts are cancelled; or everything runs, and the error is that of the last event.
  abbrev pub IsReleased : Error → World → Type 0
  IsReleased e w = IsCancelled w ⊎ ((w.running ≡ all_running) × (i.event_fault ≡ some e))

  start_hosted-err :
      (cfg : Config) (identity : Identity L) (w : World) (e : Error)
      → record w.running { mdns = true; discovery = true } ≡ all_running
      → (start_hosted K new_multiaddr addr_info i cfg identity w).0 ≡ err e
      → IsReleased e (start_hosted K new_multiaddr addr_info i cfg identity w).1
  start_hosted-err cfg identity w e run h =
      split (>>=-err services (λ _. log >> lift (ok node)) w e h)
    where
      services : Exec World (Unit {0})
      services = start_services K new_multiaddr addr_info i cfg identity.peer_id

      log : Exec World (Unit {0})
      log = log_started K new_multiaddr addr_info i cfg identity.peer_id

      node : RunningNode L
      node = record { config = cfg; identity = identity }

      logged :
          (v : World)
          → v.running ≡ all_running
          → (((log v).0 ≡ err e) × (((log >> lift (ok node)) v).1 ≡ (log v).1))
            ⊎ ((a : Unit {0}) × ((log v).0 ≡ ok a)
                × ((log >> lift (ok node)) v ≡ (ok node, (log v).1)))
          → ((log >> lift (ok node)) v).0 ≡ err e
          → IsReleased e ((log >> lift (ok node)) v).1
      logged v r (inl (failed, same)) g = inr (
        ap (λ (x : World). x.running) same ∙ log_started-running cfg identity.peer_id v ∙ r,
        log_started-err cfg identity.peer_id v e failed,
      )
      logged v r (inr (a, passed, same)) g =
          let bad : ok node ≡ err e =
            ap (λ (x : Result (RunningNode L) × World). x.0) (sym same) ∙ g in
          cc bad

      split :
          (((services w).0 ≡ err e)
              × (((services >> (log >> lift (ok node))) w).1 ≡ (services w).1))
            ⊎ ((a : Unit {0}) × ((services w).0 ≡ ok a)
                × ((services >> (log >> lift (ok node))) w
                    ≡ (log >> lift (ok node)) (services w).1))
          → IsReleased e ((services >> (log >> lift (ok node))) w).1
      split (inl (failed, same)) =
          inl (subst IsCancelled (sym same) (start_services-Fails cfg identity.peer_id w e failed))
      split (inr (a, passed, same)) =
          let has = start_services_lem K new_multiaddr addr_info i cfg identity.peer_id w passed in
          let v = (services w).1 in
          let g : ((log >> lift (ok node)) v).0 ≡ err e =
            ap (λ (x : Result (RunningNode L) × World). x.0) (sym same) ∙ h in
          subst (IsReleased e) (ap (λ (x : Result (RunningNode L) × World). x.1) (sym same))
            (logged v (has.running ∙ run) (>>=-err log (λ _. lift (ok node)) v e g) g)

  start_node-err :
      (cfg : Config) (w : World) (e : Error)
      → IsCancelled w
      → (start_node K new_multiaddr addr_info i cfg w).0 ≡ err e
      → IsReleased e (start_node K new_multiaddr addr_info i cfg w).1
  unfolding start_node
  start_node-err cfg w e c h =
      after (prepare K new_multiaddr addr_info i cfg w)
        (subst (λ r. (r.context ≡ false) × (r.discovery ≡ false)) (sym (prepare-running cfg w)) c) h
    where
      host : Exec World (Identity L)
      host = run_host K new_multiaddr addr_info i cfg

      rest : Identity L → Exec World (RunningNode L)
      rest = start_hosted K new_multiaddr addr_info i cfg

      hosted :
          (v : World)
          → v.running.context ≡ true
          → (((host v).0 ≡ err e) × (((host >>= rest) v).1 ≡ (host v).1))
            ⊎ ((a : Identity L) × ((host v).0 ≡ ok a) × ((host >>= rest) v ≡ rest a (host v).1))
          → ((host >>= rest) v).0 ≡ err e
          → IsReleased e ((host >>= rest) v).1
      hosted v live (inl (failed, same)) g = inl (
          subst IsCancelled (sym same) (
            on_error-Fails IsCancelled cancel (start_host K new_multiaddr addr_info i cfg)
              (λ x. (refl, refl)) v e failed))
      hosted v live (inr (a, passed, same)) g =
          let (is, run) = run_host-ok K new_multiaddr addr_info i cfg v a passed in
          subst (IsReleased e) (ap (λ (x : Result (RunningNode L) × World). x.1) (sym same)) (
            start_hosted-err cfg a (host v).1 e
              (ap (λ (q : Running). record q { mdns = true; discovery = true }) run
                ∙ ap (λ b. record all_running { context = b }) live)
              (ap (λ (x : Result (RunningNode L) × World). x.0) (sym same) ∙ g))

      after :
          (r : Check × World)
          → IsCancelled r.1
          → (continue r.0 (λ _. with_cancel >> (host >>= rest)) r.1).0 ≡ err e
          → IsReleased e (continue r.0 (λ _. with_cancel >> (host >>= rest)) r.1).1
      after (ok u, v) c h =
          hosted (with_cancel v).1 refl (>>=-err host rest (with_cancel v).1 e h) h
      after (err x, v) c h = inl c

  -- A `NewNode` that fails has cancelled its contexts, if none was live before; or else everything
  -- that it starts was started and is left running, and the error is that of the last event.
  pub new_node-IsReleased :
      (cfg : Config) (w : World) (e : Error)
      → IsCancelled w
      → (new_node K new_multiaddr addr_info i cfg w).0 ≡ err e
      → IsReleased e (new_node K new_multiaddr addr_info i cfg w).1
  unfolding new_node
  new_node-IsReleased cfg w e c h = start_node-err (with_defaults cfg) w e c h
