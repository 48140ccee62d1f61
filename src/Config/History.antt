-- ===== src/Config/History.antt =====
-- src/interface/config.rs with src/interface/peer_server.rs: the peers and the routes over any
-- sequence of reactions of the server, commands, and messages about them.
use wireguard_rs.Base.{
  ◌<◌, ◌≤◌, sym, subst, ap, ◌∙◌, Option, List, [], ◌∷◌, Result, ok, err, length, eq_bytes,
}
use wireguard_rs.Base.Maps.{lookup}
use wireguard_rs.Base.Monad.{then_known_cases}
use wireguard_rs.Consts.{max_peers_per_device}
use wireguard_rs.Crates.{Crates}
use wireguard_rs.Crates.Laws.{TableLaws}
use wireguard_rs.PeerServer.{PeerServer, Inputs}
use wireguard_rs.PeerServer.Events.{ChannelMessage}
use wireguard_rs.PeerServer.Poll.{Input, event, react}
use wireguard_rs.PeerServer.Frame.{Framed}
use wireguard_rs.PeerServer.Frame.Runs.{react-Reacted}
use wireguard_rs.Config.{UpdateEvent, Command, handle_update}
use wireguard_rs.Config.System.{
  System, Happening, reaction, received, command, notify, update_item, update_items, configure,
  deliver, happen, history,
}
use wireguard_rs.Config.Registry.{Registered, InOrder, handle_update-Registered}
use wireguard_rs.Config.Routes.{route, covered}
use wireguard_rs.Config.Routes.Kept.{Routed}
use wireguard_rs.Config.Routes.Updates.{Sound, handle_update-Routed}

module _ {N T : Type 0} (crates : Crates N T) where
  Framed-InOrder :
      (s after : PeerServer N T) → Framed s after → InOrder crates s → InOrder crates after
  Framed-InOrder s after (map, _, info, next, named) g = record {
    keyed = λ k r h. (named r).0 ∙ g.keyed k r (sym (ap (lookup k) map) ∙ h);
    allocated =
        λ k r h. subst (λ n. r < n) (sym next) (g.allocated k r (sym (ap (lookup k) map) ∙ h));
    not_self = λ k h. ap (lookup k) map ∙ g.not_self k (sym (ap (λ i. i.pub_key) info) ∙ h);
    few = subst (λ m. length m ≤ max_peers_per_device) (sym map) g.few;
  }

module _ {N T : Type 0} (crates : Crates N T) (laws : TableLaws crates) where
  Framed-Sound :
      (s after : PeerServer N T) → Framed s after → Sound crates laws s → Sound crates laws after
  Framed-Sound s after (map, router, _, _, named) routed f n r h =
      let e = routed f n r (ap (route crates laws f n) (sym router) ∙ h) in
      record {
        key = e.key;
        known = ap (lookup e.key) map ∙ e.known;
        allowed = ap (covered crates laws f n) (named r).1 ∙ e.allowed;
      }

  -- The peers are registered in order, and every route leads to one that is entitled to it.
  abbrev pub Administered : PeerServer N T → Type 0
  Administered s =
      Registered s.state.pubkey_map s.peers s.next_rc s.state.interface_info.pub_key
      × Routed crates laws s.state.pubkey_map s.peers s.state.router

  react-Administered :
      (i : Inputs × Input) (s : PeerServer N T) → Administered s → Administered (react crates i s)
  react-Administered i s (g, routed) =
      let framed = (react-Reacted crates i s).0 in
      (
        Framed-InOrder crates s (react crates i s) framed g,
        Framed-Sound s (react crates i s) framed routed,
      )

  update_items-Administered :
      (items : List UpdateEvent) (sys : System N T)
      → Administered sys.server
      → Administered (update_items crates items sys).0.server
  unfolding update_items update_item
  update_items-Administered [] sys a = a
  update_items-Administered (item ∷ items) sys a =
      then_known_cases (λ r. Administered r.0.server) (λ r. Administered r.0.server) _ _ sys updated
        (λ _ _ a. a) (λ sys a. update_items-Administered items sys a)
    where
      kept :
          (r : PeerServer N T × Result (Option ChannelMessage))
          → Administered r.0
          → Administered (notify sys r).0.server
      kept (server, ok message) a = a
      kept (server, err e) a = a

      updated : Administered (update_item crates item sys).0.server
      updated = kept (handle_update crates item sys.server) (
        handle_update-Registered crates item sys.server (a.0),
        handle_update-Routed crates laws item sys.server (a.0) (a.1),
      )

  happen-Administered :
      (h : Happening) (sys : System N T)
      → Administered sys.server
      → Administered (happen crates h sys).server
  unfolding happen deliver configure
  happen-Administered (reaction i) sys a = react-Administered i sys.server a
  happen-Administered (received inputs) sys a = delivered sys.channel
    where
      delivered :
          (channel : List ChannelMessage) → Administered (deliver crates inputs channel sys).server
      delivered [] = a
      delivered (message ∷ rest) = react-Administered (inputs, event message) sys.server a
  happen-Administered (command c) sys a = configured c
    where
      configured : (c : Command) → Administered (configure crates c sys).server
      configured (Command.set version items) = update_items-Administered items sys a
      configured (Command.get version) = a

  -- Where a table maps networks to values: whatever happens, in whichever order - reactions of the
  -- server, commands, and messages about them - each peer stays under its own key and its `Rc`
  -- allocated, the interface itself not among the peers, no more than 2^20 of them, and each route
  -- leading to a registered peer that has the network among its allowed ones, where this was so at the
  -- start.
  pub history-Administered :
      (hs : List Happening) (sys : System N T)
      → Administered sys.server
      → Administered (history crates hs sys).server
  unfolding history
  history-Administered [] sys a = a
  history-Administered (h ∷ hs) sys a =
      history-Administered hs (happen crates h sys) (happen-Administered h sys a)
