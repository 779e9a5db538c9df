-- ===== src/Core/Net.antt =====
-- crates/clave-core/src/net.rs: the routes of flows and of DNS queries, and network providers.
pub mod Laws
use clave.Prelude.{
  Bool, true, false, not, Option, none, some, List, [], ◌∷◌, ◌++◌, ◌||◌, Text, codes, list_eq,
  nat_eq, ◌==◌, is_empty, any, find, ends_with, if◌then◌else◌, Result, ok, err,
}
use clave.Platform.Types.{ProcId, Route}
use clave.Core.Zone.{ZoneRegistry, is_supervised}
use clave.Core.Host.{normalize_host}

unfoldable pub classify_flow : ProcId → ZoneRegistry → Bool → Route
classify_flow proc zones dst_blocked =
    if not (is_supervised proc zones)
    then Route.direct
    else if dst_blocked
    then Route.block
    else Route.tunnel

pub data ForwardMode : Type 0 where
  wireguard ipsec explicit_proxy dns : ForwardMode

pub data Forwarding : Type 0 where
  packet_tunnel flow_proxy dns_only : Forwarding

pub data ProviderError : Type 0 where
  missing_endpoint missing_resolvers : ProviderError

abbrev pub ForwardingResult : Type 0
ForwardingResult = Result ProviderError Forwarding

pub record DnsSteering : Type 0 where
  pub resolvers : List Text
  pub match_domains : List Text
  pub steer_all : Bool

-- `params` is a sorted map of texts.
pub record NetworkProvider : Type 0 where
  pub id : Text
  pub display_name : Text
  pub mode : ForwardMode
  pub endpoints : List Text
  pub static_egress_ip : Option Text
  pub dns : Option DnsSteering
  pub params : List (Text × Text)

abbrev need_endpoint : NetworkProvider → Forwarding → ForwardingResult
need_endpoint p f = if is_empty p.endpoints then err missing_endpoint else ok f

abbrev need_resolvers : Option DnsSteering → ForwardingResult
need_resolvers none = err missing_resolvers
need_resolvers (some d) = if not (is_empty d.resolvers) then ok dns_only else err missing_resolvers

-- The arms of `NetworkProvider::forwarding`
abbrev forwarding_by : ForwardMode → NetworkProvider → ForwardingResult
forwarding_by wireguard p = need_endpoint p packet_tunnel
forwarding_by ipsec p = need_endpoint p packet_tunnel
forwarding_by explicit_proxy p = need_endpoint p flow_proxy
forwarding_by dns p = need_resolvers p.dns

unfoldable pub forwarding : NetworkProvider → ForwardingResult
forwarding p = forwarding_by p.mode p

abbrev is_dns : ForwardMode → Bool
is_dns dns = true
is_dns _ = false

unfoldable pub is_egress : NetworkProvider → Bool
is_egress p = not (is_dns p.mode)

pub data DnsDecision : Type 0 where
  steer personal : DnsDecision

unfoldable pub suffix_matches : Text → Text → Bool
suffix_matches qname domain =
    let domain = normalize_host domain in
    if is_empty domain then false else qname == domain || ends_with (codes "." ++ domain) qname

unfoldable pub decide_dns : ProcId → Text → ZoneRegistry → DnsSteering → DnsDecision
decide_dns proc qname zones steering =
    if not (is_supervised proc zones)
    then personal
    else if steering.steer_all
    then steer
    else let qname = normalize_host qname in
      if any (λ domain. suffix_matches qname domain) steering.match_domains then steer else personal

abbrev dns_route : DnsDecision → Route
dns_route steer = Route.tunnel
dns_route personal = Route.direct

abbrev steered_route : ProcId → ZoneRegistry → Text → Option DnsSteering → Route
steered_route proc zones qname none = Route.tunnel
steered_route proc zones qname (some steering) = dns_route (decide_dns proc qname zones steering)

unfoldable pub classify_dns_flow : ProcId → ZoneRegistry → Text → Option DnsSteering → Route
classify_dns_flow proc zones qname steering =
    if not (is_supervised proc zones) then Route.direct else steered_route proc zones qname steering
