-- ===== src/Net/Tests.antt =====
-- Flows over the loopback tunnel.
use clave.Prelude.{
  ℕ, ◌≡◌, some, ok, err, nat_eq, ◌≢◌, refl, arith, true, false, none, List, [], ◌∷◌, codes, lookup,
}
use clave.Platform.Types.{ProcId, windows}
use clave.Core.Zone.{ZoneRegistry, launcher, is_supervised}
use clave.Net.Loopback.{LoopbackTunnel, loopback}
use clave.Core.Net.{NetworkProvider, ipsec, dns}
use clave.Net.Provider.{dns_only, unsupported, build_egress}
use clave.Net.Router.{to_gateway, pass_through, SplitRouter, new, outbound}
use clave.Net.Router.Laws.{
  Op, open_op, open_dns_op, outbound_op, IsPersonal, IsWork, run, personal_stays_out, work_stays_in,
}

abbrev tunnel : LoopbackTunnel
tunnel = record { key = 90 }

abbrev worker : ProcId
worker = windows 1 1

abbrev player : ProcId
player = windows 2 1

abbrev zones : ZoneRegistry
zones = record { members = (worker, record { id = worker; reason = launcher }) ∷ [] }

abbrev calls : List Op
calls =
    open_op 1 worker zones false
    ∷ open_op 2 player zones true
    ∷ open_dns_op 2 player zones (codes "a.b") none
    ∷ outbound_op 1 (5 ∷ [])
    ∷ []

personal_stays_out_example :
    (outbound loopback 2 (5 ∷ []) (run loopback calls (new tunnel))).1 ≢ to_gateway (95 ∷ [])
unfolding IsPersonal is_supervised lookup
personal_stays_out_example =
    personal_stays_out loopback 2 tunnel calls (5 ∷ []) (95 ∷ [])
      (λ same. ground arith, (λ same. refl, (λ same. refl, (tt, tt))))

work_stays_in_example :
    (outbound loopback 1 (5 ∷ []) (run loopback calls (new tunnel))).1 ≢ pass_through
unfolding IsWork is_supervised lookup
work_stays_in_example =
    work_stays_in loopback 1 tunnel calls (5 ∷ [])
      (λ same. refl, (λ same. ground arith, (λ same. ground arith, (tt, tt))))

abbrev router : SplitRouter LoopbackTunnel
router = new tunnel

abbrev dns_provider : NetworkProvider
dns_provider = record {
  id = codes "p";
  display_name = [];
  mode = dns;
  endpoints = [];
  static_egress_ip = none;
  dns =
      some
        (record { resolvers = codes "208.67.222.222" ∷ []; match_domains = []; steer_all = true });
  params = [];
}

-- A DNS provider needs no keys, and one for IPsec is refused, not downgraded.
egress_by_mode :
    (build_egress (some (λ (c : ℕ) i. ok c)) dns_provider none 0 ≡ ok dns_only)
    × (build_egress
          (some (λ (c : ℕ) i. ok c))
          (record dns_provider { mode = ipsec; endpoints = codes "gw:4500" ∷ [] })
          none
          0
        ≡ err (unsupported ipsec))
unfolding build_egress
egress_by_mode = (refl, refl)
