-- ===== src/Net/Router/Laws.antt =====
-- No flow of a personal process reaches the gateway, and no flow of a work process bypasses it.
use clave.Prelude.{
  nat_eq, ◌==◌, ◌≡◌, ◌≢◌, refl, arith, ap, Bool, true, false, Option, none, some, List, [], ◌∷◌,
  Text, Bytes, lookup, insert, lookup-insert, lookup-remove, All, All-map, ◌↔◌, Bool-cases, inl,
  inr, sym, ◌∙◌,
}
use mathlib.Core.Path.{subst}
use clave.Platform.Types.{ProcId}
use clave.Core.Zone.{ZoneRegistry, is_supervised}
use clave.Core.Net.{DnsSteering, classify_flow, classify_dns_flow}
use clave.Net.Tunnel.{Tunnel}
use clave.Net.Router.{
  FlowId, FlowDisposition, held_offline, to_gateway, pass_through, SplitRouter, new, link_is_up,
  resolve, open_flow, open_dns_flow, close_flow, outbound, outbound_by, inbound, poll_outgoing,
  tick,
}

-- A call of the router, with the registry as it is then.
pub data Op : Type 0 where
  open_op : (id : FlowId) (proc : ProcId) (zones : ZoneRegistry) (dst_blocked : Bool) → Op
  open_dns_op :
      (id : FlowId) (proc : ProcId) (zones : ZoneRegistry) (qname : Text)
      (steering : Option DnsSteering)
      → Op
  close_op : (id : FlowId) → Op
  outbound_op : (id : FlowId) (ip_packet : Bytes) → Op
  inbound_op : (datagram : Bytes) → Op
  poll_op tick_op : Op

-- Every opening of the flow is for a process outside the registry.
unfoldable pub IsPersonal : FlowId → Op → Type 0
IsPersonal id (open_op other proc zones dst_blocked) = other ≡ id → is_supervised proc zones ≡ false
IsPersonal id (open_dns_op other proc zones qname steering) =
    other ≡ id → is_supervised proc zones ≡ false
IsPersonal id _ = Unit

-- Every opening of the flow is a connection of a supervised process.
unfoldable pub IsWork : FlowId → Op → Type 0
IsWork id (open_op other proc zones dst_blocked) = other ≡ id → is_supervised proc zones ≡ true
IsWork id (open_dns_op other proc zones qname steering) = other ≢ id
IsWork id _ = Unit

module _ {T : Type 0} (calls : Tunnel T) where
  unfoldable pub step : Op → SplitRouter T → SplitRouter T
  unfolding open_flow open_dns_flow close_flow outbound inbound poll_outgoing tick
  step (open_op id proc zones dst_blocked) r = (open_flow calls id proc zones dst_blocked r).0
  step (open_dns_op id proc zones qname steering) r =
      (open_dns_flow calls id proc zones qname steering r).0
  step (close_op id) r = close_flow id r
  step (outbound_op id ip_packet) r = (outbound calls id ip_packet r).0
  step (inbound_op datagram) r = (inbound calls datagram r).0
  step poll_op r = (poll_outgoing calls r).0
  step tick_op r = (tick calls r).0

  unfoldable pub run : List Op → SplitRouter T → SplitRouter T
  unfolding step
  run [] r = r
  run (op ∷ ops) r = run ops (step op r)

  module _ (Fits : FlowDisposition → Type 0) (id : FlowId) where
    -- The flow is not open, or its disposition is one of these.
    abbrev IsHeld : SplitRouter T → Type 0
    IsHeld r = (d : FlowDisposition) → lookup id r.flows ≡ some d → Fits d

    -- The call does not open the flow with another disposition.
    abbrev Keeps : Op → Type 0
    Keeps (open_op other proc zones dst_blocked) =
        other ≡ id → (up : Bool) → Fits (resolve up (classify_flow proc zones dst_blocked))
    Keeps (open_dns_op other proc zones qname steering) =
        other ≡ id → (up : Bool) → Fits (resolve up (classify_dns_flow proc zones qname steering))
    Keeps _ = Unit

    open_held :
        (other : FlowId) (new_one : FlowDisposition) (r : SplitRouter T)
        → (other ≡ id → Fits new_one)
        → IsHeld r
        → (d : FlowDisposition) → lookup id (insert other new_one r.flows) ≡ some d
        → Fits d
    open_held other new_one r fits held d h = elim (Bool-cases (other == id)) [
      | inl same ↦
          subst Fits (ground (arith, lookup-insert other id new_one r.flows)) (fits (ground arith))
      | inr apart ↦ held d (ground (arith, lookup-insert other id new_one r.flows))
    ]

    outbound_held :
        (other : FlowId) (p : Bytes) (r : SplitRouter T)
        → (outbound calls other p r).0.flows ≡ r.flows
    unfolding outbound
    outbound_held other p r = ground arith

    step-IsHeld : (op : Op) (r : SplitRouter T) → Keeps op → IsHeld r → IsHeld (step op r)
    unfolding step open_flow open_dns_flow close_flow inbound poll_outgoing tick
    step-IsHeld (open_op other proc zones dst_blocked) r keeps held d h =
        open_held other (resolve (link_is_up calls r) (classify_flow proc zones dst_blocked)) r
          (λ same. keeps same (link_is_up calls r)) held d h
    step-IsHeld (open_dns_op other proc zones qname steering) r keeps held d h =
        open_held other (resolve (link_is_up calls r) (classify_dns_flow proc zones qname steering))
          r (λ same. keeps same (link_is_up calls r)) held d h
    step-IsHeld (close_op other) r keeps held d h =
        held d (ground (arith, lookup-remove other id r.flows))
    step-IsHeld (outbound_op other p) r keeps held d h =
        held d (ap (λ f. lookup id f) (sym (outbound_held other p r)) ∙ h)
    step-IsHeld (inbound_op datagram) r keeps held d h = held d h
    step-IsHeld poll_op r keeps held d h = held d h
    step-IsHeld tick_op r keeps held d h = held d h

    run-IsHeld : (ops : List Op) (r : SplitRouter T) → All Keeps ops → IsHeld r → IsHeld (run ops r)
    unfolding run
    run-IsHeld [] r keeps held = held
    run-IsHeld (op ∷ ops) r keeps held =
        run-IsHeld ops (step op r) keeps.1 (step-IsHeld op r keeps.0 held)

  module _ (id : FlowId) where
    personal-Keeps : (op : Op) → IsPersonal id op → Keeps (λ d. d ≡ FlowDisposition.direct) id op
    unfolding IsPersonal classify_flow classify_dns_flow
    personal-Keeps (open_op other proc zones dst_blocked) h = λ same up. ground (arith, h same)
    personal-Keeps (open_dns_op other proc zones qname steering) h =
        λ same up. ground (arith, h same)
    personal-Keeps (close_op other) h = tt
    personal-Keeps (outbound_op other p) h = tt
    personal-Keeps (inbound_op datagram) h = tt
    personal-Keeps poll_op h = tt
    personal-Keeps tick_op h = tt

    work-Keeps : (op : Op) → IsWork id op → Keeps (λ d. d ≢ FlowDisposition.direct) id op
    unfolding IsWork classify_flow
    work-Keeps (open_op other proc zones dst_blocked) h = λ same up. ground (arith, h same)
    work-Keeps (open_dns_op other proc zones qname steering) h = λ same up. ground (arith, h same)
    work-Keeps (close_op other) h = tt
    work-Keeps (outbound_op other p) h = tt
    work-Keeps (inbound_op datagram) h = tt
    work-Keeps poll_op h = tt
    work-Keeps tick_op h = tt

  new-IsHeld : (Fits : FlowDisposition → Type 0) (id : FlowId) (t : T) → IsHeld Fits id (new t)
  unfolding lookup
  new-IsHeld Fits id t d h = ground arith

  direct_passes :
      (o : Option FlowDisposition) (p datagram : Bytes) (r : SplitRouter T)
      → ((d : FlowDisposition) → o ≡ some d → d ≡ FlowDisposition.direct)
      → (outbound_by calls o p r).1 ≢ to_gateway datagram
  direct_passes none p datagram r held e = ground arith
  direct_passes (some d) p datagram r held e = let is_direct = held d refl in ground arith

  other_stays :
      (o : Option FlowDisposition) (p : Bytes) (r : SplitRouter T)
      → ((d : FlowDisposition) → o ≡ some d → d ≢ FlowDisposition.direct)
      → (outbound_by calls o p r).1 ≢ pass_through
  other_stays none p r held e = ground arith
  other_stays (some d) p r held e = let not_direct = held d refl in ground arith

  -- On a new router, after any sequence of calls in which the flow was only ever opened for processes
  -- that were not supervised at the time, none of its packets goes to the gateway.
  pub personal_stays_out :
      (id : FlowId) (t : T) (ops : List Op) (ip_packet datagram : Bytes)
      → All (λ op. IsPersonal id op) ops
      → (outbound calls id ip_packet (run ops (new t))).1 ≢ to_gateway datagram
  unfolding outbound
  personal_stays_out id t ops ip_packet datagram h e =
      direct_passes (lookup id (run ops (new t)).flows) ip_packet datagram (run ops (new t))
        (run-IsHeld (λ d. d ≡ FlowDisposition.direct) id ops (new t)
          (All-map (personal-Keeps id) ops h) (new-IsHeld (λ d. d ≡ FlowDisposition.direct) id t))
        e

  -- On a new router, after any sequence of calls in which the flow was only ever opened as a connection of
  -- processes that were supervised at the time, none of its packets passes by the tunnel.
  pub work_stays_in :
      (id : FlowId) (t : T) (ops : List Op) (ip_packet : Bytes)
      → All (λ op. IsWork id op) ops
      → (outbound calls id ip_packet (run ops (new t))).1 ≢ pass_through
  unfolding outbound
  work_stays_in id t ops ip_packet h e =
      other_stays (lookup id (run ops (new t)).flows) ip_packet (run ops (new t))
        (run-IsHeld (λ d. d ≢ FlowDisposition.direct) id ops (new t) (All-map (work-Keeps id) ops h)
          (new-IsHeld (λ d. d ≢ FlowDisposition.direct) id t))
        e

  -- A connection that is opened is recorded with the disposition that is returned, and no other flow's
  -- changes; closing it forgets it. It goes direct exactly for a process that is not supervised, to the
  -- tunnel exactly for a supervised one with a destination that is not blocked while the link is up, and it
  -- is held while the link is down.
  pub open_flow_lem :
      (id other : FlowId) (proc : ProcId) (zones : ZoneRegistry) (blocked : Bool)
      (r : SplitRouter T)
      → other ≢ id
      → (lookup id (open_flow calls id proc zones blocked r).0.flows
          ≡ some (open_flow calls id proc zones blocked r).1)
        × (lookup other (open_flow calls id proc zones blocked r).0.flows ≡ lookup other r.flows)
        × (lookup id (close_flow id (open_flow calls id proc zones blocked r).0).flows ≡ none)
        × (((open_flow calls id proc zones blocked r).1 ≡ FlowDisposition.direct)
            ↔ (is_supervised proc zones ≡ false))
        × (((open_flow calls id proc zones blocked r).1 ≡ FlowDisposition.tunnel)
            ↔ ((is_supervised proc zones ≡ true) × (blocked ≡ false) × (link_is_up calls r ≡ true)))
        × (((open_flow calls id proc zones blocked r).1 ≡ held_offline) ↔ (
            (is_supervised proc zones ≡ true) × (blocked ≡ false) × (link_is_up calls r ≡ false)))
  unfolding open_flow close_flow classify_flow
  open_flow_lem id other proc zones blocked r ne =
      let d = (open_flow calls id proc zones blocked r).1 in
      let here = lookup-insert id id d r.flows in
      let apart = lookup-insert id other d r.flows in
      let gone = lookup-remove id id (insert id d r.flows) in
      (ground arith, ground arith, ground arith, ground arith, ground arith, ground arith)
