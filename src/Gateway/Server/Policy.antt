-- ===== src/Gateway/Server/Policy.antt =====
-- crates/clave-gateway/src/gateway.rs: the administration of policies.
use clave.Prelude.{ℕ, Option, none, some, List, [], ok}
use clave.Core.Policy.{UnixTime, PolicyBundle}
use clave.Identity.Authz.{manage_policy}
use clave.Proto.External.{Ed25519, Postcard}
use clave.Proto.Command.{Envelope, SignedCommand}
use clave.Gateway.Action.{not_found, no_policy_issuer, no_policy, Action, raise, require_some, ◌>>◌}
use clave.Gateway.Provider.{RequestContext}
use clave.Gateway.Admin.{require}
use clave.Gateway.Policies.{MemPolicyIssuer, sign_current, current, author_policy, policy_versions}
use clave.Gateway.Server.{Gateway}

abbrev current_of : RequestContext → Option MemPolicyIssuer → Option PolicyBundle
unfolding current
current_of ctx none = none
current_of ctx (some issuer) = current ctx.workspace issuer

unfoldable pub get_policy : RequestContext → Action Gateway (Option PolicyBundle)
unfolding require current_of
get_policy ctx = do require ctx manage_policy; λ g. (ok (current_of ctx g.policy_issuer), g)

abbrev author_with :
    RequestContext → PolicyBundle → Option MemPolicyIssuer → Action Gateway PolicyBundle
unfolding author_policy
author_with ctx bundle none = raise (not_found no_policy_issuer)
author_with ctx bundle (some issuer) = λ g.
    let (versioned, issuer') = author_policy ctx.workspace bundle issuer in
    (ok versioned, record g { policy_issuer = some issuer' })

unfoldable pub author : RequestContext → PolicyBundle → Action Gateway PolicyBundle
unfolding require author_with
author ctx bundle = do require ctx manage_policy; λ g. author_with ctx bundle g.policy_issuer g

module _ (ed : Ed25519) (codec : Postcard Envelope) where
  abbrev reissue_with :
      RequestContext → UnixTime → Option MemPolicyIssuer → Action Gateway SignedCommand
  unfolding sign_current
  reissue_with ctx now none = raise (not_found no_policy_issuer)
  reissue_with ctx now (some issuer) = λ g.
      let (signed, issuer') = sign_current ed codec ctx.workspace now issuer in
      require_some (not_found no_policy) signed (record g { policy_issuer = some issuer' })

  unfoldable pub reissue_policy : RequestContext → UnixTime → Action Gateway SignedCommand
  unfolding require reissue_with
  reissue_policy ctx now = do require ctx manage_policy; λ g. reissue_with ctx now g.policy_issuer g

abbrev versions_of : RequestContext → Option MemPolicyIssuer → List ℕ
unfolding policy_versions
versions_of ctx none = []
versions_of ctx (some issuer) = policy_versions ctx.workspace issuer

unfoldable pub versions : RequestContext → Action Gateway (List ℕ)
unfolding require versions_of
versions ctx = do require ctx manage_policy; λ g. (ok (versions_of ctx g.policy_issuer), g)
