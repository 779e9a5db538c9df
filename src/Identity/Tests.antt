-- ===== src/Identity/Tests.antt =====
-- An invitation taken up, and the addresses of the code's own test cases.
use clave.Prelude.{
  ◌≡◌, refl, true, false, none, some, [], ◌∷◌, codes, ok, Text, list_beq, to_lower, trim,
}
use clave.Identity.Email.{EmailAddr, parse, email_domain}
use clave.Identity.Model.{
  admin, active, required, sso, Workspace, domain_allowed, Membership, Invitation,
}
use clave.Identity.Authz.{accept_invitation}

abbrev ada : Text
ada = codes " Ada@Acme.com "

abbrev address : EmailAddr
address = codes "ada@acme.com"

abbrev acme : Workspace
acme = record { id = 7; allowed_domains = codes "ACME.com" ∷ []; sso = required }

abbrev invitation : Invitation
invitation = record {
  workspace = 7;
  email = address;
  role = admin;
  expires_at = 100;
  accepted = false;
}

abbrev joined : Membership
joined = record { workspace = 7; user = 3; role = admin; status = active }

parse_run : parse ada ≡ some address
unfolding parse to_lower trim
parse_run = refl

two_ats : parse (codes "a@b@c.com") ≡ none
unfolding parse to_lower trim
two_ats = refl

accept_run : accept_invitation 3 address (sso true) acme invitation 50 ≡ ok joined
unfolding accept_invitation domain_allowed email_domain list_beq to_lower trim
accept_run = refl
