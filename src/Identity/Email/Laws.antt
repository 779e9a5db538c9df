-- ===== src/Identity/Email/Laws.antt =====
-- A parsed address is in normal form: lower case, one `@`, no blanks.
use clave.Prelude.{
  ℕ, ◌≡◌, refl, true, false, Option, none, some, [], ◌∷◌, ◌++◌, arith, Text, any, contains,
  is_empty, is_whitespace, trim, to_lower, to_lower_idem, nat_eq, Bool-cases, inl, inr,
}
use clave.Identity.Email.{EmailAddr, split_once, check_parts, parse}

split_once_lem :
    (at : ℕ) (s l d : Text)
    → split_once at s ≡ some (l, d)
    → (s ≡ l ++ (at ∷ d)) × (contains at l ≡ false)
unfolding split_once
split_once_lem at [] l d h = ground arith
split_once_lem at (c ∷ s) l d h =
    by_rest (split_once at s) refl (λ l' d' e. split_once_lem at s l' d' e)
  where
    by_rest :
        (r : Option (Text × Text))
        → split_once at s ≡ r
        → ((l' d' : Text)
            → split_once at s ≡ some (l', d')
            → (s ≡ l' ++ (at ∷ d')) × (contains at l' ≡ false))
        → (c ∷ s ≡ l ++ (at ∷ d)) × (contains at l ≡ false)
    by_rest none e rec = ground arith
    by_rest (some (l', d')) e rec = let (whole, first) = rec l' d' e in ground arith

-- The parts of an address: not empty, one `@`, a dot in the domain, no blank, and lower case.
pub record IsNormal (e local domain : Text) : Type 0 where
  pub whole : e ≡ local ++ (b'@' ∷ domain)
  pub local_some : is_empty local ≡ false
  pub domain_some : is_empty domain ≡ false
  pub local_plain : contains b'@' local ≡ false
  pub domain_plain : contains b'@' domain ≡ false
  pub dotted : contains b'.' domain ≡ true
  pub no_blank : any is_whitespace e ≡ false
  pub lowered : to_lower e ≡ e

check_parts_lem :
    (s e : Text)
    → to_lower s ≡ s
    → any is_whitespace s ≡ false
    → check_parts s (split_once b'@' s) ≡ some e
    → (local : Text) × (domain : Text) × IsNormal e local domain
check_parts_lem s e low plain h = by_split (split_once b'@' s) refl
  where
    by_split :
        (r : Option (Text × Text))
        → split_once b'@' s ≡ r
        → (local : Text) × (domain : Text) × IsNormal e local domain
    by_split none eq = ground arith
    by_split (some (l, d)) eq =
        let (whole, first) = split_once_lem b'@' s l d eq in
        (
          l,
          d,
          record {
            whole = ground arith;
            local_some = ground arith;
            domain_some = ground arith;
            local_plain = first;
            domain_plain = ground arith;
            dotted = ground arith;
            no_blank = ground arith;
            lowered = ground arith;
          },
        )

-- An address that is parsed has a local part and a domain around its one `@`, a dot in the domain, no blank,
-- and is in lower case.
pub parse-IsNormal :
    (raw : Text) (e : EmailAddr)
    → parse raw ≡ some e
    → (local : Text) × (domain : Text) × IsNormal e local domain
unfolding parse
parse-IsNormal raw e h = elim (Bool-cases (any is_whitespace (to_lower (trim raw)))) [
  | inl blank ↦ ground arith
  | inr plain ↦
      check_parts_lem (to_lower (trim raw)) e (to_lower_idem (trim raw)) plain (ground arith)
]
