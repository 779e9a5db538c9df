-- ===== src/Platform/Types.antt =====
-- crates/clave-platform/src/types.rs
use native.Mathlib.Decide.{ℕ_discrete}
use clave.Prelude.{
  ℕ, ◌≡◌, ◌↔◌, Bool, false, ◌&&◌, List, [], ◌∷◌, arith, nat_beq, PartialEq, of_discrete,
}

-- `audit_token: [u32; 8]` is eight words.
pub data ProcId : Type 0 where
  windows : (pid create_time : ℕ) → ProcId
  macos : (t0 t1 t2 t3 t4 t5 t6 t7 : ℕ) → ProcId

-- `ProcId::pid`: word 5 of a macOS audit token.
unfoldable pub pid : ProcId → ℕ
pid (windows p _) = p
pid (macos _ _ _ _ _ p _ _) = p

abbrev pub proc_beq : ProcId → ProcId → Bool
proc_beq (windows p c) (windows q d) = nat_beq p q && nat_beq c d
proc_beq (macos a0 a1 a2 a3 a4 a5 a6 a7) (macos b0 b1 b2 b3 b4 b5 b6 b7) =
    nat_beq a0 b0
    && nat_beq a1 b1
    && nat_beq a2 b2
    && nat_beq a3 b3
    && nat_beq a4 b4
    && nat_beq a5 b5
    && nat_beq a6 b6
    && nat_beq a7 b7
proc_beq _ _ = false

pub proc_beq_iff : (p q : ProcId) → (proc_beq p q ≡ Bool.true) ↔ (p ≡ q)
proc_beq_iff (windows p c) q = ground arith
proc_beq_iff p q = ground arith

instance abbrev pub proc_eq : PartialEq ProcId
proc_eq = record { eq = proc_beq; eq_iff = proc_beq_iff }

pub data Zone : Type 0 where
  work personal : Zone

pub data ClipFormat : Type 0 where
  plain_text rich_text html image files other : ClipFormat

unfoldable pub ClipFormat-discrete : Discrete ClipFormat
ClipFormat-discrete = hlevel

instance abbrev pub clip_format_eq : PartialEq ClipFormat
clip_format_eq = of_discrete ClipFormat-discrete

-- `ClipFormat::ALL`
abbrev pub all_formats : List ClipFormat
all_formats = plain_text ∷ rich_text ∷ html ∷ image ∷ files ∷ other ∷ []

pub record WindowId : Type 0 where
  pub id : ℕ

unfoldable pub WindowId-discrete : Discrete WindowId
WindowId-discrete = hlevel ℕ_discrete

instance abbrev pub window_id_eq : PartialEq WindowId
window_id_eq = of_discrete WindowId-discrete

pub record Rgba : Type 0 where
  pub r : ℕ
  pub g : ℕ
  pub b : ℕ
  pub a : ℕ

-- `Rgba::CLAVE_EDGE`
abbrev pub clave_edge : Rgba
clave_edge = record { r = 0x1e; g = 0x6f; b = 0xd6; a = 0xff }

pub data Decision : Type 0 where
  allow deny watermark prompt sanitize : Decision

pub data Route : Type 0 where
  tunnel direct block : Route
