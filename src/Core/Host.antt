-- ===== src/Core/Host.antt =====
-- crates/clave-core/src/policy.rs: `normalize_host`, which the network code shares.
use clave.Prelude.{Text, to_lower, trim_end}

unfoldable pub normalize_host : Text → Text
normalize_host host = to_lower (trim_end b'.' host)
