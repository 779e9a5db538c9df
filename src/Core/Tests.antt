-- ===== src/Core/Tests.antt =====
-- The theorems on the policy brain at concrete inputs, and runs of the code's own test cases.
use clave.Prelude.{
  ◌≤◌, ◌≡◌, refl, ◌↔◌, ◌⊎◌, true, false, none, some, List, [], ◌∷◌, codes, Text, Any, insert,
  list_beq, to_lower, trim_end, strip_prefix, replace, trim,
}
use clave.Platform.Types.{ProcId, windows}
use clave.Core.Zone.{
  ZoneRegistry, launcher, child, allow_list, join, member, supervised_pids, is_supervised,
}
use clave.Core.Zone.Laws.{Op, join_op, leave_op, reset_op, run, spec_run, member-run}
use clave.Core.Host.{normalize_host}
use clave.Core.App.{BinaryMatch, AppPolicy, new_rule, match_app, binary_matches, classify_exec}
use clave.Core.Net.{DnsSteering, steer, decide_dns}
use clave.Core.Net.Laws.{IsWithin, decide_dns_iff}
use clave.Core.Policy.{PolicyBundle, NetworkPolicy, FilePolicy, restrictive_default, validate}
use clave.Core.Path.{
  under, classify_path, norm, work_data, system_cow, pass_through, is_windows_style,
}
use clave.Core.Path.Laws.{IsUnder, classify_path_iff}
use clave.Core.Decide.{Action, read, is_allow, decide}
use clave.Core.Decide.Laws.{Permits, decide_iff}
use clave.Core.Learn.{path_access, named_object, LearnedProfile, synthesize}

abbrev worker : ProcId
worker = windows 7 1

abbrev zones : ZoneRegistry
zones = record { members = (worker, record { id = worker; reason = launcher }) ∷ [] }

abbrev visits : List Op
visits =
    join_op (windows 9 1) (child worker)
    ∷ leave_op worker
    ∷ reset_op ((worker, allow_list) ∷ (worker, launcher) ∷ [])
    ∷ []

member-run_example : member worker (run visits zones) ≡ spec_run visits (λ p. member p zones) worker
member-run_example = member-run visits zones worker

abbrev crowd : ZoneRegistry
crowd =
    unfold join in
    join (windows 9 1) launcher (join (windows 4 2) launcher (join (windows 9 3) launcher zones))

crowd_pids : supervised_pids crowd ≡ 4 ∷ 7 ∷ 9 ∷ []
unfolding supervised_pids insert join
crowd_pids = refl

abbrev chrome : BinaryMatch
chrome = BinaryMatch.macos (codes "ABCDE12345") (codes "com.google.Chrome")

abbrev apps : AppPolicy
apps = record { allow = new_rule (codes "chrome-work") chrome ∷ [] }

chrome_joins : (classify_exec chrome false true apps).matched ≡ some (codes "chrome-work")
unfolding classify_exec list_beq match_app binary_matches
chrome_joins = refl

abbrev steering : DnsSteering
steering = record {
  resolvers = codes "10.0.0.53" ∷ [];
  match_domains = codes "corp.example" ∷ [];
  steer_all = false;
}

decide_dns_iff_example : (decide_dns worker (codes "notcorp.example") zones steering ≡ steer) ↔ (
    (is_supervised worker zones ≡ true)
    × ((steering.steer_all ≡ true)
        ⊎ Any
            (λ domain. IsWithin (normalize_host (codes "notcorp.example")) (normalize_host domain))
            steering.match_domains))
decide_dns_iff_example = decide_dns_iff worker (codes "notcorp.example") zones steering

abbrev bundle : PolicyBundle
bundle = record restrictive_default { version = 3; apps = apps }

default_only_flags_its_version :
    validate restrictive_default
    ≡ codes "policy version is 0 — bump it before issuing to devices" ∷ []
unfolding validate trim
default_only_flags_its_version = refl

abbrev denied : NetworkPolicy
denied = record {
  blocked_hosts = codes "EVIL.example." ∷ [];
  static_egress_ip = none;
  providers = [];
}

abbrev files : FilePolicy
files = record {
  allow_save_outside_enclave = false;
  work_data_roots = codes "C:\\Users\\alice\\Documents" ∷ [];
  cow_roots = codes "C:\\ProgramData" ∷ [];
}

abbrev report_path : Text
report_path = codes "c:/USERS/alice/documents/q3.xlsx"

report_is_work_data : classify_path report_path (codes "X:") [] files ≡ work_data
unfolding classify_path under norm is_windows_style list_beq trim_end strip_prefix replace to_lower
report_is_work_data = refl

classify_path_iff_example :
    let free = (¬ IsUnder report_path (codes "X:")) × (¬ ⊥) in
    let work = Any (IsUnder report_path) files.work_data_roots in
    let cow = Any (IsUnder report_path) files.cow_roots in
    ((classify_path report_path (codes "X:") [] files ≡ work_data) ↔ (free × work))
    × ((classify_path report_path (codes "X:") [] files ≡ system_cow) ↔ (free × (¬ work) × cow))
    × ((classify_path report_path (codes "X:") [] files ≡ pass_through)
        ↔ ((¬ (free × work)) × (¬ (free × (¬ work) × cow))))
classify_path_iff_example = classify_path_iff report_path (codes "X:") [] files

decide_iff_example :
    (is_allow (decide (Action.file_open (windows 1 1) true read) zones restrictive_default 10)
      ≡ true)
    ↔ ((10 ≤ restrictive_default.not_after)
        × Permits zones restrictive_default (Action.file_open (windows 1 1) true read))
decide_iff_example =
    decide_iff (Action.file_open (windows 1 1) true read) zones restrictive_default 10

-- Two writes in one directory, one on the disk, and a named object
abbrev learned : LearnedProfile
unfolding synthesize
learned = synthesize (codes "/Volumes/Disk") (record {
  app_id = codes "acme";
  observations =
      path_access (codes "/home/b/x") true
      ∷ path_access (codes "/home/a/y") true
      ∷ path_access (codes "/home/b/z") true
      ∷ path_access (codes "/Volumes/Disk/c") true
      ∷ path_access (codes "/usr/lib/x") false
      ∷ named_object (codes "Mutex")
      ∷ [];
})

learned_roots :
    (learned.work_data_roots ≡ codes "/home/a" ∷ codes "/home/b" ∷ [])
    × (learned.launch.namespace_prefix ≡ some (codes "Clave-acme\\"))
unfolding learned list_beq trim_end strip_prefix replace to_lower norm is_windows_style
learned_roots = (refl, refl)
