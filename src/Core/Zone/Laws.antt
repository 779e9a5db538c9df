-- ===== src/Core/Zone/Laws.antt =====
-- The registry refines a partial function from processes to members, and reports its pids in order.
use clave.Prelude.{
  ◌≡◌, refl, ◌∙◌, Option, none, some, List, [], ◌∷◌, arith, ◌==◌, if◌then◌else◌, All, Map, insert,
  remove, lookup-insert, lookup-remove, lookup-nil, HasUniqueKeys, insert-HasUniqueKeys,
  remove-HasUniqueKeys, nat_eq,
}
use clave.Platform.Types.{ProcId, proc_eq}
use clave.Core.Zone.{
  JoinReason, ZoneMember, ZoneRegistry, join, leave, member, join_all, reset_from,
}

-- The operations that change the registry.
pub data Op : Type 0 where
  join_op : ProcId → JoinReason → Op
  leave_op : ProcId → Op
  reset_op : List (ProcId × JoinReason) → Op

unfoldable pub apply : Op → ZoneRegistry → ZoneRegistry
apply (join_op p r) z = join p r z
apply (leave_op p) z = leave p z
apply (reset_op entries) z = reset_from entries z

unfoldable pub run : List Op → ZoneRegistry → ZoneRegistry
run [] z = z
run (op ∷ ops) z = run ops (apply op z)

-- The abstract registry: why a process is a member, if it is one.
abbrev pub Members : Type 0
Members = ProcId → Option ZoneMember

abbrev pub spec_join : ProcId → JoinReason → Members → Members
spec_join p r m q = if p == q then some (record { id = p; reason = r }) else m q

unfoldable pub spec_join_all : List (ProcId × JoinReason) → Members → Members
spec_join_all [] m = m
spec_join_all ((p, r) ∷ rest) m = spec_join_all rest (spec_join p r m)

unfoldable pub spec_apply : Op → Members → Members
unfolding spec_join_all
spec_apply (join_op p r) m q = spec_join p r m q
spec_apply (leave_op p) m q = if p == q then none else m q
spec_apply (reset_op entries) m q = spec_join_all entries (λ p. none) q

unfoldable pub spec_run : List Op → Members → Members
spec_run [] m = m
spec_run (op ∷ ops) m = spec_run ops (spec_apply op m)

-- Two abstract registries that agree on every process.
abbrev pub Agrees : Members → Members → Type 0
Agrees m n = (q : ProcId) → m q ≡ n q

spec_join-Agrees :
    (p : ProcId) (r : JoinReason) (m n : Members)
    → Agrees m n
    → Agrees (spec_join p r m) (spec_join p r n)
spec_join-Agrees p r m n h q = ground (arith, h q)

spec_join_all-Agrees :
    (es : List (ProcId × JoinReason)) (m n : Members)
    → Agrees m n
    → Agrees (spec_join_all es m) (spec_join_all es n)
unfolding spec_join_all
spec_join_all-Agrees [] m n h = h
spec_join_all-Agrees ((p, r) ∷ es) m n h = spec_join_all-Agrees es _ _ (spec_join-Agrees p r m n h)

abbrev view : ZoneRegistry → Members
view z q = member q z

view-join :
    (p : ProcId) (r : JoinReason) (z : ZoneRegistry)
    → Agrees (view (join p r z)) (spec_join p r (view z))
unfolding member join
view-join p r z q = lookup-insert p q (record { id = p; reason = r }) z.members

view-join_all :
    (es : List (ProcId × JoinReason)) (z : ZoneRegistry)
    → Agrees (view (join_all es z)) (spec_join_all es (view z))
unfolding join_all spec_join_all
view-join_all [] z q = refl
view-join_all ((p, r) ∷ es) z q =
    view-join_all es (join p r z) q ∙ spec_join_all-Agrees es _ _ (view-join p r z) q

view-empty : Agrees (view (record { members = [] })) (λ p. none)
unfolding member
view-empty q = lookup-nil q

view-apply : (op : Op) (z : ZoneRegistry) → Agrees (view (apply op z)) (spec_apply op (view z))
unfolding apply spec_apply
view-apply (join_op p r) z q = view-join p r z q
view-apply (leave_op p) z q = unfold member leave in lookup-remove p q z.members
view-apply (reset_op es) z q =
    unfold reset_from in
    (view-join_all es (record { members = [] }) q
      ∙ spec_join_all-Agrees es (view (record { members = [] })) (λ p. none) view-empty q)

spec_apply-Agrees :
    (op : Op) (m n : Members) → Agrees m n → Agrees (spec_apply op m) (spec_apply op n)
unfolding spec_apply
spec_apply-Agrees (join_op p r) m n h q = spec_join-Agrees p r m n h q
spec_apply-Agrees (leave_op p) m n h q = ground (arith, h q)
spec_apply-Agrees (reset_op es) m n h q = refl

spec_run-Agrees :
    (ops : List Op) (m n : Members) → Agrees m n → Agrees (spec_run ops m) (spec_run ops n)
unfolding spec_run
spec_run-Agrees [] m n h = h
spec_run-Agrees (op ∷ ops) m n h = spec_run-Agrees ops _ _ (spec_apply-Agrees op m n h)

-- After any sequence of joins, departures and resets, the member found under a process is the one
-- that the same sequence gives on a partial function from processes to members.
pub member-run :
    (ops : List Op) (z : ZoneRegistry) (q : ProcId)
    → member q (run ops z) ≡ spec_run ops (λ p. member p z) q
unfolding run spec_run
member-run [] z q = refl
member-run (op ∷ ops) z q =
    member-run ops (apply op z) q ∙ spec_run-Agrees ops _ _ (view-apply op z) q

-- A process has one entry, and the entry records the process under which it is stored.
pub record IsValid (z : ZoneRegistry) : Type 0 where
  pub unique : HasUniqueKeys z.members
  pub keyed : All (λ (e : ProcId × ZoneMember). e.1.id ≡ e.0) z.members

insert-keyed :
    (p : ProcId) (r : JoinReason) (m : Map ProcId ZoneMember)
    → All (λ (e : ProcId × ZoneMember). e.1.id ≡ e.0) m
    → All (λ (e : ProcId × ZoneMember). e.1.id ≡ e.0) (insert p (record { id = p; reason = r }) m)
unfolding insert
insert-keyed p r [] h = (refl, tt)
insert-keyed p r ((q, v) ∷ m) h = ground (arith, insert-keyed p r m h.1)

remove-keyed :
    (p : ProcId) (m : Map ProcId ZoneMember)
    → All (λ (e : ProcId × ZoneMember). e.1.id ≡ e.0) m
    → All (λ (e : ProcId × ZoneMember). e.1.id ≡ e.0) (remove p m)
unfolding remove
remove-keyed p [] h = tt
remove-keyed p ((q, v) ∷ m) h = ground (arith, remove-keyed p m h.1)

join-IsValid : (p : ProcId) (r : JoinReason) (z : ZoneRegistry) → IsValid z → IsValid (join p r z)
unfolding join
join-IsValid p r z v = record {
  unique = insert-HasUniqueKeys p _ z.members v.unique;
  keyed = insert-keyed p r z.members v.keyed;
}

join_all-IsValid :
    (es : List (ProcId × JoinReason)) (z : ZoneRegistry) → IsValid z → IsValid (join_all es z)
unfolding join_all
join_all-IsValid [] z v = v
join_all-IsValid ((p, r) ∷ es) z v = join_all-IsValid es (join p r z) (join-IsValid p r z v)

-- Every operation keeps one entry for each process, stored under its own id.
pub apply-IsValid : (op : Op) (z : ZoneRegistry) → IsValid z → IsValid (apply op z)
unfolding apply
apply-IsValid (join_op p r) z v = join-IsValid p r z v
apply-IsValid (leave_op p) z v =
    unfold leave in
    record {
      unique = remove-HasUniqueKeys p z.members v.unique;
      keyed = remove-keyed p z.members v.keyed;
    }
apply-IsValid (reset_op es) z v =
    unfold reset_from in
    join_all-IsValid es (record { members = [] }) (record { unique = tt; keyed = tt })
