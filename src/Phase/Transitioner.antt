-- ===== src/Phase/Transitioner.antt =====
-- pkg/phase/transitioner.go. The clock is the argument `now`, read when a phase is set.
use operator_marketplace.Common.{
  ◌≡◌, Bool, true, false, not, ◌&&◌, Option, none, some, arith, ◌==◌, eq_iff, if◌then◌else◌,
}
use operator_marketplace.Api.Meta.{Time, Phase, ObjectPhase}

unfoldable pub has_phase_changed : ObjectPhase → Phase → Bool
has_phase_changed current next =
    if current.phase.name == next.name && current.phase.message == next.message then false else true

-- The assignments of `TransitionInto` after its two guards.
unfoldable pub set_phase : Time → ObjectPhase → Phase → ObjectPhase
set_phase now current next =
    let updated : ObjectPhase = record {
      phase = record { name = current.phase.name; message = next.message };
      last_transition_time = current.last_transition_time;
      last_update_time = now;
    } in
    if current.phase.name == next.name then updated else record {
      phase = record { name = next.name; message = next.message };
      last_transition_time = now;
      last_update_time = updated.last_update_time;
    }

-- The new phase, and whether it has changed. Either argument may be nil.
unfoldable pub transition_into :
    Time → Option ObjectPhase → Option Phase → Option ObjectPhase × Bool
unfolding has_phase_changed set_phase
transition_into now none next = (none, false)
transition_into now (some current) none = (some current, false)
transition_into now (some current) (some next) =
    if has_phase_changed current next
    then (some (set_phase now current next), true)
    else (some current, false)

-- Both texts of the two phases are equal.
abbrev pub same_phase : Phase → Phase → Bool
same_phase a b = a.name == b.name && a.message == b.message

-- What TransitionInto promises, for any current and next phase: the object ends with the next
-- phase's name and message; the call reports a change exactly when name or message differ; the
-- update time is set on a change and the transition time when the name differs.
pub transition_into_lem :
    (now : Time) (current : ObjectPhase) (next : Phase)
    → let same = same_phase current.phase next in
      transition_into now (some current) (some next) ≡ (
        some (record {
          phase = next;
          last_transition_time =
              if current.phase.name == next.name then current.last_transition_time else now;
          last_update_time = if same then current.last_update_time else now;
        }),
        not same,
      )
unfolding transition_into
transition_into_lem now current next =
    ground (arith, eq_iff current.phase.name next.name, eq_iff current.phase.message next.message)
