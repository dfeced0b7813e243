-- ===== src/ExitDecision/Finish.antt =====
-- What the end of a run shows: when the handler finishes, everything planned has happened.
use aleph0_virtualization_hy.Base.{◌+◌, ◌≡◌, List, arith, u32, ap, sym, subst, ◌∙◌}
use aleph0_virtualization_hy.Guest.{guest_marker}
use aleph0_virtualization_hy.ExitDecision.Types.{
  ExitInfo, IsWord, ExitState, ExitEvent, last_main_vmcall,
}
use aleph0_virtualization_hy.ExitDecision.Decide.{decide}
use aleph0_virtualization_hy.ExitDecision.Events.{Justified, decide-Justified}
use aleph0_virtualization_hy.ExitDecision.Session.{
  Session, Session-Summary, count, IsOrdered, is_main, is_grant, is_cpuid, is_rdmsr, is_wrmsr,
  is_io_in, is_io_out,
}

-- Every step of the plan, in the events of the run. The counts of the emulated exits are those of
-- u32 counters.
pub record IsComplete (past : List ExitEvent) : Type 0 where
  pub one_main : count is_main past ≡ 1
  pub one_grant : count is_grant past ≡ 1
  pub ordered : IsOrdered past
  pub one_cpuid : u32 (count is_cpuid past) ≡ 1
  pub two_rdmsrs : u32 (count is_rdmsr past) ≡ 2
  pub two_wrmsrs : u32 (count is_wrmsr past) ≡ 2
  pub two_ins : u32 (count is_io_in past) ≡ 2
  pub two_outs : u32 (count is_io_out past) ≡ 2

-- The run finishes only at the second main VMCALL, with one main VMCALL before it, one granted
-- write before that, and each planned emulated exit as often as planned.
pub finished-IsComplete :
    (past : List ExitEvent) (s : ExitState) (e : ExitInfo)
    → Session past s
    → IsWord e
    → (decide s e).0 ≡ last_main_vmcall
    → IsComplete past × (e.guest_rax ≡ guest_marker + 1)
finished-IsComplete past s e run w f =
    let sum = Session-Summary past s run in
    let why = subst (Justified s e) f ((decide-Justified s e w).0) in
    let counts = why.2 in
    (
      record {
        one_main = omega arith;
        one_grant = omega arith;
        ordered = sum.ordered;
        one_cpuid = sym sum.cpuids ∙ ap (λ c. c.cpuid) counts;
        two_rdmsrs = sym sum.rdmsrs ∙ ap (λ c. c.rdmsr) counts;
        two_wrmsrs = sym sum.wrmsrs ∙ ap (λ c. c.wrmsr) counts;
        two_ins = sym sum.io_ins ∙ ap (λ c. c.io_in) counts;
        two_outs = sym sum.io_outs ∙ ap (λ c. c.io_out) counts;
      },
      omega arith,
    )
