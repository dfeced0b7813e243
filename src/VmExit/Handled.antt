-- ===== src/VmExit/Handled.antt =====
-- What one call of `vmexit_handler` in src/vmx/vmexit/handler.rs keeps, and what its value says.
use aleph0_virtualization_hy.Base.{
  ℕ, ◌+◌, ◌^◌, ◌<◌, ◌≡◌, refl, ap, ◌∙◌, Option, none, some, arith, u64,
}
use aleph0_virtualization_hy.ExitDecision.Types.{
  ExitState, ExitEvent, Emulation, ExitAction, resume, finished, action, unreadable_reason,
  ResumePlan,
}
use aleph0_virtualization_hy.Vmcs.StopValue.{finished_lem, unexpected_lem}
use aleph0_virtualization_hy.VmExit.Machine.{Kept, Machine, Devices}
use aleph0_virtualization_hy.VmExit.Execute.{execute}
use aleph0_virtualization_hy.VmExit.State.{load_state, store_state, judged, judge}
use aleph0_virtualization_hy.VmExit.Reading.{ExitRead, read_exit, unwrap_or, low_32}
use aleph0_virtualization_hy.VmExit.Resume.{Resumed}
use aleph0_virtualization_hy.VmExit.Handler.{
  resume_guest, stub_return, after_prepare, carry_out, apply, count_exit, vmexit_handler,
}
use aleph0_virtualization_hy.VmExit.Unchanged.{IsBlind, Leaves-carry_out}

-- The state that `load_state` reads is the one that `store_state` stored.
pub load_state-store_state :
    (state : ExitState) (kept : Kept) → load_state (store_state state kept) ≡ state
unfolding load_state store_state
load_state-store_state state kept = refl

execute-kept :
    (devices : Devices) (m : Machine) (emulation : Emulation)
    → (execute devices emulation m).1.kept ≡ m.kept
unfolding execute
execute-kept devices m (Emulation.cpuid leaf subleaf) = refl
execute-kept devices m (Emulation.rdmsr msr) = refl
execute-kept devices m (Emulation.wrmsr msr value) = refl
execute-kept devices m (Emulation.io_in port size) = refl
execute-kept devices m (Emulation.io_out port size value) = refl

kept-IsBlind : (devices : Devices) → IsBlind devices (λ m. m.kept)
kept-IsBlind devices = record {
  writes = λ m field value h. refl;
  memory = λ m memory. refl;
  emulates = execute-kept devices;
}

low_32_lem : (o : Option ℕ) → unwrap_or unreadable_reason (low_32 o) < 2 ^ 32
low_32_lem none = omega arith
low_32_lem (some raw) = omega arith

-- The machine whose exit is counted.
abbrev pub counted : Machine → Machine
counted m = record m { kept = count_exit m.kept }

module _ (devices : Devices) (m : Machine) where
  -- What the exit is judged to be, with the next state.
  abbrev pub judgement : ExitEvent × ExitState
  judgement = judged (read_exit devices (counted m)).exit (load_state m.kept)

  pub vmexit_handler-kept :
      (vmexit_handler devices m).1.kept ≡ store_state judgement.1 (count_exit m.kept)
  unfolding vmexit_handler judge apply load_state
  vmexit_handler-kept =
      Leaves-carry_out (λ m. m.kept) devices (kept-IsBlind devices) (action judgement.0)
        (read_exit devices (counted m))
        (record m { kept = store_state judgement.1 (count_exit m.kept) })

  pub load_state-vmexit_handler : load_state (vmexit_handler devices m).1.kept ≡ judgement.1
  load_state-vmexit_handler =
      ap load_state vmexit_handler-kept ∙ load_state-store_state judgement.1 (count_exit m.kept)

  pub exit_count-vmexit_handler :
      (vmexit_handler devices m).1.kept.exit_count ≡ u64 (m.kept.exit_count + 1)
  unfolding store_state
  exit_count-vmexit_handler = ap (λ k. k.exit_count) vmexit_handler-kept

  -- What the handler returns is the stub value of what it carried out.
  abbrev pub outcome : ExitAction × Machine
  outcome =
      carry_out devices (action judgement.0) (read_exit devices (counted m))
        (record m { kept = store_state judgement.1 (count_exit m.kept) })

  pub vmexit_handler-value :
      (vmexit_handler devices m).0
      ≡ stub_return outcome.0
          (u64 (m.kept.exit_count + 1))
          (unwrap_or unreadable_reason (read_exit devices (counted m)).raw_reason)
  unfolding vmexit_handler judge apply load_state
  vmexit_handler-value = refl

  pub raw_reason-u32 :
      unwrap_or unreadable_reason (read_exit devices (counted m)).raw_reason < 2 ^ 32
  unfolding read_exit
  raw_reason-u32 = low_32_lem _

-- The stub value is zero only for an exit that resumes the guest.
pub stub_return_zero :
    (act : ExitAction) (number raw : ℕ)
    → raw < 2 ^ 32
    → stub_return act number raw ≡ resume_guest
    → (plan : ResumePlan) × (act ≡ resume plan)
unfolding stub_return
stub_return_zero (resume plan) number raw fits h = (plan, refl)
stub_return_zero finished number raw fits h = absurd (omega (arith, finished_lem number))
stub_return_zero ExitAction.unexpected number raw fits h =
    absurd (omega (arith, unexpected_lem number raw fits))

after_prepare-inv :
    (plan wanted : ResumePlan) (prepared : Option Resumed)
    → after_prepare plan prepared ≡ resume wanted
    → plan ≡ wanted
after_prepare-inv plan wanted (some resumed) h = cc
after_prepare-inv plan wanted none h = absurd cc

pub carry_out-resume :
    (devices : Devices) (act : ExitAction) (read : ExitRead) (m : Machine) (plan : ResumePlan)
    → (carry_out devices act read m).0 ≡ resume plan
    → act ≡ resume plan
unfolding carry_out
carry_out-resume devices (resume wanted) read m plan h =
    ap resume (after_prepare-inv wanted plan _ h)
carry_out-resume devices finished read m plan h = absurd cc
carry_out-resume devices ExitAction.unexpected read m plan h = absurd cc
