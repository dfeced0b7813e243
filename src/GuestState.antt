-- ===== src/GuestState.antt =====
-- src/vmx/guest_state.rs: the guest state for the first VM entry, copied from the host. What the host's
-- instructions read is the parameter `host`.
pub mod Segments
pub mod Stored
use aleph0_virtualization_hy.Base.{
  ℕ, ◌-◌, ◌^◌, Bool, not, ◌||◌, List, [], ◌∷◌, ◌++◌, Option, none, some, bit_and, bit_or, not16,
  u32, ◌==◌, ◌!=◌, if◌then◌else◌, Result, ok, err,
}
use aleph0_virtualization_hy.Msr.{
  ia32_sysenter_cs, ia32_sysenter_esp, ia32_sysenter_eip, ia32_pat, ia32_efer,
}
use aleph0_virtualization_hy.Segment
use aleph0_virtualization_hy.Segment.{
  DescriptorTable, Host, selector_rpl, access_rights_unusable, read_descriptor, read_all,
}
use aleph0_virtualization_hy.Vmcs.{VmcsError}
use aleph0_virtualization_hy.Vmcs.Access.{Vmcs, Cpu, vmread, write_verified}
use aleph0_virtualization_hy.Vmcs.Fields.Controls.{
  vm_entry_controls, vm_entry_load_ia32_pat, vm_entry_load_ia32_efer,
}
use aleph0_virtualization_hy.Vmcs.Fields.Guest

abbrev pub initial_rflags : ℕ
initial_rflags = 2

abbrev pub initial_dr7 : ℕ
initial_dr7 = 0x400

abbrev pub vmcs_link_pointer_none : ℕ
vmcs_link_pointer_none = 2 ^ 64 - 1

abbrev pub type_accessed : ℕ
type_accessed = 2 ^ 0

abbrev pub code_or_data : ℕ
code_or_data = 2 ^ 4

abbrev pub long_mode : ℕ
long_mode = 2 ^ 13

abbrev pub kind_mask : ℕ
kind_mask = 0x1F

abbrev pub busy_tss_64 : ℕ
busy_tss_64 = 0xB

pub record GuestSegment : Type 0 where
  pub selector : ℕ
  pub base : ℕ
  pub limit : ℕ
  pub access_rights : ℕ

abbrev pub unusable : ℕ → ℕ → GuestSegment
unusable selector base = record {
  selector = selector;
  base = base;
  limit = 0;
  access_rights = access_rights_unusable;
}

unfoldable pub from_descriptor : ℕ → ℕ → ℕ → GuestSegment
from_descriptor selector descriptor base =
    let access_rights = Segment.access_rights descriptor in
    record {
      selector = selector;
      base = base;
      limit = Segment.limit descriptor;
      access_rights =
          if bit_and access_rights code_or_data != 0
          then bit_or access_rights type_accessed
          else access_rights;
    }

unfoldable pub is_usable : GuestSegment → Bool
is_usable segment = bit_and segment.access_rights access_rights_unusable == 0

pub data GuestStateError : Type 0 where
  -- selector
  bad_selector : ℕ → GuestStateError
  -- access rights
  cs_not_64_bit : ℕ → GuestStateError
  tr_not_busy_tss : ℕ → GuestStateError
  -- field, error
  vmcs : ℕ → VmcsError → GuestStateError

pub record GuestState : Type 0 where
  pub rip : ℕ
  pub rsp : ℕ
  pub rflags : ℕ
  pub cr0 : ℕ
  pub cr3 : ℕ
  pub cr4 : ℕ
  pub es : GuestSegment
  pub cs : GuestSegment
  pub ss : GuestSegment
  pub ds : GuestSegment
  pub fs : GuestSegment
  pub gs : GuestSegment
  pub ldtr : GuestSegment
  pub tr : GuestSegment
  pub gdtr : DescriptorTable
  pub idtr : DescriptorTable
  pub sysenter_cs : ℕ
  pub sysenter_esp : ℕ
  pub sysenter_eip : ℕ
  pub pat : Option ℕ
  pub efer : Option ℕ

infixl 5 ◌>>=◌
abbrev pub ◌>>=◌ :
    {A B : Type 0}
    → Result A GuestStateError
    → (A → Result B GuestStateError)
    → Result B GuestStateError
ok a >>= f = f a
err e >>= f = err e

abbrev pub unwrap_or : Option ℕ → ℕ → ℕ
unwrap_or none default = default
unwrap_or (some value) default = value

unfoldable pub segment_from_gdt :
    Host → DescriptorTable → ℕ → Option ℕ → Result GuestSegment GuestStateError
segment_from_gdt host gdt selector base =
    if bit_and selector (not16 selector_rpl) == 0
    then ok (unusable selector (unwrap_or base 0))
    else elim (read_descriptor host gdt selector) [
      | none ↦ err (bad_selector selector)
      | some descriptor ↦
          ok (from_descriptor selector descriptor (unwrap_or base (Segment.base descriptor)))
    ]

unfoldable pub check_segments : GuestSegment → GuestSegment → Result (Unit {0}) GuestStateError
check_segments cs tr =
    if not (is_usable cs) || (bit_and cs.access_rights long_mode == 0)
    then err (cs_not_64_bit cs.access_rights)
    else if not (is_usable tr) || (bit_and tr.access_rights kind_mask != busy_tss_64)
    then err (tr_not_busy_tss tr.access_rights)
    else ok tt

-- `map_err(|error| GuestStateError::Vmcs { field, error })`.
abbrev pub of_field : {A : Type 0} → ℕ → Result A VmcsError → Result A GuestStateError
of_field field (ok a) = ok a
of_field field (err e) = err (vmcs field e)

-- `condition.then(|| rdmsr(msr))`.
abbrev pub then_read : Host → Bool → ℕ → Option ℕ
then_read host condition msr = if condition then some (host.rdmsr msr) else none

unfoldable pub from_current :
    Host → Cpu → Vmcs → ℕ → ℕ → DescriptorTable → Result GuestState GuestStateError
from_current host cpu s rip rsp idtr =
    let now = read_all host in
    let gdt = now.gdtr in
    (do
      entry_controls ← of_field vm_entry_controls (vmread cpu vm_entry_controls s).0
      es ← segment_from_gdt host gdt now.es none
      cs ← segment_from_gdt host gdt now.cs none
      ss ← segment_from_gdt host gdt now.ss none
      ds ← segment_from_gdt host gdt now.ds none
      fs ← segment_from_gdt host gdt now.fs (some now.fs_base)
      gs ← segment_from_gdt host gdt now.gs (some now.gs_base)
      tr ← segment_from_gdt host gdt now.tr (some now.tr_base)
      checked ← check_segments cs tr
      ok (record {
        rip = rip;
        rsp = rsp;
        rflags = initial_rflags;
        cr0 = host.cr0;
        cr3 = host.cr3;
        cr4 = host.cr4;
        es = es;
        cs = cs;
        ss = ss;
        ds = ds;
        fs = fs;
        gs = gs;
        ldtr = unusable 0 0;
        tr = tr;
        gdtr = gdt;
        idtr = idtr;
        sysenter_cs = u32 (host.rdmsr ia32_sysenter_cs);
        sysenter_esp = host.rdmsr ia32_sysenter_esp;
        sysenter_eip = host.rdmsr ia32_sysenter_eip;
        pat = then_read host (bit_and entry_controls vm_entry_load_ia32_pat != 0) ia32_pat;
        efer = then_read host (bit_and entry_controls vm_entry_load_ia32_efer != 0) ia32_efer;
      }))

abbrev segment_writes : GuestSegment → ℕ → ℕ → ℕ → ℕ → List (ℕ × ℕ)
segment_writes segment selector base limit access_rights =
    (selector, segment.selector)
    ∷ (base, segment.base)
    ∷ (limit, segment.limit)
    ∷ (access_rights, segment.access_rights)
    ∷ []

abbrev all_segment_writes : GuestState → List (ℕ × ℕ)
all_segment_writes state =
    segment_writes state.es Guest.guest_es_selector Guest.guest_es_base Guest.guest_es_limit
      Guest.guest_es_access_rights
    ++ (segment_writes state.cs Guest.guest_cs_selector Guest.guest_cs_base Guest.guest_cs_limit
          Guest.guest_cs_access_rights
        ++ (segment_writes state.ss Guest.guest_ss_selector Guest.guest_ss_base Guest.guest_ss_limit
              Guest.guest_ss_access_rights
            ++ (segment_writes state.ds Guest.guest_ds_selector Guest.guest_ds_base
                  Guest.guest_ds_limit Guest.guest_ds_access_rights
                ++ (segment_writes state.fs Guest.guest_fs_selector Guest.guest_fs_base
                      Guest.guest_fs_limit Guest.guest_fs_access_rights
                    ++ (segment_writes state.gs Guest.guest_gs_selector Guest.guest_gs_base
                          Guest.guest_gs_limit Guest.guest_gs_access_rights
                        ++ (segment_writes state.ldtr Guest.guest_ldtr_selector
                              Guest.guest_ldtr_base Guest.guest_ldtr_limit
                              Guest.guest_ldtr_access_rights
                            ++ (segment_writes state.tr Guest.guest_tr_selector Guest.guest_tr_base
                                Guest.guest_tr_limit Guest.guest_tr_access_rights)))))))

abbrev other_fields : GuestState → List (ℕ × ℕ)
other_fields state =
    (Guest.guest_rip, state.rip)
    ∷ (Guest.guest_rsp, state.rsp)
    ∷ (Guest.guest_rflags, state.rflags)
    ∷ (Guest.guest_cr0, state.cr0)
    ∷ (Guest.guest_cr3, state.cr3)
    ∷ (Guest.guest_cr4, state.cr4)
    ∷ (Guest.guest_gdtr_base, state.gdtr.base)
    ∷ (Guest.guest_gdtr_limit, state.gdtr.limit)
    ∷ (Guest.guest_idtr_base, state.idtr.base)
    ∷ (Guest.guest_idtr_limit, state.idtr.limit)
    ∷ (Guest.guest_ia32_sysenter_cs, state.sysenter_cs)
    ∷ (Guest.guest_ia32_sysenter_esp, state.sysenter_esp)
    ∷ (Guest.guest_ia32_sysenter_eip, state.sysenter_eip)
    ∷ (Guest.guest_dr7, initial_dr7)
    ∷ (Guest.guest_ia32_debugctl, 0)
    ∷ (Guest.vmcs_link_pointer, vmcs_link_pointer_none)
    ∷ (Guest.guest_activity_state, 0)
    ∷ (Guest.guest_interruptibility_state, 0)
    ∷ (Guest.guest_pending_debug_exceptions, 0)
    ∷ []

abbrev optional_write : ℕ → Option ℕ → List (ℕ × ℕ)
optional_write field none = []
optional_write field (some value) = (field, value) ∷ []

-- What `GuestState::write` writes and verifies, in order.
abbrev pub state_writes : GuestState → List (ℕ × ℕ)
state_writes state =
    all_segment_writes state
    ++ (other_fields state
        ++ (optional_write Guest.guest_ia32_pat state.pat
            ++ optional_write Guest.guest_ia32_efer state.efer))

abbrev pub and_then :
    Result (Unit {0}) GuestStateError × Vmcs
    → (Vmcs → Result (Unit {0}) GuestStateError × Vmcs)
    → Result (Unit {0}) GuestStateError × Vmcs
and_then (ok done, s) next = next s
and_then (err e, s) next = (err e, s)

module _ (cpu : Cpu) where
  -- `write_field`.
  unfoldable pub write_state_field : ℕ → ℕ → Vmcs → Result (Unit {0}) GuestStateError × Vmcs
  write_state_field field value s =
      let (result, s') = write_verified cpu field value s in (of_field field result, s')

  unfoldable pub write_fields : List (ℕ × ℕ) → Vmcs → Result (Unit {0}) GuestStateError × Vmcs
  write_fields [] s = (ok tt, s)
  write_fields ((field, value) ∷ rest) s =
      and_then (write_state_field field value s) (write_fields rest)

  -- `GuestState::write`.
  unfoldable pub write : GuestState → Vmcs → Result (Unit {0}) GuestStateError × Vmcs
  write state = write_fields (state_writes state)
