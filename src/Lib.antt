-- ===== src/Lib.antt =====
-- Aleph0 is a hypervisor that starts one small guest from UEFI, handles its VM exits, and stops it. This
-- library models the parts of it that decide, compute tables and pack bits, and proves what they
-- promise. It reads the code as the release build compiles it: counters of u32 wrap, a debug_assert
-- is not there, an index out of a slice is a panic. A word is a natural number; what its type bounds is
-- a hypothesis (IsWord, `< 2 ^ 64`) where a theorem needs it, and wrap-around is written out.
--
-- The parts and their files:
--   Msr, Msr/Controls         src/vmx/msr.rs: MSR numbers; ControlCapability (required, allowed,
--                             allows, choose). Legal says which values of a group are legal.
--   Instruction               src/vmx/instruction.rs: check_rflags.
--   Vmcs                      src/vmx/vmcs/mod.rs: VmcsError and the failures of VMLAUNCH and VMRESUME.
--                             Fields (fields.rs) has the encodings. Access has VMREAD, VMWRITE and what
--                             is built on them, over the current VMCS as a map from encodings to values;
--                             Controls has configure_controls and the capability MSRs it reads (msr.rs);
--                             Launch (launch.rs) the stop values and `launch`, with what vmx_launch
--                             returned and what VMREAD gives as parameters; HostState
--                             configure_host_state. Manual has the fields by the encodings of the
--                             manual, the specification. Writes, Configured, Choosable, Window, Distinct,
--                             HostChecked and StopValue have the proofs.
--   Segment                   src/vmx/segment.rs: descriptor tables, selectors, descriptors, read_all.
--                             Layout has the proofs.
--   GuestState                src/vmx/guest_state.rs: from_current, check_segments and write. Segments and
--                             Stored have the proofs.
--   GuestMemory               src/vmx/guest.rs: the NMI gate, the pages and check_mappings. Mapped has the
--                             proofs.
--   HostTables                src/vmx/host_tables.rs: the TSS descriptor, copy_active, append, verify and
--                             activate. Installed and Active have the proofs.
--   VmxOperation              src/vmx/mod.rs, vmxon.rs, region.rs, cpuid.rs, cr.rs: detect,
--                             enter_vmx_root_operation and leave. Bracket has the proofs.
--   VmExit                    src/vmx/vmexit/handler.rs and report.rs: Machine (the state), State
--                             (load_state, store_state, judge), Execute, Reading (read_exit), Resume
--                             (prepare_resume) and Handler (apply, vmexit_handler); Stack
--                             (VmExitStack) is of mod.rs. Stages, Unchanged,
--                             Handled and Effects have lemmas; Runs, Finish and Confined what a run of
--                             the handler promises.
--   Paging                    src/vmx/paging.rs: walk and walk_current. Entry has lemmas on one turn of the
--                             loop, Reading the tables as the CPU reads them.
--   Guest                     src/vmx/guest.rs: the constants of the protocol with the guest.
--   ExitBitmaps               src/vmx/exit_bitmaps.rs: msr_bit, io_bit and fill; Region has
--                             write_to_vmcs. The other children are the proofs, and Exact has the
--                             CPU's reading of the pages.
--   ExitDecision              src/vmx/exit_decision: Types (mod.rs: exits, events, resume plans, state),
--                             InterruptionInfo, Emulation (emulation.rs), Scenario (scenario.rs) and
--                             Decide (`decide`). Outcomes and Registers hold lemmas on these; Safety,
--                             Events, MsrExits, Session, Finish and NmiTransparency hold what the
--                             handlers promise.
--   Ept                       src/vmx/ept.rs: Entry (entries, levels, EPT pointer), Support
--                             (check_support), Range (identity_map_end), Tables (fill_identity_map) and
--                             Publish (Ept::build, the statics, grant_write). Walk is the CPU's walk of
--                             the tables, the specification. Fields, Fill, Filled, Identity, Reach,
--                             Capable, Build and Grant hold the proofs.
--   BringUp                   src/bring_up: Error (error.rs), Step (a step that returns, fails or
--                             panics), Machine (what bring-up reads and changes, and what it asks of
--                             others), Allocation (the pages and what is written to them), Tables
--                             (activate_host_tables, check_host_tables_preserved), Prepare
--                             (prepare_vmcs), Teardown (teardown.rs) and Sequence (`run` and its steps).
--                             Writes, Prepared, Keeps, Entered, HandedBack, Restored and Finished have
--                             the proofs.
--   Serial                    src/serial.rs: the driver of COM1, over any UART. Chip is the 16550 of the
--                             table in the source, the specification. Wire, Polled and Probe have the
--                             proofs.
--   Base                      shared lists, words, Boolean tests and the laws of the bit operations.
--   Examples                  concrete runs.
--
-- How they interact: `decide` takes the state that the exit handler keeps and one exit, and returns an
-- event and the next state; `action` says what the handler then does. `decide` uses `msr_bit` and the
-- intercepted sets of ExitBitmaps to route an MSR, and the protocol constants of Guest. A granted write
-- leads to `grant_write` of the page that `build` published. A run of the guest is a Session (the steps
-- that the handler resumes) or, as a function, `drive`. `vmexit_handler` reads the exit from the VMCS,
-- lets `decide` judge it with the state of its statics, and carries the plan out; a Run is a list of its
-- calls, between which the guest may change all but those statics. `run` of bring-up activates the
-- host's tables, calls the allocations, the checks, `build` of Ept and enter_vmx_root_operation, creates
-- the VMCS, prepares it with the functions of Vmcs, GuestState and ExitBitmaps, launches the guest and
-- decodes the value that it stops with, and tears down.
--
-- Loops are structural: over the regions of the memory map, over the entries of a slice, or over a
-- count. The polls of the serial port are bounded by SPIN_LIMIT in the source; there is no other fuel.
--
-- Parameters of the model: the firmware's memory map and page allocator (in bring-up, with
-- whether it frees a page) and the RFLAGS that INVEPT
-- leaves, and memory as a function from addresses to u64; the RFLAGS that VMREAD and VMWRITE of a field
-- leave, and what a field keeps of a value (Cpu); what CPUID and the ports return (Devices); what the
-- host's registers, MSRs and memory hold (Segment.Host); what the page allocator, VMXON and VMXOFF answer
-- (VmxOperation.Firmware); what the firmware, the VMX instructions, LTR and the run of the guest do to
-- the machine of bring-up (Environment); what IN and OUT of the UART do (Uart); and the offset of the NMI handler in the assembled guest. What is asked of them is named: IsPages (page
-- aligned, within 52 bits), Apart (no overlap), Holds (the tables stand in memory), IsWorking (VMREAD and
-- VMWRITE succeed, and a field keeps a value of its width), IsMachineWord (u64 registers and fields).
--
-- Not modelled: the VMX and port instructions, the entry stub and the guest's code, which are assembly;
-- the reports, names and Display output, with PassthroughState, which is only printed; the panic handler
-- and the UEFI entry point. In bring-up the EPT tables, and the regions of VMXON and the VMCS as u32
-- cells, stand apart from the bytes of memory.
pub mod Base
pub mod BringUp
pub mod Serial
pub mod Msr
pub mod Guest
pub mod ExitBitmaps
pub mod ExitDecision
pub mod Ept
pub mod Segment
pub mod GuestState
pub mod HostTables
pub mod GuestMemory
pub mod Instruction
pub mod Vmcs
pub mod Paging
pub mod VmExit
pub mod VmxOperation
pub mod Examples
