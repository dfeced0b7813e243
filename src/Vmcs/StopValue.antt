-- ===== src/Vmcs/StopValue.antt =====
-- What the stop values of src/vmx/vmcs/launch.rs say when they are read back.
use aleph0_virtualization_hy.Base.{
  ℕ, ◌+◌, ◌*◌, ◌/◌, ◌%◌, ◌^◌, ◌<◌, ◌≡◌, refl, ap, ◌∙◌, none, arith, bit_and, bit_or,
}
use aleph0_virtualization_hy.Base.Bits.{bit_and_low, bit_and_flag, bit_or_add}
use aleph0_virtualization_hy.Instruction.{check_rflags, rflags_cf, rflags_zf}
use aleph0_virtualization_hy.ExitDecision.Types.{from_raw}
use aleph0_virtualization_hy.Vmcs.{resume_returned, failure_or, resume_failure}
use aleph0_virtualization_hy.Vmcs.Launch.{
  finished, unexpected, resume_failed, encode_finished, encode_unexpected, encode_resume_failed,
  payload_mask, exit_number_mask, decode,
}

pub finished_lem : (exits : ℕ) → encode_finished exits ≡ 2 ^ 62 + exits % 2 ^ 62
unfolding encode_finished
finished_lem exits =
    ap (bit_or (2 ^ 62)) (bit_and_low 62 exits) ∙ bit_or_add 62 1 (exits % 2 ^ 62) (omega arith)

resume_failed_lem : (rflags : ℕ) → encode_resume_failed rflags ≡ 3 * 2 ^ 62 + rflags % 2 ^ 62
unfolding encode_resume_failed
resume_failed_lem rflags =
    ap (bit_or (3 * 2 ^ 62)) (bit_and_low 62 rflags)
    ∙ bit_or_add 62 3 (rflags % 2 ^ 62) (omega arith)

pub unexpected_lem :
    (number raw : ℕ)
    → raw < 2 ^ 32
    → encode_unexpected number raw ≡ 2 * 2 ^ 62 + number % 2 ^ 30 * 2 ^ 32 + raw
unfolding encode_unexpected
unexpected_lem number raw h =
    let kept : bit_and number exit_number_mask ≡ number % 2 ^ 30 = bit_and_low 30 number in
    let placed : bit_and number exit_number_mask * 2 ^ 32 % 2 ^ 64 ≡ number % 2 ^ 30 * 2 ^ 32 =
      omega (arith, kept) in
    ap (λ (t : ℕ). bit_or (bit_or (2 * 2 ^ 62) t) raw) placed
    ∙ ap (λ (t : ℕ). bit_or t raw) (bit_or_add 62 2 (number % 2 ^ 30 * 2 ^ 32) (omega arith))
    ∙ ap (λ (t : ℕ). bit_or t raw) (omega arith)
    ∙ bit_or_add 32 (2 ^ 31 + number % 2 ^ 30) raw h
    ∙ omega arith

payload_lem : (value : ℕ) → bit_and value payload_mask ≡ value % 2 ^ 62
payload_lem value = bit_and_low 62 value

kind_lem :
    (value kind payload : ℕ)
    → value ≡ kind * 2 ^ 62 + payload
    → payload < 2 ^ 62
    → (value / 2 ^ 62 ≡ kind) × (bit_and value payload_mask ≡ payload)
kind_lem value kind payload e h = (omega arith, payload_lem value ∙ omega arith)

-- The flags that name a failure are in the payload.
check_rflags-payload : (rflags : ℕ) → check_rflags (rflags % 2 ^ 62) ≡ check_rflags rflags
unfolding check_rflags
check_rflags-payload rflags =
    let cf : bit_and (rflags % 2 ^ 62) rflags_cf ≡ bit_and rflags rflags_cf =
      omega (arith, bit_and_flag 0 (rflags % 2 ^ 62), bit_and_flag 0 rflags) in
    let zf : bit_and (rflags % 2 ^ 62) rflags_zf ≡ bit_and rflags rflags_zf =
      omega (arith, bit_and_flag 6 (rflags % 2 ^ 62), bit_and_flag 6 rflags) in
    rw (cf, zf) refl

resume_failure-payload : (rflags : ℕ) → resume_failure (rflags % 2 ^ 62) ≡ resume_failure rflags
unfolding resume_failure
resume_failure-payload rflags = ap (failure_or resume_returned) (check_rflags-payload rflags)

pub decode-finished : (exits : ℕ) → decode (encode_finished exits) ≡ finished (exits % 2 ^ 62)
unfolding decode
decode-finished exits =
    let (kind, payload) =
      kind_lem (encode_finished exits) 1 (exits % 2 ^ 62) (finished_lem exits) (omega arith) in
    rw (kind, payload) refl

pub decode_unexpected :
    (number raw : ℕ)
    → raw < 2 ^ 32
    → decode (encode_unexpected number raw) ≡ unexpected (number % 2 ^ 30) (from_raw raw)
unfolding decode
decode_unexpected number raw h =
    let low = number % 2 ^ 30 * 2 ^ 32 + raw in
    let (kind, payload) =
      kind_lem (encode_unexpected number raw) 2 low (unexpected_lem number raw h ∙ omega arith)
        (omega arith) in
    let exit : low / 2 ^ 32 ≡ number % 2 ^ 30 = omega arith in
    let reason : low % 2 ^ 32 ≡ raw = omega arith in rw (kind, payload, exit, reason) refl

decode_resume_failed :
    (rflags : ℕ) → decode (encode_resume_failed rflags) ≡ resume_failed (resume_failure rflags) none
unfolding decode
decode_resume_failed rflags =
    let (kind, payload) =
      kind_lem (encode_resume_failed rflags) 3 (rflags % 2 ^ 62) (resume_failed_lem rflags)
        (omega arith) in
    rw (decode, kind, payload) (ap (λ e. resume_failed e none) (resume_failure-payload rflags))

-- The stop value of a finished run reads back as finished, with its exits modulo 2 ^ 62; that of an
-- unexpected exit with its number modulo 2 ^ 30 and its whole reason; and that of a failed VMRESUME
-- with the failure that RFLAGS names.
pub decode-encode :
    (exits number raw rflags : ℕ)
    → raw < 2 ^ 32
    → (decode (encode_finished exits) ≡ finished (exits % 2 ^ 62))
      × (decode (encode_unexpected number raw) ≡ unexpected (number % 2 ^ 30) (from_raw raw))
      × (decode (encode_resume_failed rflags) ≡ resume_failed (resume_failure rflags) none)
decode-encode exits number raw rflags h =
    (decode-finished exits, decode_unexpected number raw h, decode_resume_failed rflags)
