-- ===== src/Examples/Stop.antt =====
-- A stop value of src/vmx/vmcs/launch.rs for the last exit of the planned run.
use aleph0_virtualization_hy.Base.{◌%◌, ◌^◌, ◌≡◌, none, arith}
use aleph0_virtualization_hy.ExitDecision.Types.{from_raw}
use aleph0_virtualization_hy.Vmcs.{resume_failure}
use aleph0_virtualization_hy.Vmcs.Launch.{
  finished, unexpected, resume_failed, encode_finished, encode_unexpected, encode_resume_failed,
  decode,
}
use aleph0_virtualization_hy.Vmcs.StopValue.{decode-encode}

decode-encode_example :
    (decode (encode_finished 13) ≡ finished (13 % 2 ^ 62))
    × (decode (encode_unexpected 4 0x8000_0021) ≡ unexpected (4 % 2 ^ 30) (from_raw 0x8000_0021))
    × (decode (encode_resume_failed 0x46) ≡ resume_failed (resume_failure 0x46) none)
decode-encode_example = decode-encode 13 4 0x8000_0021 0x46 (omega arith)
