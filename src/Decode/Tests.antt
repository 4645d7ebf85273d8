-- ===== src/Decode/Tests.antt =====
-- Tests of `Decode`.
use native.Mathlib.Omega.{arith}
use risc_v_business.Base.{◌≡◌, bit}
use risc_v_business.Decode.{b_imm}
use risc_v_business.Decode.Full.{decode}
use risc_v_business.Decode.Compressed.{decode_rvc}
use risc_v_business.Decode.Range.{IsSound}
use risc_v_business.Decode.Sound.{decode-IsSound}
use risc_v_business.Decode.SoundCompressed.{decode_rvc-IsSound}
use risc_v_business.Decode.Immediates.{b_imm_bits}

-- `add x1, x2, x3`.
decode-IsSound_example : IsSound (decode 0x003100B3)
decode-IsSound_example = decode-IsSound 0x003100B3

-- `c.li a0, 1`.
decode_rvc-IsSound_example : IsSound (decode_rvc 0x4505)
decode_rvc-IsSound_example = decode_rvc-IsSound 0x4505 (omega arith)

-- `beq x0, x0, -4`.
b_imm_bits_example : bit 12 (b_imm 0xFE000EE3) ≡ bit 31 0xFE000EE3
b_imm_bits_example = b_imm_bits 0xFE000EE3 12 (omega arith) (omega arith)
