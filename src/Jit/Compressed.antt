-- ===== src/Jit/Compressed.antt =====
-- `emit_rvc` of src/jit.rs: the assembly for a compressed instruction, by quadrant.
use risc_v_business.Base.{
  ℕ, ◌+◌, ◌-◌, ◌^◌, ◌==◌, ◌&&◌, if◌then◌else◌, List, [], ◌∷◌, ◌++◌, u32, bit_and, bit_or, ◌>>>◌,
  ◌<<<◌, wrapping_add,
}
use risc_v_business.Jit.{sign_ext, rvc_j_imm, rvc_b_imm}
use risc_v_business.Jit.Asm.{
  w64, w32, rax, rcx, slot, imm, Binary, shl, shr, sar, Condition, Op, mov_load, mov_store, mov_imm,
  mov_imm32, mov, binary, shift_imm, test, movsxd, pop_r14, pop_r15, add_rsp_8, label, jcc, ret,
}
use risc_v_business.Jit.Emit.{
  Effect, seq, terminal, unhandled, off, taken, emit_return, emit_load, emit_store,
}

-- `(raw >> k) & m`.
abbrev pub field : ℕ → ℕ → ℕ → ℕ
field raw k m = bit_and (raw >>> k) m

-- The immediate of six bits in bit 12 and bits 6 to 2, as an i32.
unfoldable pub imm_6 : ℕ → ℕ
imm_6 raw = u32 (sign_ext (bit_or (field raw 12 1 <<< 5) (field raw 2 0x1f)) 6)

abbrev pub shamt_6 : ℕ → ℕ
shamt_6 raw = bit_or (field raw 12 1 <<< 5) (field raw 2 0x1f)

-- The offset of C.LD and C.SD.
abbrev pub offset_d : ℕ → ℕ
offset_d raw = bit_or (field raw 10 7 <<< 3) (field raw 5 3 <<< 6)

-- One operation on a register in place.
abbrev pub in_place : ℕ → Op → List Op × Effect
in_place rd op = (mov_load w64 rax (off rd) ∷ op ∷ mov_store (off rd) rax ∷ [], seq)

abbrev pub in_place_w : ℕ → Op → List Op × Effect
in_place_w rd op = (mov_load w32 rax (off rd) ∷ op ∷ movsxd rax ∷ mov_store (off rd) rax ∷ [], seq)

unfoldable pub emit_spn : ℕ → List Op × Effect
emit_spn raw =
    let rd = field raw 2 7 + 8 in
    let uimm =
      bit_or (bit_or (bit_or (field raw 11 3 <<< 4) (field raw 7 0xf <<< 6)) (field raw 6 1 <<< 2))
        (field raw 5 1 <<< 3) in
    if uimm == 0 then ([], unhandled) else (
      mov_load w64 rax (off 2)
          ∷ binary Binary.add w64 rax (imm (u32 uimm))
          ∷ mov_store (off rd) rax
          ∷ [],
      seq,
    )

unfoldable pub emit_quadrant_0 : (raw guest_pc : ℕ) → List Op × Effect
emit_quadrant_0 raw guest_pc =
    let funct3 = raw >>> 13 in
    let low = field raw 2 7 + 8 in
    let high = field raw 7 7 + 8 in
    if funct3 == 0
    then emit_spn raw
    else if funct3 == 3
    then (emit_load low high (offset_d raw) 8 guest_pc, seq)
    else if funct3 == 7
    then (emit_store high low (offset_d raw) 8 guest_pc, seq)
    else ([], unhandled)

-- C.ADDI16SP and C.LUI.
unfoldable pub emit_upper : ℕ → List Op × Effect
emit_upper raw =
    let rd = field raw 7 0x1f in
    let nzimm_sp = u32 (
      sign_ext
        (bit_or
          (bit_or
            (bit_or (bit_or (field raw 12 1 <<< 9) (field raw 3 3 <<< 7)) (field raw 5 1 <<< 6))
            (field raw 2 1 <<< 5))
          (field raw 6 1 <<< 4))
        10) in
    let nzimm = sign_ext (bit_or (field raw 12 1 <<< 5) (field raw 2 0x1f)) 6 in
    if rd == 2
    then (if nzimm_sp == 0
        then ([], unhandled)
        else in_place 2 (binary Binary.add w64 rax (imm nzimm_sp)))
    else if rd == 0
    then ([], unhandled)
    else if nzimm == 0
    then ([], unhandled)
    else (mov_imm rax (nzimm <<< 12) ∷ mov_store (off rd) rax ∷ [], seq)

-- C.SRLI to C.ADDW.
unfoldable pub emit_arithmetic : ℕ → List Op × Effect
emit_arithmetic raw =
    let op2 = field raw 10 3 in
    let rd = field raw 7 7 + 8 in
    let rs2 = slot (off (field raw 2 7 + 8)) in
    let op_sel = field raw 5 3 in
    if op2 == 0
    then in_place rd (shift_imm shr w64 (shamt_6 raw))
    else if op2 == 1
    then in_place rd (shift_imm sar w64 (shamt_6 raw))
    else if op2 == 2
    then in_place rd (binary Binary.and w64 rax (imm (imm_6 raw)))
    else if field raw 12 1 == 0
    then (if op_sel == 0
        then in_place rd (binary Binary.sub w64 rax rs2)
        else if op_sel == 1
        then in_place rd (binary Binary.xor w64 rax rs2)
        else if op_sel == 2
        then in_place rd (binary Binary.or w64 rax rs2)
        else in_place rd (binary Binary.and w64 rax rs2))
    else if op_sel == 0
    then in_place_w rd (binary Binary.sub w32 rax rs2)
    else if op_sel == 1
    then in_place_w rd (binary Binary.add w32 rax rs2)
    else ([], unhandled)

-- C.BEQZ and C.BNEZ, which jump under the condition.
unfoldable pub emit_branch_zero : Condition → (raw guest_pc : ℕ) → List Op × Effect
emit_branch_zero c raw guest_pc = (
  (mov_load w64 rax (off (field raw 7 7 + 8)) ∷ test w64 rax ∷ jcc c taken ∷ [])
      ++ (emit_return (wrapping_add guest_pc 2)
          ++ (label taken ∷ emit_return (wrapping_add guest_pc (rvc_b_imm raw)))),
  terminal,
)

unfoldable pub emit_quadrant_1 : (raw guest_pc : ℕ) → List Op × Effect
emit_quadrant_1 raw guest_pc =
    let funct3 = raw >>> 13 in
    let rd = field raw 7 0x1f in
    if funct3 == 0
    then (if rd == 0 then ([], seq) else in_place rd (binary Binary.add w64 rax (imm (imm_6 raw))))
    else if funct3 == 1
    then (if rd == 0
        then ([], unhandled)
        else in_place_w rd (binary Binary.add w32 rax (imm (imm_6 raw))))
    else if funct3 == 2
    then (if rd == 0
        then ([], seq)
        else (mov_imm32 rax (imm_6 raw) ∷ mov_store (off rd) rax ∷ [], seq))
    else if funct3 == 3
    then emit_upper raw
    else if funct3 == 4
    then emit_arithmetic raw
    else if funct3 == 5
    then (emit_return (wrapping_add guest_pc (rvc_j_imm raw)), terminal)
    else if funct3 == 6
    then emit_branch_zero Condition.e raw guest_pc
    else emit_branch_zero Condition.ne raw guest_pc

-- The end of C.JR and C.JALR: the target in rcx loses its low bit and is returned.
abbrev pub return_rcx : List Op
return_rcx =
    binary Binary.and w64 rcx (imm (2 ^ 32 - 2))
    ∷ add_rsp_8
    ∷ pop_r14
    ∷ pop_r15
    ∷ mov rax rcx
    ∷ ret
    ∷ []

-- C.JR, C.MV, C.JALR and C.ADD.
unfoldable pub emit_jump_or_add : (raw guest_pc : ℕ) → List Op × Effect
emit_jump_or_add raw guest_pc =
    let bit12 = field raw 12 1 in
    let rs1_rd = field raw 7 0x1f in
    let rs2 = field raw 2 0x1f in
    if bit12 == 0 && rs2 == 0
    then (if rs1_rd == 0
        then ([], unhandled)
        else (mov_load w64 rcx (off rs1_rd) ∷ return_rcx, terminal))
    else if bit12 == 0
    then (if rs1_rd == 0
        then ([], seq)
        else (mov_load w64 rax (off rs2) ∷ mov_store (off rs1_rd) rax ∷ [], seq))
    else if rs2 == 0
    then (if rs1_rd == 0 then ([], unhandled) else (
      mov_load w64 rcx (off rs1_rd)
          ∷ mov_imm rax (wrapping_add guest_pc 2)
          ∷ mov_store (off 1) rax
          ∷ return_rcx,
      terminal,
    ))
    else if rs1_rd == 0
    then ([], seq)
    else in_place rs1_rd (binary Binary.add w64 rax (slot (off rs2)))

unfoldable pub emit_quadrant_2 : (raw guest_pc : ℕ) → List Op × Effect
emit_quadrant_2 raw guest_pc =
    let funct3 = raw >>> 13 in
    let rd = field raw 7 0x1f in
    let from_sp =
      bit_or (bit_or (field raw 12 1 <<< 5) (field raw 5 3 <<< 3)) (field raw 2 7 <<< 6) in
    let to_sp = bit_or (field raw 10 7 <<< 3) (field raw 7 7 <<< 6) in
    if funct3 == 0
    then (if rd == 0 then ([], seq) else in_place rd (shift_imm shl w64 (shamt_6 raw)))
    else if funct3 == 3
    then (if rd == 0 then ([], unhandled) else (emit_load rd 2 from_sp 8 guest_pc, seq))
    else if funct3 == 4
    then emit_jump_or_add raw guest_pc
    else if funct3 == 7
    then (emit_store 2 (field raw 2 0x1f) to_sp 8 guest_pc, seq)
    else ([], unhandled)

unfoldable pub emit_rvc : (raw guest_pc : ℕ) → List Op × Effect
emit_rvc raw guest_pc =
    let quadrant = bit_and raw 3 in
    if quadrant == 0
    then emit_quadrant_0 raw guest_pc
    else if quadrant == 1
    then emit_quadrant_1 raw guest_pc
    else if quadrant == 2
    then emit_quadrant_2 raw guest_pc
    else ([], unhandled)
