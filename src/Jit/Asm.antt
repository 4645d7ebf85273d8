-- ===== src/Jit/Asm.antt =====
-- The x86-64 assembly that src/jit.rs writes in its `dynasm!` blocks, as a language: the instructions
-- it uses and what they do. r15 points at the 32 registers of the guest and r14 at the hart while a
-- block runs, so that [r15 + off] is a register of the guest, and the values of the other host
-- registers that matter are numbers. A comparison leaves its flags, and any other arithmetic leaves
-- none that the code may read. All jumps go forward, to the next occurrence of their label.
pub mod Run
use risc_v_business.Base.{
  ℕ, zero, suc, ◌+◌, ◌-◌, ◌*◌, ◌/◌, ◌%◌, ◌^◌, Bool, true, false, not, ◌||◌, ltb, leb, ◌==◌,
  if◌then◌else◌, Option, none, some, List, [], ◌∷◌, get_or, set, bit_and, bit_or, bit_xor, u32, u64,
  max_u64, ◌>>>◌, ◌<<<◌, asr64, wrapping_add, wrapping_sub, Exit, ok, err, panic, hang, ◌>>=◌,
  proceed, return,
}
use risc_v_business.VirtioBlk.{Disk}
use risc_v_business.Cpu.{Cpu}
use risc_v_business.Execute.Alu.{sext, signed_lt, as_number, widen, times, quotient, remainder}
use risc_v_business.Jit.{jit_load, jit_store}

-- `eax` for `rax`, with `w32`.
pub data Width : Type 0 where
  w64 w32 : Width

pub data Reg : Type 0 where
  rax rcx rdx : Reg

-- `QWORD [r15 + off]` or `DWORD [r15 + off]`, and an immediate of 32 bits, which is sign-extended.
pub data Operand : Type 0 where
  reg : Reg → Operand
  slot imm : ℕ → Operand

pub data Binary : Type 0 where
  add sub and or xor imul : Binary

pub data Shift : Type 0 where
  shl shr sar : Shift

-- The conditions of jumps and of `setl` and `setb`; `jz` and `je` are the same instruction.
pub data Condition : Type 0 where
  e ne l ge b ae : Condition

-- The helper that a `call` calls, whose address is in rax: a load or a store of so many bytes.
pub data Callout : Type 0 where
  load store : ℕ → Callout

pub data Op : Type 0 where
  mov_load : Width → Reg → ℕ → Op
  movsx_load : (bits : ℕ) → Reg → ℕ → Op
  mov_store : ℕ → Reg → Op
  mov_imm mov_imm32 : Reg → ℕ → Op
  mov : Reg → Reg → Op
  binary : Binary → Width → Reg → Operand → Op
  shift_cl : Shift → Width → Op
  shift_imm : Shift → Width → ℕ → Op
  cmp : Reg → Operand → Op
  test : Width → Reg → Op
  set_al : Condition → Op
  movzx_al : Op
  movsxd : Reg → Op
  cqo : Op
  imul_rcx mul_rcx div_rcx idiv_rcx div_ecx : Op
  mov_rsi_slot add_rsi : ℕ → Op
  mov_rdi_r14 mov_r15_rdi mov_r14_rsi : Op
  mov_pc : Op
  call : Callout → Op
  push_r15 push_r14 pop_r14 pop_r15 sub_rsp_8 add_rsp_8 : Op
  jmp label : ℕ → Op
  jcc : Condition → ℕ → Op
  ret : Op

-- What a register holds that may hold a pointer: the guest's registers, the hart, or a number.
pub data Value : Type 0 where
  regs_ptr cpu_ptr : Value
  num : ℕ → Value

pub record Flags : Type 0 where
  pub zero_flag : Bool
  pub less : Bool
  pub below : Bool

pub record Scratch : Type 0 where
  pub rax : ℕ
  pub rcx : ℕ
  pub rdx : ℕ
  pub rsi : Value
  pub rdi : Value
  pub flags : Option Flags

-- The host in the middle of a block.
pub record X64 (F : Type 0) : Type 0 where
  pub cpu : Cpu F
  pub scratch : Scratch
  pub r14 : Value
  pub r15 : Value
  pub stack : List Value

abbrev pub get : Reg → Scratch → ℕ
get rax s = s.rax
get rcx s = s.rcx
get rdx s = s.rdx

abbrev pub put : Reg → ℕ → Scratch → Scratch
put rax v s = record s { rax = v }
put rcx v s = record s { rcx = v }
put rdx v s = record s { rdx = v }

abbrev pub cut : Width → ℕ → ℕ
cut w64 v = v
cut w32 v = u32 v

-- The result in 64 bits, or in 32 with zeros above.
abbrev pub wrap : Width → ℕ → ℕ
wrap w64 v = u64 v
wrap w32 v = u32 v

abbrev pub binary_value : Binary → Width → ℕ → ℕ → ℕ
binary_value add w x y = wrap w (x + y)
binary_value sub w x y = wrap w (x + 2 ^ 64 - y)
binary_value and w x y = bit_and x y
binary_value or w x y = bit_or x y
binary_value xor w x y = bit_xor x y
binary_value imul w x y = wrap w (x * y)

-- Shifts take their count modulo the width.
abbrev pub shift_value : Shift → Width → ℕ → ℕ → ℕ
shift_value shl w64 x k = x <<< k % 64
shift_value shr w64 x k = x >>> k % 64
shift_value sar w64 x k = asr64 x (k % 64)
shift_value shl w32 x k = u32 (x <<< k % 32)
shift_value shr w32 x k = x >>> k % 32
shift_value sar w32 x k = u32 (asr64 (sext x 31) (k % 32))

abbrev pub compared : ℕ → ℕ → Flags
compared x y = record { zero_flag = x == y; less = signed_lt x y; below = ltb x y }

abbrev pub holds : Condition → Flags → Bool
holds e f = f.zero_flag
holds ne f = not f.zero_flag
holds l f = f.less
holds ge f = not f.less
holds b f = f.below
holds ae f = not f.below

abbrev pub in_regs : Value → Bool
in_regs regs_ptr = true
in_regs _ = false

abbrev pub in_cpu : Value → Bool
in_cpu cpu_ptr = true
in_cpu _ = false

abbrev pub set_low_byte : ℕ → Bool → ℕ
set_low_byte x t = x - x % 256 + as_number t

abbrev pub condition : Condition → Option Flags → Option Bool
condition c none = none
condition c (some f) = some (holds c f)

abbrev pub add_to : ℕ → Value → Value
add_to i (num n) = num (wrapping_add n (sext i 31))
add_to i v = v

-- What `test` of a register with itself compares with 0.
abbrev pub tested : Width → ℕ → ℕ
tested w64 v = v
tested w32 v = sext (u32 v) 31

-- Whether a quotient of 128 bits fits into 64.
abbrev pub fits : ℕ → Bool
fits q = widen (u64 q) == q
