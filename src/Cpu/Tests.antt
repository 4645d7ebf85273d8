-- ===== src/Cpu/Tests.antt =====
-- Tests of `Cpu`.
use risc_v_business.Base.{ℕ, List, ◌≤◌, ◌≡◌, ◌⊎◌, refl, true, false, [], ◌∷◌}
use risc_v_business.Bus
use risc_v_business.Csr
use risc_v_business.Mmu.{u, mode_number}
use risc_v_business.Cpu.{Cpu, new, delegated, deliver_trap, check_interrupts}
use risc_v_business.Cpu.Trap.{ToSupervisor, ToMachine, deliver_trap_modes}
use risc_v_business.Cpu.Interrupts.{FirstFires, NoneFires, check_interrupts_order}
use risc_v_business.Cpu.System.{mret, sret}
use risc_v_business.Cpu.Return.{
  Resumed, after_mret, after_sret, mret-deliver_trap, sret-deliver_trap,
}

abbrev started : Cpu ℕ
started = new (Bus.new 16 0x8000_0000) 0x8000_0000

-- In U-mode, with its calls and the supervisor's timer interrupt given to S-mode; that interrupt is
-- pending and enabled.
abbrev user : Cpu ℕ
user = record started {
  mode = u;
  csr = record Csr.new { medeleg = 0x100; mideleg = 0x20; mip = 0x20; mie = 0x20 };
}

mret-deliver_trap_example :
    Resumed started
      (mret (deliver_trap started 2 0))
      (after_mret started.csr (mode_number started.mode))
unfolding new delegated Csr.new
mret-deliver_trap_example = mret-deliver_trap started 2 0 refl

sret-deliver_trap_example : Resumed user (sret (deliver_trap user 8 0)) (after_sret user.csr)
unfolding new delegated Csr.new
sret-deliver_trap_example = sret-deliver_trap user 8 0 refl refl

deliver_trap_modes_example :
    let d = deliver_trap user 8 0 in
    (mode_number user.mode ≤ mode_number d.mode)
    × (((delegated user 8 ≡ true) × ToSupervisor user d 8 0)
        ⊎ ((delegated user 8 ≡ false) × ToMachine user d 8 0))
deliver_trap_modes_example = deliver_trap_modes user 8 0

check_interrupts_order_example :
    let order : List ℕ = 11 ∷ 3 ∷ 7 ∷ 9 ∷ 1 ∷ 5 ∷ [] in
    FirstFires user order (check_interrupts user) ⊎ NoneFires user order (check_interrupts user)
check_interrupts_order_example = check_interrupts_order user
