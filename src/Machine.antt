-- ===== src/Machine.antt =====
-- The run loop of src/main.rs without `--jit`: a step, the two flags for the compiler, and every 1024
-- steps the devices' turn, which moves input to the UART, advances the clock and puts the interrupt
-- lines into `mip`. What the host supplies in a turn is an argument: the bytes that wait on the
-- channel from standard input, and the time passed in units of 100 ns. The diagnostics of `--debug`
-- and the flush of the host's output only print, and are left out.
pub mod Compiled
pub mod Lines
pub mod Histories
mod Tests
use risc_v_business.Base.{
  ℕ, ◌+◌, ◌-◌, ◌*◌, ◌/◌, ◌%◌, ◌^◌, Bool, true, false, not, ◌&&◌, leb, ◌==◌, if◌then◌else◌, List, [],
  ◌∷◌, bit_and, bit_or, not64, ◌<<<◌, max_u64, wrapping_add, wrapping_sub, Exit, ok, err, panic,
  hang,
}
use risc_v_business.VirtioBlk.{Disk}
use risc_v_business.Clint.{Clint}
use risc_v_business.Uart
use risc_v_business.Uart.{Uart}
use risc_v_business.Plic
use risc_v_business.Bus.{Bus}
use risc_v_business.Csr.{Csr}
use risc_v_business.Cpu.{Cpu, check_interrupts}
use risc_v_business.Execute.Float.{Floats}
use risc_v_business.Execute.Step.{step}

pub record Machine (F : Type 0) : Type 0 where
  pub cpu : Cpu F
  pub tick : ℕ
  pub last_fence_i_flush : ℕ

-- What the host has ready when the devices have their turn.
pub record Supply : Type 0 where
  pub bytes : List ℕ
  pub advance : ℕ

unfoldable pub push_all : Uart → List ℕ → Uart
push_all u [] = u
push_all u (b ∷ bs) = push_all (Uart.push_rx u b) bs

-- `if active { mip |= 1 << line } else { mip &= !(1 << line) }`.
unfoldable pub drive : ℕ → Bool → ℕ → ℕ
drive line active mip = if active then bit_or mip (1 <<< line) else bit_and mip (not64 (1 <<< line))

abbrev pub clock_due : Clint → Bool
clock_due k = leb k.mtimecmp k.mtime

-- STIP follows `stimecmp` where it is not at its initial value.
abbrev pub drive_stip : Clint → Csr → ℕ → ℕ
drive_stip k r mip = if r.stimecmp == max_u64 then mip else drive 5 (leb r.stimecmp k.mtime) mip

module _ {F : Type 0} where
  -- The devices with the host's bytes and time, and the interrupt lines to the PLIC.
  unfoldable pub supply : Supply → Bus F → Bus F
  supply w b =
      let filled = if b.uart.stdin_ready then push_all b.uart w.bytes else b.uart in
      let clock = record b.clint { mtime = wrapping_add b.clint.mtime w.advance } in
      let lines =
        Plic.set_pending (Plic.set_pending b.plic 10 (Uart.irq_pending filled)) 1
          (not (b.virtio_blk.irq_status == 0)) in
      record b { uart = filled; clint = clock; plic = lines }

  -- `mip` from the clock and the PLIC.
  unfoldable pub lines_of : Bus F → Csr → ℕ
  lines_of b r =
      drive 9 (Plic.has_interrupt b.plic) (drive_stip b.clint r (drive 7 (clock_due b.clint) r.mip))

  unfoldable pub poll : Supply → Cpu F → Cpu F
  poll w c =
      let b = supply w c.bus in
      (check_interrupts (record c { bus = b; csr = record c.csr { mip = lines_of b c.csr } })).0

  -- The flags that ask for the compiled code to be dropped.
  unfoldable pub clear_flags : Machine F → Machine F
  clear_flags k =
      let c = k.cpu in
      let flush = c.fence_i_pending && leb 65536 (wrapping_sub k.tick k.last_fence_i_flush) in
      record k {
        cpu = record c { jit_invalidate = false; fence_i_pending = false };
        last_fence_i_flush = if flush then k.tick else k.last_fence_i_flush;
      }

  -- The end of a round of the loop.
  unfoldable pub advance_tick : Supply → Machine F → Machine F
  advance_tick w k =
      let tick = wrapping_add k.tick 1 in
      record k { tick = tick; cpu = if bit_and tick 1023 == 0 then poll w k.cpu else k.cpu }

  -- How a step ends for the loop, which goes on as long as it returns.
  unfoldable pub after_step :
      Supply → Machine F → Cpu F → Exit ⊥ (Unit {0}) → Machine F × Exit ⊥ (Unit {0})
  after_step w k c (ok x) = (advance_tick w (clear_flags (record k { cpu = c })), ok x)
  after_step w k c (err e) = absurd e
  after_step w k c panic = (record k { cpu = c }, panic)
  after_step w k c hang = (record k { cpu = c }, hang)

  -- The rest of the loop after a round.
  abbrev pub resume :
      (Machine F → Machine F × Exit ⊥ (Unit {0}))
      → Machine F
      → Exit ⊥ (Unit {0})
      → Machine F × Exit ⊥ (Unit {0})
  resume rest k (ok x) = rest k
  resume rest k (err e) = absurd e
  resume rest k panic = (k, panic)
  resume rest k hang = (k, hang)

  module _ (D : Disk F) (rounds : ℕ) (fl : Floats) where
    unfoldable pub round : Supply → Machine F → Machine F × Exit ⊥ (Unit {0})
    round w k = let (c, r) = step D rounds fl k.cpu in after_step w k c r

    -- The loop, one round for each supply, until a round does not return.
    unfoldable pub run : List Supply → Machine F → Machine F × Exit ⊥ (Unit {0})
    run [] k = (k, ok tt)
    run (w ∷ ws) k = let (k', r) = round w k in resume (run ws) k' r
