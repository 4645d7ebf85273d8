-- ===== src/Machine/Histories.antt =====
-- The invariant of the hart over every history of the loop of src/main.rs.
use risc_v_business.Base.{ℕ, ◌==◌, bit_and, List, [], ◌∷◌, wrapping_add, Exit, ok, err, panic, hang}
use risc_v_business.VirtioBlk.{Disk}
use risc_v_business.Bus.{Bus}
use risc_v_business.Cpu.{Cpu, new}
use risc_v_business.Cpu.Invariant.{IsEven, WellFormed, check_interrupts-WellFormed}
use risc_v_business.Execute.Float.{Floats}
use risc_v_business.Execute.Invariant.Control.{if-WellFormed}
use risc_v_business.Execute.StepInvariant.{new-WellFormed, step-WellFormed}
use risc_v_business.Machine.{
  Machine, Supply, poll, clear_flags, advance_tick, after_step, round, resume, run,
}

module _ {F : Type 0} where
  abbrev pub started : Bus F → ℕ → Machine F
  started b entry = record { cpu = new b entry; tick = 0; last_fence_i_flush = 0 }

  poll-WellFormed : (w : Supply) (c : Cpu F) → WellFormed c → WellFormed (poll w c)
  unfolding poll
  poll-WellFormed w c h = check_interrupts-WellFormed _ h

  advance_tick-WellFormed :
      (w : Supply) (k : Machine F) → WellFormed k.cpu → WellFormed (advance_tick w k).cpu
  unfolding advance_tick
  advance_tick-WellFormed w k h =
      if-WellFormed (bit_and (wrapping_add k.tick 1) 1023 == 0) (poll w k.cpu) k.cpu
        (poll-WellFormed w k.cpu h) h

  after_step-WellFormed :
      (w : Supply) (k : Machine F) (c : Cpu F) (r : Exit ⊥ (Unit {0}))
      → WellFormed c
      → WellFormed (after_step w k c r).0.cpu
  unfolding after_step clear_flags
  after_step-WellFormed w k c (ok x) h =
      advance_tick-WellFormed w (clear_flags (record k { cpu = c })) h
  after_step-WellFormed w k c (err e) h = absurd e
  after_step-WellFormed w k c panic h = h
  after_step-WellFormed w k c hang h = h

  module _ (D : Disk F) (rounds : ℕ) (fl : Floats) where
    round-WellFormed :
        (w : Supply) (k : Machine F) → WellFormed k.cpu → WellFormed (round D rounds fl w k).0.cpu
    unfolding round
    round-WellFormed w k h = after_step-WellFormed w k _ _ (step-WellFormed D rounds fl k.cpu h)

    resume-WellFormed :
        (rest : Machine F → Machine F × Exit ⊥ (Unit {0})) (k : Machine F) (r : Exit ⊥ (Unit {0}))
        → ((j : Machine F) → WellFormed j.cpu → WellFormed (rest j).0.cpu)
        → WellFormed k.cpu
        → WellFormed (resume rest k r).0.cpu
    resume-WellFormed rest k (ok x) hr h = hr k h
    resume-WellFormed rest k (err e) hr h = absurd e
    resume-WellFormed rest k panic hr h = h
    resume-WellFormed rest k hang hr h = h

    run-WellFormed :
        (ws : List Supply) (k : Machine F)
        → WellFormed k.cpu
        → WellFormed (run D rounds fl ws k).0.cpu
    unfolding run
    run-WellFormed [] k h = h
    run-WellFormed (w ∷ ws) k h =
        resume-WellFormed (run D rounds fl ws) (round D rounds fl w k).0 (round D rounds fl w k).1
          (run-WellFormed ws) (round-WellFormed w k h)

    -- From an even entry point, whatever the memory holds, the host supplies and the program does:
    -- after any number of rounds of the loop, also where the last of them did not return, the hart has
    -- 32 registers of each kind, x0 holds 0, and `pc`, `mepc` and `sepc` are even.
    pub run-started-WellFormed :
        (b : Bus F) (entry : ℕ) (ws : List Supply)
        → IsEven entry
        → WellFormed (run D rounds fl ws (started b entry)).0.cpu
    run-started-WellFormed b entry ws e =
        run-WellFormed ws (started b entry) (new-WellFormed b entry e)
