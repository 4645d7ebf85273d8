-- ===== src/VirtioBlk/Tests.antt =====
-- Tests of `VirtioBlk`, its registers and its queue.
use native.Mathlib.Omega.{arith}
use risc_v_business.Base.{ℕ, zero, suc, ◌≤◌, ◌≡◌, false, refl, none, ok, replicate, set}
use risc_v_business.Ram.{read_le, write_le}
use risc_v_business.VirtioBlk.{Disk, VirtioBlk, new}
use risc_v_business.VirtioBlk.Queue.{
  Device, read, write, chain, request, do_request, finish, entry, process_queue,
}
use risc_v_business.VirtioBlk.Drain.{avail_idx, entries, process_queue-drains}
use risc_v_business.VirtioBlk.Registers.{IsSized}

abbrev idle : VirtioBlk ℕ
idle = new none none

idle-IsSized : IsSized idle
unfolding new
idle-IsSized = record { queue = omega arith; features = refl }

-- A disk that is never there.
abbrev no_disk : Disk ℕ
no_disk = record {
  seek = λ f n. (f, false);
  read_exact = λ f bs. (f, bs, false);
  write_all = λ f bs. (f, false);
}

-- RAM at 0 with a driver's ring at 16 that is one entry ahead, a descriptor table at 32 with chains of
-- one descriptor, and the device's ring at 48.
abbrev notified : Device ℕ
notified = record {
  blk = record idle { queue_ready = 1; desc_addr = 32; avail_addr = 16; used_addr = 48 };
  ram = set (replicate 64 0) 18 1;
}

quiet : (k : ℕ) → k ≤ 1 → avail_idx 0 no_disk (entries 0 no_disk k notified).0 ≡ ok 1
unfolding entries entry do_request chain request read write read_le write_le finish new
quiet zero h = refl
quiet (suc zero) h = refl
quiet (suc (suc k)) h = absurd (omega (arith, h))

process_queue-drains_example : process_queue 0 no_disk 65536 notified ≡ entries 0 no_disk 1 notified
unfolding entries entry do_request chain request read write read_le write_le finish new
process_queue-drains_example =
    process_queue-drains 0 no_disk 1 1 65536 notified refl (omega arith) (omega arith) (omega arith)
      quiet refl (omega arith)
