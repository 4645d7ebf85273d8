-- ===== src/Bus/Tests.antt =====
-- Tests of `Bus`.
use native.Mathlib.Omega.{arith}
use risc_v_business.Base.{ℕ, ◌≡◌, refl, false, ok, err, List, [], ◌∷◌, get_or-replicate}
use risc_v_business.VirtioBlk.{Disk}
use risc_v_business.Bus.{Bus, bus_fault, new, load, store}
use risc_v_business.Bus.Access.{outside_faults}
use risc_v_business.Bus.ByteMemory.{Bytes, Request, read, write, answers, serve, serve-answers}

-- A disk that is never there.
abbrev absent : Disk ℕ
absent = record {
  seek = λ f n. (f, false);
  read_exact = λ f bs. (f, bs, false);
  write_all = λ f bs. (f, false);
}

abbrev small : Bus ℕ
small = new 16 0x8000_0000

-- A store and the load of its upper half.
abbrev exchange : List Request
exchange = write 0x8000_0004 4 0x1_2345_6789 ∷ read 0x8000_0006 2 ∷ []

abbrev all_zero : Bytes
all_zero a = 0

serve-answers_example : (serve absent 4 exchange small).1 ≡ ok (answers exchange all_zero)
unfolding new
serve-answers_example =
    serve-answers absent 4 exchange small all_zero (omega arith) (λ i h. get_or-replicate 16 i 0)
      (
        (
          record { clint = refl; plic = refl; uart = refl; virtio = refl },
          (refl, (omega arith, omega arith)),
        ),
        (
          (
            record { clint = refl; plic = refl; uart = refl; virtio = refl },
            (refl, (omega arith, omega arith)),
          ),
          tt,
        ),
      )

outside_faults_example :
    (load 0x8000_000C 8 small ≡ (small, err (bus_fault 0x8000_000C 8)))
    × (store absent 4 0x8000_000C 8 7 small ≡ (small, err (bus_fault 0x8000_000C 8)))
unfolding new
outside_faults_example =
    outside_faults absent 4 small 0x8000_000C 8 7
      (record { clint = refl; plic = refl; uart = refl; virtio = refl }) (omega arith)
      (λ h. absurd (omega (arith, h.1)))
