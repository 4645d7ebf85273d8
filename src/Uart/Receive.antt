-- ===== src/Uart/Receive.antt =====
-- The receive side of `Uart`: order of the bytes, the interrupt, the counters.
use risc_v_business.Base.{
  ℕ, zero, suc, ◌≡◌, ◌≢◌, ◌↔◌, refl, sym, ◌∙◌, false, ◌&&◌, ◌==◌, if◌then◌else◌, List, [], ◌∷◌,
  ◌++◌, length, arith, bit_and, wrapping_add, append_assoc, append-nil,
}
use risc_v_business.Uart.{Uart, is_empty, data_ready, irq_pending, identify, receive, load, push_rx}

-- The guest reads the receive register `n` times.
pub reads : ℕ → Uart → Uart × List ℕ
reads zero u = (u, [])
reads (suc n) u = let (u', b) = load u 0x1000_0000 1 in let (u'', bs) = reads n u' in (u'', b ∷ bs)

-- The host pushes the bytes one by one.
abbrev pub push_all : Uart → List ℕ → Uart
push_all u [] = u
push_all u (b ∷ bs) = push_all (push_rx u b) bs

rx_buf-push_all : (u : Uart) (bs : List ℕ) → (push_all u bs).rx_buf ≡ u.rx_buf ++ bs
unfolding push_rx
rx_buf-push_all u [] = sym (append-nil u.rx_buf)
rx_buf-push_all u (b ∷ bs) = rx_buf-push_all (push_rx u b) bs ∙ append_assoc u.rx_buf (b ∷ []) bs

reads_buffer :
    (bs : List ℕ) (u : Uart)
    → u.rx_buf ≡ bs
    → ((reads (length bs) u).1 ≡ bs) × ((reads (length bs) u).0.rx_buf ≡ [])
unfolding reads load receive
reads_buffer [] u e = (refl, e)
reads_buffer (b ∷ bs) u e =
    let rest = reads_buffer bs (load u 0x1000_0000 1).0 (ground (arith, e)) in
    ground (arith, rest, e)

-- What the host pushes is read in the order in which it was pushed, behind what was buffered
-- before, and after that many reads the buffer is empty.
pub reads-push_all :
    (u : Uart) (bs : List ℕ)
    → let r = reads (length (u.rx_buf ++ bs)) (push_all u bs) in
      (r.1 ≡ u.rx_buf ++ bs) × (r.0.rx_buf ≡ [])
reads-push_all u bs = reads_buffer (u.rx_buf ++ bs) (push_all u bs) (rx_buf-push_all u bs)

-- The identification register says that no interrupt is pending, 1, exactly when the line to the
-- interrupt controller is low; it says that data is available, 4, exactly when the buffer is not
-- empty and receive interrupts are enabled.
pub identify_iff :
    (u : Uart)
    → ((identify u ≡ 1) ↔ (irq_pending u ≡ false))
      × ((identify u ≡ 4) ↔ ((u.rx_buf ≢ []) × (bit_and u.ier 0x01 ≢ 0)))
unfolding identify irq_pending data_ready
identify_iff u = ground arith

-- The counter after a read, from the buffer before it.
abbrev pub drained_after : List ℕ → ℕ → ℕ
drained_after [] n = n
drained_after (b ∷ rest) n = if is_empty rest && b == 0 then n else wrapping_add n 1

-- The counter of drained bytes: a read of an empty buffer leaves it, and a read of a byte counts
-- it, modulo 2 ^ 64, except where the byte is the last one in the buffer and is zero.
pub receive_counts : (u : Uart) → (receive u).0.rx_drained ≡ drained_after u.rx_buf u.rx_drained
unfolding receive
receive_counts u = ground arith
