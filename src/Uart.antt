-- ===== src/Uart.antt =====
-- The 16550 UART, src/uart.rs. The bytes that the source prints to the host are kept in `out`,
-- oldest first; flushing the host's buffer has no effect here. `width` is ignored, as the source does.
pub mod Query
pub mod Gate
pub mod Receive
mod Tests
use risc_v_business.Base.{
  ℕ, zero, suc, ◌+◌, Bool, true, false, not, ◌&&◌, ◌||◌, ltb, ◌==◌, if◌then◌else◌, List, [], ◌∷◌,
  ◌++◌, get_or, length, bit_and, bit_or, u8, wrapping_add,
}

pub record Uart : Type 0 where
  pub ier : ℕ
  pub rx_buf : List ℕ
  pub dsr_state : ℕ
  pub bpm_state : ℕ
  pub stdin_ready : Bool
  pub tx_bytes : ℕ
  pub rx_bytes : ℕ
  pub rx_drained : ℕ
  pub out : List ℕ

unfoldable pub new : Uart
new = record {
  ier = 0;
  rx_buf = [];
  dsr_state = 0;
  bpm_state = 0;
  stdin_ready = false;
  tx_bytes = 0;
  rx_bytes = 0;
  rx_drained = 0;
  out = [];
}

unfoldable pub push_rx : Uart → ℕ → Uart
push_rx u byte = record u { rx_buf = u.rx_buf ++ byte ∷ []; rx_bytes = wrapping_add u.rx_bytes 1 }

abbrev pub is_empty : List ℕ → Bool
is_empty [] = true
is_empty (x ∷ xs) = false

unfoldable pub data_ready : Uart → Bool
data_ready u = not (is_empty u.rx_buf)

unfoldable pub irq_pending : Uart → Bool
irq_pending u = not (bit_and u.ier 0x02 == 0) || (not (bit_and u.ier 0x01 == 0) && data_ready u)

-- `pop_front().unwrap_or(0)`
abbrev pub pop_front : List ℕ → ℕ × List ℕ
pop_front [] = (0, [])
pop_front (b ∷ rest) = (b, rest)

-- The read of the receive register.
unfoldable pub receive : Uart → Uart × ℕ
receive u =
    let (b, rest) = pop_front u.rx_buf in
    (
      record u {
        rx_buf = rest;
        rx_drained =
            if not (is_empty rest) || not (b == 0)
            then wrapping_add u.rx_drained 1
            else u.rx_drained;
      },
      b,
    )

-- The read of the interrupt identification register.
unfoldable pub identify : Uart → ℕ
identify u =
    if not (bit_and u.ier 0x01 == 0) && data_ready u
    then 0x04
    else if not (bit_and u.ier 0x02 == 0)
    then 0x02
    else 0x01

unfoldable pub load : Uart → ℕ → ℕ → Uart × ℕ
load u addr width =
    let reg = bit_and addr 0xFF in
    if reg == 0
    then receive u
    else if reg == 1
    then (u, u.ier)
    else if reg == 2
    then (u, identify u)
    else if reg == 5
    then (u, if data_ready u then bit_or 0x60 0x01 else 0x60)
    else if reg == 6
    then (u, 0x30)
    else (u, 0)

-- What is held back of "\x1b[6n" in each state of the detector.
abbrev pub prefix : ℕ → List ℕ
prefix s =
    if s == 1
    then 0x1B ∷ []
    else if s == 2
    then 0x1B ∷ b'[' ∷ []
    else if s == 3
    then 0x1B ∷ b'[' ∷ b'6' ∷ []
    else []

unfoldable pub flush_prefix : Uart → Uart
flush_prefix u =
    if u.dsr_state == 1 || u.dsr_state == 2 || u.dsr_state == 3
    then record u {
      out = u.out ++ prefix u.dsr_state;
      tx_bytes = wrapping_add u.tx_bytes (length (prefix u.dsr_state));
      dsr_state = 0;
    }
    else u

-- "\x1b[?2004h"
abbrev pub bpm_target : List ℕ
bpm_target = 0x1B ∷ b'[' ∷ b'?' ∷ b'2' ∷ b'0' ∷ b'0' ∷ b'4' ∷ b'h' ∷ []

-- The first half of `store`: the detector of bracketed-paste mode.
unfoldable pub watch_bpm : Uart → ℕ → Uart
watch_bpm u byte =
    if ltb u.bpm_state (length bpm_target) && byte == get_or bpm_target u.bpm_state 0
    then (if u8 (u.bpm_state + 1) == length bpm_target
        then record u { stdin_ready = true; bpm_state = 0 }
        else record u { bpm_state = u8 (u.bpm_state + 1) })
    else record u { bpm_state = if byte == 0x1B then 1 else 0 }

-- "\x1b[1;1R", what the guest is answered.
abbrev pub response : List ℕ
response = 0x1B ∷ b'[' ∷ b'1' ∷ b';' ∷ b'1' ∷ b'R' ∷ []

-- The default branch of the second half: the byte is no part of the query.
unfoldable pub emit : Uart → ℕ → Uart
emit u byte =
    let u' = flush_prefix u in
    record u' { out = u'.out ++ byte ∷ []; tx_bytes = wrapping_add u'.tx_bytes 1 }

-- The second half of `store`: the detector of the cursor query "\x1b[6n".
unfoldable pub watch_dsr : Uart → ℕ → Uart
watch_dsr u byte =
    if byte == 0x1B
    then (let u' = flush_prefix u in record u' { dsr_state = 1 })
    else if u.dsr_state == 1 && byte == b'['
    then record u { dsr_state = 2 }
    else if u.dsr_state == 2 && byte == b'6'
    then record u { dsr_state = 3 }
    else if u.dsr_state == 3 && byte == b'n'
    then record u { rx_buf = u.rx_buf ++ response; stdin_ready = true; dsr_state = 0 }
    else emit u byte

unfoldable pub transmit : Uart → ℕ → Uart
transmit u byte = watch_dsr (watch_bpm u byte) byte

unfoldable pub store : Uart → ℕ → ℕ → ℕ → Uart
store u addr width val =
    if bit_and addr 0xFF == 0
    then transmit u (u8 val)
    else if bit_and addr 0xFF == 1
    then record u { ier = u8 val }
    else u
