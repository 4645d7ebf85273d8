-- ===== src/Uart/Tests.antt =====
-- Tests of `Uart`.
use native.Mathlib.Omega.{arith}
use risc_v_business.Base.{ℕ, ◌≤◌, ◌≡◌, true, List, [], ◌∷◌, ◌++◌}
use risc_v_business.Uart.{Uart, new, prefix, bpm_target}
use risc_v_business.Uart.Query.{transmit_all, strip, answers, transmit_all-strip}
use risc_v_business.Uart.Gate.{gate_opens}

abbrev query : List ℕ
query = 0x41 ∷ 0x1B ∷ 0x5B ∷ 0x36 ∷ 0x6E ∷ 0x42 ∷ []

transmit_all-strip_example :
    let u' = transmit_all new query in
    (u'.out ++ prefix u'.dsr_state ≡ new.out ++ strip (prefix new.dsr_state ++ query))
    × (u'.rx_buf ≡ new.rx_buf ++ answers (prefix new.dsr_state ++ query))
    × (u'.dsr_state ≤ 3)
unfolding new
transmit_all-strip_example = transmit_all-strip new query (omega arith)

gate_opens_example : (transmit_all new (query ++ (bpm_target ++ query))).stdin_ready ≡ true
unfolding new
gate_opens_example = gate_opens new query query (omega arith)

-- One NUL byte is waiting.
abbrev waiting : Uart
waiting = record new { rx_buf = 0 ∷ [] }
