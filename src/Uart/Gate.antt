-- ===== src/Uart/Gate.antt =====
-- The gate of `Uart` for standard input: what opens it, and that it stays open.
use mathlib.Core.Path.{ap₂}
use risc_v_business.Base.{
  ℕ, zero, suc, ◌+◌, ◌<◌, ◌≡◌, refl, ◌∙◌, true, ◌&&◌, ◌||◌, ◌==◌, if◌then◌else◌, List, [], ◌∷◌,
  ◌++◌, get_or, drop, arith,
}
use risc_v_business.Uart.{Uart, flush_prefix, bpm_target, watch_bpm, emit, watch_dsr, transmit}
use risc_v_business.Uart.Query.{transmit_all}

-- The state of the bracketed-paste detector after one more byte.
abbrev pub bpm_next : ℕ → ℕ → ℕ
bpm_next s b =
    if b == get_or bpm_target s 0
    then (if s == 7 then 0 else s + 1)
    else (if b == 0x1B then 1 else 0)

watch_bpm_gate :
    (u : Uart) (b : ℕ)
    → u.bpm_state < 8
    → ((watch_bpm u b).bpm_state ≡ bpm_next u.bpm_state b)
      × ((watch_bpm u b).stdin_ready
          ≡ (u.stdin_ready || (u.bpm_state == 7 && b == get_or bpm_target u.bpm_state 0)))
      × ((watch_bpm u b).dsr_state ≡ u.dsr_state)
unfolding watch_bpm
watch_bpm_gate u b h = ground arith

watch_dsr_gate :
    (u : Uart) (b : ℕ)
    → ((watch_dsr u b).bpm_state ≡ u.bpm_state)
      × ((watch_dsr u b).stdin_ready ≡ (u.stdin_ready || (u.dsr_state == 3 && b == b'n')))
unfolding watch_dsr emit flush_prefix
watch_dsr_gate u b = ground arith

transmit_gate :
    (u : Uart) (b : ℕ)
    → u.bpm_state < 8
    → ((transmit u b).bpm_state ≡ bpm_next u.bpm_state b)
      × ((transmit u b).stdin_ready ≡ (
          (u.stdin_ready || (u.bpm_state == 7 && b == get_or bpm_target u.bpm_state 0))
          || (u.dsr_state == 3 && b == b'n')))
unfolding transmit
transmit_gate u b h =
    let w = watch_bpm_gate u b h in
    let d = watch_dsr_gate (watch_bpm u b) b in
    (d.0 ∙ w.0, d.1 ∙ ap₂ (λ r s. r || (s == 3 && b == b'n')) w.1 w.2)

bpm_next-lt : (s b : ℕ) → s < 8 → bpm_next s b < 8
bpm_next-lt s b h = ground arith

transmit_bound : (u : Uart) (b : ℕ) → u.bpm_state < 8 → (transmit u b).bpm_state < 8
transmit_bound u b h = rw ((transmit_gate u b h).0) (bpm_next-lt u.bpm_state b h)

stays_open :
    (u : Uart) (bs : List ℕ)
    → u.bpm_state < 8
    → u.stdin_ready ≡ true
    → (transmit_all u bs).stdin_ready ≡ true
stays_open u [] h r = r
stays_open u (b ∷ bs) h r =
    stays_open (transmit u b) bs (transmit_bound u b h) (ground (arith, transmit_gate u b h))

-- ESC leads to the same state from everywhere.
bpm_next-escape : (s : ℕ) → s < 8 → bpm_next s 0x1B ≡ 1
bpm_next-escape zero h = refl
bpm_next-escape (suc zero) h = refl
bpm_next-escape (suc (suc zero)) h = refl
bpm_next-escape (suc (suc (suc zero))) h = refl
bpm_next-escape (suc (suc (suc (suc zero)))) h = refl
bpm_next-escape (suc (suc (suc (suc (suc zero))))) h = refl
bpm_next-escape (suc (suc (suc (suc (suc (suc zero)))))) h = refl
bpm_next-escape (suc (suc (suc (suc (suc (suc (suc zero))))))) h = refl
bpm_next-escape (suc (suc (suc (suc (suc (suc (suc (suc s)))))))) h = absurd (omega arith)

-- The rest of the target opens the gate, from the state that has seen the part before it.
module _ (post : List ℕ) where
  abbrev Opens : ℕ → List ℕ → Type 0
  Opens s bs = (u : Uart) → u.bpm_state ≡ s → (transmit_all u (bs ++ post)).stdin_ready ≡ true

  last_byte : Opens 7 (b'h' ∷ [])
  last_byte u e =
      stays_open (transmit u b'h') post (transmit_bound u b'h' (omega arith))
        (ground (arith, transmit_gate u b'h'))

  one_byte :
      (s b : ℕ) (bs : List ℕ)
      → s < 7
      → get_or bpm_target s 0 ≡ b
      → Opens (s + 1) bs
      → Opens s (b ∷ bs)
  one_byte s b bs h e rest u eu = rest (transmit u b) (ground (arith, transmit_gate u b))

  after_escape : Opens 1 (drop 1 bpm_target)
  after_escape = one_byte 1 b'[' (drop 2 bpm_target) (omega arith) refl (
      one_byte 2 b'?' (drop 3 bpm_target) (omega arith) refl (
        one_byte 3 b'2' (drop 4 bpm_target) (omega arith) refl (
          one_byte 4 b'0' (drop 5 bpm_target) (omega arith) refl (
            one_byte 5 b'0' (drop 6 bpm_target) (omega arith) refl
              (one_byte 6 b'4' (drop 7 bpm_target) (omega arith) refl last_byte)))))

  restart : (u : Uart) → u.bpm_state < 8 → (transmit_all u (bpm_target ++ post)).stdin_ready ≡ true
  restart u h =
      after_escape (transmit u 0x1B) ((transmit_gate u 0x1B h).0 ∙ bpm_next-escape u.bpm_state h)

-- Whatever is sent before and after it, from any of the eight states of the detector, "\x1b[?2004h"
-- opens the gate, and it is open at the end.
pub gate_opens :
    (u : Uart) (pre post : List ℕ)
    → u.bpm_state < 8
    → (transmit_all u (pre ++ (bpm_target ++ post))).stdin_ready ≡ true
gate_opens u [] post h = restart post u h
gate_opens u (b ∷ pre) post h = gate_opens (transmit u b) pre post (transmit_bound u b h)
