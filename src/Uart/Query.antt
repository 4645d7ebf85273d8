-- ===== src/Uart/Query.antt =====
-- The transmit side of `Uart` against a description of it on whole streams: the cursor query is cut
-- out of what the guest sends, and answered.
use mathlib.Core.Path.{ap₂}
use risc_v_business.Base.{
  ℕ, zero, suc, ◌≤◌, ◌≡◌, ◌≢◌, refl, sym, ap, ◌∙◌, Bool, ◌&&◌, ◌==◌, if◌then◌else◌, List, [], ◌∷◌,
  ◌++◌, append_assoc, append-nil, arith,
}
use risc_v_business.Uart.{
  Uart, prefix, response, flush_prefix, watch_bpm, emit, watch_dsr, transmit,
}

-- The guest sends the bytes one by one to the transmit register.
abbrev pub transmit_all : Uart → List ℕ → Uart
transmit_all u [] = u
transmit_all u (b ∷ bs) = transmit_all (transmit u b) bs

abbrev pub is_query : ℕ → ℕ → ℕ → ℕ → Bool
is_query a b c d = a == 0x1B && (b == b'[' && (c == b'6' && d == b'n'))

-- The stream with every query cut out, from left to right.
pub strip : List ℕ → List ℕ
strip (a ∷ b ∷ c ∷ d ∷ rest) =
    let cut = strip rest in
    let kept = a ∷ strip (b ∷ c ∷ d ∷ rest) in if is_query a b c d then cut else kept
strip bs = bs

-- What the queries of the stream are answered.
pub answers : List ℕ → List ℕ
answers (a ∷ b ∷ c ∷ d ∷ rest) =
    let answered = response ++ answers rest in
    let later = answers (b ∷ c ∷ d ∷ rest) in if is_query a b c d then answered else later
answers bs = []

-- A stream that does not begin with ESC begins with no query.
strip-cons : (b : ℕ) (bs : List ℕ) → b ≢ 0x1B → strip (b ∷ bs) ≡ b ∷ strip bs
unfolding strip
strip-cons b [] h = refl
strip-cons b (c ∷ []) h = refl
strip-cons b (c ∷ d ∷ []) h = refl
strip-cons b (c ∷ d ∷ e ∷ bs) h = ground arith

answers-cons : (b : ℕ) (bs : List ℕ) → b ≢ 0x1B → answers (b ∷ bs) ≡ answers bs
unfolding answers
answers-cons b [] h = refl
answers-cons b (c ∷ []) h = refl
answers-cons b (c ∷ d ∷ []) h = refl
answers-cons b (c ∷ d ∷ e ∷ bs) h = ground arith

-- A stream that begins like a query and then differs.
strip-one : (b : ℕ) (bs : List ℕ) → b ≢ b'[' → strip (0x1B ∷ b ∷ bs) ≡ 0x1B ∷ strip (b ∷ bs)
unfolding strip
strip-one b [] h = refl
strip-one b (c ∷ []) h = refl
strip-one b (c ∷ d ∷ bs) h = ground arith

strip-two :
    (c : ℕ) (bs : List ℕ) → c ≢ b'6' → strip (0x1B ∷ b'[' ∷ c ∷ bs) ≡ 0x1B ∷ b'[' ∷ strip (c ∷ bs)
unfolding strip
strip-two c [] h = refl
strip-two c (d ∷ bs) h = ground (arith, strip-cons b'[' (c ∷ d ∷ bs))

strip-three :
    (d : ℕ) (bs : List ℕ)
    → d ≢ b'n'
    → strip (0x1B ∷ b'[' ∷ b'6' ∷ d ∷ bs) ≡ 0x1B ∷ b'[' ∷ b'6' ∷ strip (d ∷ bs)
unfolding strip
strip-three d bs h = ground (arith, strip-cons b'[' (b'6' ∷ d ∷ bs), strip-cons b'6' (d ∷ bs))

answers-one : (b : ℕ) (bs : List ℕ) → b ≢ b'[' → answers (0x1B ∷ b ∷ bs) ≡ answers (b ∷ bs)
unfolding answers
answers-one b [] h = refl
answers-one b (c ∷ []) h = refl
answers-one b (c ∷ d ∷ bs) h = ground arith

answers-two : (c : ℕ) (bs : List ℕ) → c ≢ b'6' → answers (0x1B ∷ b'[' ∷ c ∷ bs) ≡ answers (c ∷ bs)
unfolding answers
answers-two c [] h = refl
answers-two c (d ∷ bs) h = ground (arith, answers-cons b'[' (c ∷ d ∷ bs))

answers-three :
    (d : ℕ) (bs : List ℕ) → d ≢ b'n' → answers (0x1B ∷ b'[' ∷ b'6' ∷ d ∷ bs) ≡ answers (d ∷ bs)
unfolding answers
answers-three d bs h = ground (arith, answers-cons b'[' (b'6' ∷ d ∷ bs), answers-cons b'6' (d ∷ bs))

-- One byte, in each state of the detector: the next state, what is printed, what is answered.
abbrev next : ℕ → ℕ → ℕ
next s b =
    if b == 0x1B then 1 else if s == 1 && b == b'[' then 2 else if s == 2 && b == b'6' then 3 else 0

abbrev printed : ℕ → ℕ → List ℕ
printed s b =
    if b == 0x1B
    then prefix s
    else if s == 1 && b == b'['
    then []
    else if s == 2 && b == b'6'
    then []
    else if s == 3 && b == b'n'
    then []
    else prefix s ++ b ∷ []

abbrev replied : ℕ → ℕ → List ℕ
replied s b = if s == 3 && b == b'n' then response else []

strip-query : (bs : List ℕ) → strip (0x1B ∷ b'[' ∷ b'6' ∷ b'n' ∷ bs) ≡ strip bs
unfolding strip
strip-query bs = refl

answers-query : (bs : List ℕ) → answers (0x1B ∷ b'[' ∷ b'6' ∷ b'n' ∷ bs) ≡ response ++ answers bs
unfolding answers
answers-query bs = refl

strip-prefix :
    (s b : ℕ) (bs : List ℕ)
    → s ≤ 3
    → strip (prefix s ++ b ∷ bs) ≡ printed s b ++ strip (prefix (next s b) ++ bs)
strip-prefix zero b bs h = ground (arith, strip-cons b bs)
strip-prefix (suc zero) b bs h = ground (arith, strip-one b bs, strip-cons b bs)
strip-prefix (suc (suc zero)) b bs h = ground (arith, strip-two b bs, strip-cons b bs)
strip-prefix (suc (suc (suc zero))) b bs h =
    ground (arith, strip-three b bs, strip-cons b bs, strip-query bs)
strip-prefix (suc (suc (suc (suc s)))) b bs h = absurd (omega arith)

answers-prefix :
    (s b : ℕ) (bs : List ℕ)
    → s ≤ 3
    → answers (prefix s ++ b ∷ bs) ≡ replied s b ++ answers (prefix (next s b) ++ bs)
answers-prefix zero b bs h = ground (arith, answers-cons b bs)
answers-prefix (suc zero) b bs h = ground (arith, answers-one b bs, answers-cons b bs)
answers-prefix (suc (suc zero)) b bs h = ground (arith, answers-two b bs, answers-cons b bs)
answers-prefix (suc (suc (suc zero))) b bs h =
    ground (arith, answers-three b bs, answers-cons b bs, answers-query bs)
answers-prefix (suc (suc (suc (suc s)))) b bs h = absurd (omega arith)

watch_bpm_lem :
    (u : Uart) (b : ℕ)
    → ((watch_bpm u b).dsr_state ≡ u.dsr_state)
      × ((watch_bpm u b).out ≡ u.out)
      × ((watch_bpm u b).rx_buf ≡ u.rx_buf)
unfolding watch_bpm
watch_bpm_lem u b = ground arith

emit_lem :
    (u : Uart) (b : ℕ)
    → u.dsr_state ≤ 3
    → ((emit u b).dsr_state ≡ 0)
      × ((emit u b).out ≡ u.out ++ (prefix u.dsr_state ++ b ∷ []))
      × ((emit u b).rx_buf ≡ u.rx_buf)
unfolding emit flush_prefix
emit_lem u b h = ground (arith, append-nil u.out, append_assoc u.out (prefix u.dsr_state) (b ∷ []))

watch_dsr_lem :
    (u : Uart) (b : ℕ)
    → u.dsr_state ≤ 3
    → ((watch_dsr u b).dsr_state ≡ next u.dsr_state b)
      × ((watch_dsr u b).out ≡ u.out ++ printed u.dsr_state b)
      × ((watch_dsr u b).rx_buf ≡ u.rx_buf ++ replied u.dsr_state b)
unfolding watch_dsr flush_prefix
watch_dsr_lem u b h = ground (arith, emit_lem u b, append-nil u.out, append-nil u.rx_buf)

transmit_lem :
    (u : Uart) (b : ℕ)
    → u.dsr_state ≤ 3
    → ((transmit u b).dsr_state ≡ next u.dsr_state b)
      × ((transmit u b).out ≡ u.out ++ printed u.dsr_state b)
      × ((transmit u b).rx_buf ≡ u.rx_buf ++ replied u.dsr_state b)
unfolding transmit
transmit_lem u b h =
    let w = watch_bpm_lem u b in
    let d = watch_dsr_lem (watch_bpm u b) b (omega arith) in
    (
      d.0 ∙ ap (λ t. next t b) w.0,
      d.1 ∙ ap₂ (λ o t. o ++ printed t b) w.1 w.0,
      d.2 ∙ ap₂ (λ r t. r ++ replied t b) w.2 w.0,
    )

next-le : (s b : ℕ) → next s b ≤ 3
next-le s b = ground arith

strip-prefix_self : (s : ℕ) → s ≤ 3 → strip (prefix s ++ []) ≡ prefix s
unfolding strip
strip-prefix_self zero h = refl
strip-prefix_self (suc zero) h = refl
strip-prefix_self (suc (suc zero)) h = refl
strip-prefix_self (suc (suc (suc zero))) h = refl
strip-prefix_self (suc (suc (suc (suc s)))) h = absurd (omega arith)

answers-prefix_self : (s : ℕ) → s ≤ 3 → answers (prefix s ++ []) ≡ []
unfolding answers
answers-prefix_self zero h = refl
answers-prefix_self (suc zero) h = refl
answers-prefix_self (suc (suc zero)) h = refl
answers-prefix_self (suc (suc (suc zero))) h = refl
answers-prefix_self (suc (suc (suc (suc s)))) h = absurd (omega arith)

-- For any stream from any state of the detector: what has been printed, followed by what is still
-- held back, is the earlier output followed by the stream with every query "\x1b[6n" cut out, the
-- bytes held back at the start in front of it; and for each query cut out, and for nothing else, the
-- answer "\x1b[1;1R" has been put into the receive buffer.
pub transmit_all-strip :
    (u : Uart) (bs : List ℕ)
    → u.dsr_state ≤ 3
    → let u' = transmit_all u bs in
      (u'.out ++ prefix u'.dsr_state ≡ u.out ++ strip (prefix u.dsr_state ++ bs))
      × (u'.rx_buf ≡ u.rx_buf ++ answers (prefix u.dsr_state ++ bs))
      × (u'.dsr_state ≤ 3)
transmit_all-strip u [] h = (
  ap (λ t. u.out ++ t) (sym (strip-prefix_self u.dsr_state h)),
  sym (append-nil u.rx_buf) ∙ ap (λ t. u.rx_buf ++ t) (sym (answers-prefix_self u.dsr_state h)),
  h,
)
transmit_all-strip u (b ∷ bs) h =
    let t = transmit_lem u b h in
    let small : (transmit u b).dsr_state ≤ 3 = rw t.0 (next-le u.dsr_state b) in
    let (o, r, s) = transmit_all-strip (transmit u b) bs small in
    (
      o
          ∙ ap₂ (λ l n. l ++ strip (prefix n ++ bs)) t.1 t.0
          ∙ append_assoc u.out (printed u.dsr_state b) (strip (prefix (next u.dsr_state b) ++ bs))
          ∙ ap (λ l. u.out ++ l) (sym (strip-prefix u.dsr_state b bs h)),
      r
          ∙ ap₂ (λ l n. l ++ answers (prefix n ++ bs)) t.2 t.0
          ∙ append_assoc u.rx_buf (replied u.dsr_state b)
              (answers (prefix (next u.dsr_state b) ++ bs))
          ∙ ap (λ l. u.rx_buf ++ l) (sym (answers-prefix u.dsr_state b bs h)),
      s,
    )
