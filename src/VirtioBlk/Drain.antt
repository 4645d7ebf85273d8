-- ===== src/VirtioBlk/Drain.antt =====
-- The loop of process_queue, src/virtio_blk.rs: which requests it serves, and in how many rounds.
use mathlib.Core.Path.{ap₂}
use risc_v_business.Base.{
  ℕ, zero, suc, ◌+◌, ◌-◌, ◌*◌, ◌%◌, ◌^◌, ◌<◌, ◌≤◌, ◌≡◌, refl, ap, ◌∙◌, Bool, Bool-cases, inl, inr,
  true, false, if◌then◌else◌, ◌==◌, ◌||◌, leb, length, u16, wrapping_add, wrapping_sub, Run, Exit,
  ok, err, panic, hang, is_ok, ◌>>=◌, ◌>>◌, return, proceed, arith,
}
use risc_v_business.VirtioBlk.{Disk, VirtioBlk, queue_size}
use risc_v_business.VirtioBlk.Queue.{Device, read, finish, entry, drain, process_queue}
use risc_v_business.VirtioBlk.Frame.{Keeps, read-Keeps, write-Keeps, do_request-Keeps}

abbrev pub is_hang : {E A : Type 0} → Exit E A → Bool
is_hang (ok a) = false
is_hang (err e) = false
is_hang panic = false
is_hang hang = true

module _ {F : Type 0} where
  -- Code that counts one entry of the driver's ring as seen, where it returns.
  record Counts (f : Run (Device F) ⊥ (Unit {0})) : Type 0 where
    counted :
        (d : Device F)
        → is_ok (f d).1 ≡ true
        → (f d).0.blk.last_avail_idx ≡ u16 (d.blk.last_avail_idx + 1)

  proceed-counted :
      {A : Type 0} (k : A → Run (Device F) ⊥ (Unit {0}))
      → ((a : A) → Counts (k a))
      → (d e : Device F) (r : Exit ⊥ A) → e.blk.last_avail_idx ≡ d.blk.last_avail_idx
      → is_ok (proceed k e r).1 ≡ true
      → (proceed k e r).0.blk.last_avail_idx ≡ u16 (d.blk.last_avail_idx + 1)
  proceed-counted k hk d e (ok a) h p = (hk a).counted e p ∙ ap (λ i. u16 (i + 1)) h
  proceed-counted k hk d e (err x) h p = absurd x
  proceed-counted k hk d e panic h p = ground (arith, p)
  proceed-counted k hk d e hang h p = ground (arith, p)

  bind-Counts :
      {A : Type 0} {f : Run (Device F) ⊥ A} {k : A → Run (Device F) ⊥ (Unit {0})}
      → Keeps f
      → ((a : A) → Counts (k a))
      → Counts (f >>= k)
  bind-Counts {f = f} {k = k} hf hk = record {
    counted = λ d p.
        proceed-counted k hk d (f d).0 (f d).1
          (ap (λ (b : VirtioBlk F). b.last_avail_idx) (hf.kept d).blk_kept) p;
  }

  module _ (base : ℕ) (D : Disk F) where
    finish-Counts : Counts (finish {F = F} base D)
    unfolding finish
    finish-Counts = record { counted = λ e p. refl }

    entry-Counts : Counts (entry base D)
    unfolding entry
    entry-Counts = record {
      counted = λ d p.
          let at =
            wrapping_add (wrapping_add d.blk.avail_addr 4)
              (d.blk.last_avail_idx % queue_size * 2) in
          (bind-Counts (read-Keeps base 2 at) λ head.
              bind-Counts (do_request-Keeps base D head) λ _.
                bind-Counts (read-Keeps base 2 (wrapping_add d.blk.used_addr 2)) λ used.
                  bind-Counts (write-Keeps base 4 _ _) λ _.
                    bind-Counts (write-Keeps base 4 _ _)
                      λ _. bind-Counts (write-Keeps base 2 _ _) λ _. finish-Counts).counted
            d p;
    }

    -- A number of entries, one after the other.
    unfoldable pub entries : ℕ → Run (Device F) ⊥ (Unit {0})
    entries zero = return tt
    entries (suc n) = entry base D >> entries n

    -- What the loop reads of the driver's index.
    abbrev pub avail_idx : Device F → Exit ⊥ ℕ
    avail_idx d = (read base 2 (wrapping_add d.blk.avail_addr 2) d).1

    read_state : (n addr : ℕ) (d : Device F) → (read base n addr d).0 ≡ d
    unfolding read
    read_state n addr d = elim (Bool-cases (leb (wrapping_sub addr base + n) (length d.ram))) [
      | inl t ↦ rw t refl
      | inr t ↦ rw t refl
    ]

    -- A round of the loop, with what follows it.
    abbrev round : Device F → Run (Device F) ⊥ (Unit {0}) → ℕ → Run (Device F) ⊥ (Unit {0})
    round d more i = if d.blk.last_avail_idx == i then return tt else entry base D >> more

    drain-round :
        (n idx : ℕ) (d : Device F)
        → avail_idx d ≡ ok idx
        → drain base D (suc n) d ≡ round d (drain base D n) idx d
    unfolding drain
    drain-round n idx d h =
        ap₂ (λ (s : Device F) (r : Exit ⊥ ℕ). proceed (round d (drain base D n)) s r)
          (read_state 2 (wrapping_add d.blk.avail_addr 2) d) h

    abbrev Drains : ℕ → ℕ → Type 0
    Drains idx n =
        (d : Device F)
        → d.blk.last_avail_idx < 2 ^ 16
        → (d.blk.last_avail_idx + n) % 2 ^ 16 ≡ idx
        → ((k : ℕ) → k ≤ n → avail_idx (entries k d).0 ≡ ok idx)
        → is_ok (entries n d).1 ≡ true
        → drain base D (suc n) d ≡ entries n d

    after_entry :
        (idx n : ℕ) (d e : Device F) (r : Exit ⊥ (Unit {0}))
        → Drains idx n
        → (is_ok r ≡ true → e.blk.last_avail_idx ≡ u16 (d.blk.last_avail_idx + 1))
        → (d.blk.last_avail_idx + suc n) % 2 ^ 16 ≡ idx
        → ((k : ℕ) → k ≤ n → avail_idx (proceed (λ _. entries k) e r).0 ≡ ok idx)
        → is_ok (proceed (λ _. entries n) e r).1 ≡ true
        → ◌≡◌ {A = Device F × Exit ⊥ (Unit {0})}
            (proceed (λ _. drain base D (suc n)) e r)
            (proceed (λ _. entries n) e r)
    after_entry idx n d e (ok x) ih count last quiet good =
        let c = count refl in ih e (omega (arith, c)) (omega (arith, c, last)) quiet good
    after_entry idx n d e (err x) ih count last quiet good = absurd x
    after_entry idx n d e panic ih count last quiet good = ground (arith, good)
    after_entry idx n d e hang ih count last quiet good = ground (arith, good)

    drain-entries : (idx n : ℕ) → n < 2 ^ 16 → Drains idx n
    unfolding entries
    drain-entries idx zero h d small last quiet good =
        let own : (d.blk.last_avail_idx == idx) ≡ true = ground (arith, small, last) in
        drain-round 0 idx d (quiet 0 (omega arith)) ∙ rw own refl
    drain-entries idx (suc n) h d small last quiet good =
        let more : (d.blk.last_avail_idx == idx) ≡ false = ground (arith, small, last, h) in
        let (e, r) = entry base D d in
        drain-round (suc n) idx d (quiet 0 (omega arith))
        ∙ rw more (
            after_entry idx n d e r (drain-entries idx n (omega (arith, h)))
              (λ p. entry-Counts.counted d p) last (λ k b. quiet (suc k) (omega (arith, b))) good)

    -- More rounds change nothing where fewer were enough.
    after_more :
        (f g : Run (Device F) ⊥ (Unit {0})) (e : Device F) (r : Exit ⊥ (Unit {0}))
        → ((d : Device F) → is_hang (f d).1 ≡ false → g d ≡ f d)
        → is_hang (proceed (λ _. f) e r).1 ≡ false
        → ◌≡◌ {A = Device F × Exit ⊥ (Unit {0})} (proceed (λ _. g) e r) (proceed (λ _. f) e r)
    after_more f g e (ok x) h p = h e p
    after_more f g e (err x) h p = absurd x
    after_more f g e panic h p = refl
    after_more f g e hang h p = refl

    round_more :
        (d e : Device F) (f g : Run (Device F) ⊥ (Unit {0})) (r : Exit ⊥ ℕ)
        → ((d : Device F) → is_hang (f d).1 ≡ false → g d ≡ f d)
        → is_hang (proceed (round d f) e r).1 ≡ false
        → ◌≡◌ {A = Device F × Exit ⊥ (Unit {0})} (proceed (round d g) e r) (proceed (round d f) e r)
    round_more d e f g (ok i) h = elim (Bool-cases (d.blk.last_avail_idx == i)) [
      | inl t ↦ rw t λ p. refl
      | inr t ↦ rw t λ p. after_more f g (entry base D e).0 (entry base D e).1 h p
    ]
    round_more d e f g (err x) h = absurd x
    round_more d e f g panic h = λ p. refl
    round_more d e f g hang h = λ p. refl

    drain_more :
        (n : ℕ) (d : Device F)
        → is_hang (drain base D n d).1 ≡ false
        → drain base D (suc n) d ≡ drain base D n d
    unfolding drain
    drain_more zero d p = ground (arith, p)
    drain_more (suc n) d p =
        let (e, r) = read base 2 (wrapping_add d.blk.avail_addr 2) d in
        round_more d e (drain base D n) (drain base D (suc n)) r (drain_more n) p

    drain_add :
        (n k : ℕ) (d : Device F)
        → is_hang (drain base D n d).1 ≡ false
        → drain base D (n + k) d ≡ drain base D n d
    drain_add n zero d p = ap (λ i. drain base D i d) {x = n + 0} {y = n} (omega arith)
    drain_add n (suc k) d p =
        let rest = drain_add n k d p in
        ap (λ i. drain base D i d) {x = n + suc k} {y = suc (n + k)} (omega arith)
        ∙ (drain_more (n + k) d (ap (λ (o : Device F × Exit ⊥ (Unit {0})). is_hang o.1) rest ∙ p)
            ∙ rest)

    ok-is_hang : {A : Type 0} (r : Exit ⊥ A) → is_ok r ≡ true → is_hang r ≡ false
    ok-is_hang (ok a) p = refl
    ok-is_hang (err x) p = absurd x
    ok-is_hang panic p = refl
    ok-is_hang hang p = ground (arith, p)

    -- A notified queue is drained: with the ring `n` entries ahead of the device, any number of rounds
    -- above `n` gives the same, which is `n` requests in order. The queue is set up, the device's index
    -- has 16 bits and n is below 2 ^ 16, no request fails, and none of them writes on the driver's
    -- index.
    pub process_queue-drains :
        (idx n rounds : ℕ) (d : Device F)
        → (d.blk.queue_ready == 0 || d.blk.avail_addr == 0 || d.blk.desc_addr == 0) ≡ false
        → d.blk.last_avail_idx < 2 ^ 16
        → n < 2 ^ 16
        → (d.blk.last_avail_idx + n) % 2 ^ 16 ≡ idx
        → ((k : ℕ) → k ≤ n → avail_idx (entries k d).0 ≡ ok idx)
        → is_ok (entries n d).1 ≡ true
        → n < rounds
        → process_queue base D rounds d ≡ entries n d
    unfolding process_queue
    process_queue-drains idx n rounds d ready small few last quiet good enough =
        let once = drain-entries idx n few d small last quiet good in
        let done =
          ap (λ (o : Device F × Exit ⊥ (Unit {0})). is_hang o.1) once
          ∙ ok-is_hang (entries n d).1 good in
        rw ready (
          ap (λ i. drain base D i d) {x = rounds} {y = suc n + (rounds - suc n)}
            (omega (arith, enough))
          ∙ (drain_add (suc n) (rounds - suc n) d done ∙ once))
