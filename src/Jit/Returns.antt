-- ===== src/Jit/Returns.antt =====
-- What a run of `compile` of src/jit.rs returns, where it returns, call by call.
use risc_v_business.Base.{
  ◌≡◌, refl, not, Bool, true, false, if◌then◌else◌, Run, Exit, ok, err, panic, hang,
}
use risc_v_business.Cpu.{Cpu}
use risc_v_business.Jit.Compile.{chosen, on_ok}

-- What a run returns, where it returns, satisfies the predicate.
abbrev pub Holds : {B : Type 0} → (B → Type 0) → Exit ⊥ B → Type 0
Holds P (ok b) = P b
Holds P _ = Unit {0}

module _ {F : Type 0} where
  pub record Ends {B : Type 0} (P : B → Type 0) (f : Run (Cpu F) ⊥ B) : Type 0 where
    pub ends : (c : Cpu F) → Holds P (f c).1

  chosen-Holds :
      {E A B : Type 0} (P : B → Type 0) (failed : Run (Cpu F) ⊥ B) (good : A → Run (Cpu F) ⊥ B)
      → Ends P failed
      → ((a : A) → Ends P (good a))
      → (c : Cpu F) (r : Exit E A) → Holds P (chosen failed good c r).1
  chosen-Holds P failed good hf hg c (ok a) = (hg a).ends c
  chosen-Holds P failed good hf hg c (err e) = hf.ends c
  chosen-Holds P failed good hf hg c panic = tt
  chosen-Holds P failed good hf hg c hang = tt

  pub on_ok-Ends :
      {E A B : Type 0} (P : B → Type 0) (call : Run (Cpu F) E A) (failed : Run (Cpu F) ⊥ B)
      (good : A → Run (Cpu F) ⊥ B)
      → Ends P failed
      → ((a : A) → Ends P (good a))
      → Ends P (on_ok call failed good)
  on_ok-Ends P call failed good hf hg = record {
    ends = λ c. chosen-Holds P failed good hf hg (call c).0 (call c).1;
  }

  -- A call that may fail, with the state and the result that it had.
  pub on_ok-Holds :
      {E A B : Type 0} (P : B → Type 0) (call : Run (Cpu F) E A) (failed : Run (Cpu F) ⊥ B)
      (good : A → Run (Cpu F) ⊥ B) (c d : Cpu F) (r : Exit E A)
      → call c ≡ (d, r)
      → ((e : E) → call c ≡ (d, err e) → Holds P (failed d).1)
      → ((a : A) → call c ≡ (d, ok a) → Holds P (good a d).1)
      → Holds P (chosen failed good d r).1
  on_ok-Holds P call failed good c d (ok a) h hf hg = hg a h
  on_ok-Holds P call failed good c d (err e) h hf hg = hf e h
  on_ok-Holds P call failed good c d panic h hf hg = tt
  on_ok-Holds P call failed good c d hang h hf hg = tt

  pub if-Holds :
      {B : Type 0} (P : B → Type 0) (b : Bool) (f g : Run (Cpu F) ⊥ B) (d : Cpu F)
      → (b ≡ false → Holds P (f d).1)
      → (b ≡ true → Holds P (g d).1)
      → Holds P ((if not b then f else g) d).1
  if-Holds P false f g d hf hg = hf refl
  if-Holds P true f g d hf hg = hg refl
