-- ===== src/Dtb/Recorder.antt =====
-- A writer that records the calls of src/dtb.rs, and how the record is read.
use Prim.Native.String.{String}
use text.Mathlib.Text.{◌==◌ as str_eq}
use risc_v_business.Base.{
  ℕ, suc, ◌+◌, ◌-◌, ◌*◌, ◌/◌, ◌%◌, ◌^◌, Bool, false, ◌&&◌, ltb, leb, ◌==◌, if◌then◌else◌, List, [],
  ◌∷◌, Option, none, some, Run, Exit, ok, err,
}
use risc_v_business.Dtb.{FdtWriter, root}

pub data Call : Type 0 where
  begin_node : String → Call
  end_node : Call
  property : String → List ℕ → Call
  string : String → String → Call

pub data Failure : Type 0 where
  -- A node that is not the innermost open one is closed.
  misnested : Failure

-- The calls so far, the last one first, and the number of open nodes, which is the handle of the
-- innermost one.
pub record Tape : Type 0 where
  pub calls : List Call
  pub depth : ℕ

abbrev put : Call → Tape → Tape × Exit Failure (Unit {0})
put call t = (record t { calls = call ∷ t.calls }, ok tt)

abbrev close : ℕ → Run Tape Failure (Unit {0})
close h t =
    if h == t.depth
    then (record { calls = end_node ∷ t.calls; depth = t.depth - 1 }, ok tt)
    else (t, err misnested)

abbrev pub recorder : FdtWriter Tape Failure ℕ
recorder = record {
  new = ok (record { calls = []; depth = 0 });
  begin_node = λ name t.
      (record { calls = begin_node name ∷ t.calls; depth = suc t.depth }, ok (suc t.depth));
  end_node = close;
  property_u32 = λ name n. put (property name (n ∷ []));
  property_u64 = λ name n. put (property name (n / 2 ^ 32 ∷ n % 2 ^ 32 ∷ []));
  property_string = λ name s. put (string name s);
  property_array_u32 = λ name ns. put (property name ns);
  property_null = λ name. put (property name []);
  property_phandle = λ n. put (property "phandle" (n ∷ []));
  finish = λ t. if t.depth == 0 then ok [] else err misnested;
}

-- The cells of a property of a node, in the calls in their order backwards: the last such property
-- before which, in the order of the calls, no other node began or ended than the node itself.
unfoldable pub cells_of : (node name : String) → Option (List ℕ) → List Call → Option (List ℕ)
cells_of node name seen [] = none
cells_of node name seen (begin_node n ∷ calls) =
    let rest = cells_of node name none calls in if str_eq n node then seen else rest
cells_of node name seen (end_node ∷ calls) = cells_of node name none calls
cells_of node name seen (property p cells ∷ calls) =
    let here = cells_of node name (some cells) calls in
    let on = cells_of node name seen calls in if str_eq p name then here else on
cells_of node name seen (string p s ∷ calls) = cells_of node name seen calls

abbrev pub tree : (initrd_size : ℕ) (has_disk : Bool) → List Call
tree initrd_size has_disk =
    (root recorder initrd_size has_disk (record { calls = []; depth = 0 })).0.calls

-- The addresses of a `reg` property of two cells for the address and two for the size.
unfoldable pub in_window : Option (List ℕ) → ℕ → Bool
in_window (some (hi ∷ lo ∷ size_hi ∷ size_lo ∷ [])) addr =
    let start = hi * 2 ^ 32 + lo in
    leb start addr && ltb addr (start + (size_hi * 2 ^ 32 + size_lo))
in_window _ addr = false

-- Is the address in the `reg` window of the node?
abbrev pub covers : List Call → String → ℕ → Bool
covers calls node addr = in_window (cells_of node "reg" none calls) addr

abbrev pub cells : List Call → (node name : String) → Option (List ℕ)
cells calls node name = cells_of node name none calls
