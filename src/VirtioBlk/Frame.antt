-- ===== src/VirtioBlk/Frame.antt =====
-- What a request of the virtqueue, src/virtio_blk.rs, leaves as it is.
use risc_v_business.Base.{
  ℕ, zero, suc, ◌+◌, ◌*◌, leb, length, wrapping_add, wrapping_sub, ◌≡◌, refl, ap, ◌∙◌, Bool, true,
  false, if◌then◌else◌, ◌==◌, not, Option, none, some, List, [], ◌∷◌, bit_and, Run, Exit, ok, err,
  panic, hang, ◌>>=◌, proceed,
}
use risc_v_business.VirtioBlk.{Disk, VirtioBlk, desc_f_next, desc_f_write, t_in, t_out}
use risc_v_business.VirtioBlk.Queue.{
  Device, Desc, out_of_ram, last_of, read, write, chain, transfer_in, transfer_out, read_data,
  write_data, seek, perform, serve, request, do_request,
}

module _ {F : Type 0} where
  -- The outcome of code that changed nothing of the device but its file.
  pub record IsFramed {A : Type 0} (d : Device F) (o : Device F × Exit ⊥ A) : Type 0 where
    pub blk_kept : o.0.blk ≡ record d.blk { disk = o.0.blk.disk }

  pub record Keeps {A : Type 0} (f : Run (Device F) ⊥ A) : Type 0 where
    pub kept : (d : Device F) → IsFramed d (f d)

  unchanged :
      {A : Type 0} {d e : Device F} {r : Exit ⊥ A}
      → e.blk ≡ record d.blk { disk = e.blk.disk }
      → IsFramed d (e, r)
  unchanged p = record { blk_kept = p }

  proceed-IsFramed :
      {A B : Type 0} (k : A → Run (Device F) ⊥ B)
      → ((a : A) → Keeps (k a))
      → (d e : Device F) (r : Exit ⊥ A) → IsFramed d (e, r)
      → IsFramed d (proceed k e r)
  proceed-IsFramed k hk d e (ok a) h = record {
    blk_kept =
        ((hk a).kept e).blk_kept
        ∙ ap (λ (b : VirtioBlk F). record b { disk = (k a e).0.blk.disk }) h.blk_kept;
  }
  proceed-IsFramed k hk d e (err x) h = absurd x
  proceed-IsFramed k hk d e panic h = unchanged h.blk_kept
  proceed-IsFramed k hk d e hang h = unchanged h.blk_kept

  pub bind-Keeps :
      {A B : Type 0} {f : Run (Device F) ⊥ A} {k : A → Run (Device F) ⊥ B}
      → Keeps f
      → ((a : A) → Keeps (k a))
      → Keeps (f >>= k)
  bind-Keeps {f = f} {k = k} hf hk = record {
    kept = λ d. proceed-IsFramed k hk d (f d).0 (f d).1 (hf.kept d);
  }

  pub if-Keeps :
      {A : Type 0} (b : Bool) {f g : Run (Device F) ⊥ A}
      → Keeps f
      → Keeps g
      → Keeps (if b then f else g)
  if-Keeps true hf hg = hf
  if-Keeps false hf hg = hg

  if-IsFramed :
      {A : Type 0} (b : Bool) {d : Device F} {x y : Device F × Exit ⊥ A}
      → IsFramed d x
      → IsFramed d y
      → IsFramed d (if b then x else y)
  if-IsFramed true hx hy = hx
  if-IsFramed false hx hy = hy

  elim-IsFramed :
      {A B : Type 0} (o : Option B) {d : Device F} {x : Device F × Exit ⊥ A}
      {y : B → Device F × Exit ⊥ A}
      → IsFramed d x
      → ((f : B) → IsFramed d (y f))
      → IsFramed {A = A} d (elim o [ none ↦ x | some f ↦ y f ])
  elim-IsFramed none hx hy = hx
  elim-IsFramed (some f) hx hy = hy f

  pub return-Keeps : {A : Type 0} (a : A) → Keeps (λ (d : Device F). (d, ok a))
  return-Keeps a = record { kept = λ d. unchanged refl }

  module _ (base : ℕ) where
    pub read-Keeps : (n addr : ℕ) → Keeps (read {F = F} base n addr)
    unfolding read
    read-Keeps n addr = record {
      kept = λ d.
          let o = wrapping_sub addr base in
          if-IsFramed (leb (o + n) (length d.ram)) (unchanged refl) (unchanged refl);
    }

    pub write-Keeps : (n addr v : ℕ) → Keeps (write {F = F} base n addr v)
    unfolding write
    write-Keeps n addr v = record {
      kept = λ d.
          let o = wrapping_sub addr base in
          if-IsFramed (leb (o + n) (length d.ram)) (unchanged refl) (unchanged refl);
    }

    chain-Keeps : (rounds idx : ℕ) → Keeps (chain {F = F} base rounds idx)
    unfolding chain
    chain-Keeps zero idx = record { kept = λ d. unchanged refl }
    chain-Keeps (suc rounds) idx = record {
      kept = λ d.
          let addr = wrapping_add d.blk.desc_addr (idx * 16) in
          (bind-Keeps (read-Keeps 8 addr) λ a.
              bind-Keeps (read-Keeps 4 (wrapping_add addr 8)) λ len.
                bind-Keeps (read-Keeps 2 (wrapping_add addr 12)) λ flags.
                  bind-Keeps (read-Keeps 2 (wrapping_add addr 14)) λ next.
                    if-Keeps (bit_and flags desc_f_next == 0) (return-Keeps _)
                      (bind-Keeps (chain-Keeps rounds next) λ rest. return-Keeps _)).kept
            d;
    }

    module _ (D : Disk F) where
      transfer_in-Keeps : (desc : Desc) → Keeps (transfer_in base D desc)
      unfolding transfer_in
      transfer_in-Keeps desc = record {
        kept = λ d.
            let off = wrapping_sub desc.addr base in
            elim-IsFramed d.blk.disk (unchanged refl) λ f.
              if-IsFramed (out_of_ram base desc d.ram) (unchanged refl) (
                if-IsFramed (leb (off + desc.len) (length d.ram)) (unchanged refl)
                  (unchanged refl));
      }

      transfer_out-Keeps : (desc : Desc) → Keeps (transfer_out base D desc)
      unfolding transfer_out
      transfer_out-Keeps desc = record {
        kept = λ d.
            let off = wrapping_sub desc.addr base in
            elim-IsFramed d.blk.disk (unchanged refl) λ f.
              if-IsFramed (out_of_ram base desc d.ram) (unchanged refl) (
                if-IsFramed (leb (off + desc.len) (length d.ram)) (unchanged refl)
                  (unchanged refl));
      }

      read_data-Keeps : (descs : List Desc) → Keeps (read_data base D descs)
      unfolding read_data
      read_data-Keeps [] = return-Keeps true
      read_data-Keeps (desc ∷ rest) =
          let more = read_data-Keeps rest in
          if-Keeps (bit_and desc.flags desc_f_write == 0) more
            (bind-Keeps (transfer_in-Keeps desc) λ good. if-Keeps good more (return-Keeps false))

      write_data-Keeps : (descs : List Desc) → Keeps (write_data base D descs)
      unfolding write_data
      write_data-Keeps [] = return-Keeps true
      write_data-Keeps (desc ∷ rest) =
          let more = write_data-Keeps rest in
          if-Keeps (not (bit_and desc.flags desc_f_write == 0)) more
            (bind-Keeps (transfer_out-Keeps desc) λ good. if-Keeps good more (return-Keeps false))

      seek-Keeps : (byte_off : ℕ) → Keeps (seek base D byte_off)
      unfolding seek
      seek-Keeps byte_off = record {
        kept = λ d. elim-IsFramed d.blk.disk (unchanged refl) λ f. unchanged refl;
      }

      perform-Keeps :
          (req_type byte_off : ℕ) (descs : List Desc)
          → Keeps (perform base D req_type byte_off descs)
      unfolding perform
      perform-Keeps req_type byte_off descs =
          let sought = seek-Keeps byte_off in
          if-Keeps (req_type == t_in)
            (bind-Keeps sought λ good. if-Keeps good (read_data-Keeps descs) (return-Keeps false))
            (if-Keeps (req_type == t_out)
              (bind-Keeps sought
                λ good. if-Keeps good (write_data-Keeps descs) (return-Keeps false))
              (return-Keeps _))

      served :
          (o : Option F) (run : Run (Device F) ⊥ Bool)
          → Keeps run
          → Keeps (elim o [ none ↦ λ (d : Device F). (d, ok false) | some f ↦ run ])
      served none run h = return-Keeps false
      served (some f) run h = h

      serve-Keeps :
          (header second : Desc) (rest : List Desc) → Keeps (serve base D header second rest)
      unfolding serve
      serve-Keeps header second rest = record {
        kept = λ d.
            (bind-Keeps (read-Keeps 4 header.addr) λ req_type.
                bind-Keeps (read-Keeps 8 (wrapping_add header.addr 8)) λ sector.
                  bind-Keeps (served d.blk.disk _ (perform-Keeps req_type _ _))
                    λ good. write-Keeps 1 (last_of second rest).addr _).kept
              d;
      }

      request-Keeps : (descs : List Desc) → Keeps (request base D descs)
      unfolding request
      request-Keeps [] = return-Keeps tt
      request-Keeps (header ∷ []) = return-Keeps tt
      request-Keeps (header ∷ second ∷ rest) = serve-Keeps header second rest

      -- A request leaves the registers of the device alone, the index into the driver's ring too.
      pub do_request-Keeps : (head : ℕ) → Keeps (do_request base D head)
      unfolding do_request
      do_request-Keeps head = bind-Keeps (chain-Keeps 16 head) request-Keeps
