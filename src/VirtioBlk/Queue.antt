-- ===== src/VirtioBlk/Queue.antt =====
-- The virtqueue of src/virtio_blk.rs: `process_queue`, `do_request` and the RAM helpers. The state
-- is the device and the RAM, which the source borrows together.
use risc_v_business.Base.{
  ℕ, zero, suc, ◌+◌, ◌*◌, ◌%◌, ◌^◌, Bool, true, false, not, ◌||◌, ltb, leb, ◌==◌, if◌then◌else◌,
  none, some, List, [], ◌∷◌, length, bit_and, u16, u32, wrapping_add, wrapping_sub, Run, ok, panic,
  hang, ◌>>=◌, ◌>>◌, return,
}
use risc_v_business.Ram.{read_le, write_le, read_bytes, write_bytes}
use risc_v_business.VirtioBlk.{
  Disk, VirtioBlk, queue_size, sector_size, desc_f_next, desc_f_write, t_in, t_out, t_flush, s_ok,
  s_ioerr,
}

pub record Device (F : Type 0) : Type 0 where
  pub blk : VirtioBlk F
  pub ram : List ℕ

pub record Desc : Type 0 where
  pub addr : ℕ
  pub len : ℕ
  pub flags : ℕ

-- The bounds test that both transfers make; the subtraction of the length wraps.
abbrev pub out_of_ram : ℕ → Desc → List ℕ → Bool
out_of_ram ram_base desc ram =
    ltb desc.addr ram_base
    || ltb (wrapping_sub (length ram) desc.len) (wrapping_sub desc.addr ram_base)

-- `descs[1..descs.len() - 1]` and `descs[descs.len() - 1]`, of the descriptors behind the first.
abbrev pub but_last : List Desc → List Desc
but_last [] = []
but_last (x ∷ []) = []
but_last (x ∷ y ∷ rest) = x ∷ but_last (y ∷ rest)

abbrev pub last_of : Desc → List Desc → Desc
last_of x [] = x
last_of x (y ∷ rest) = last_of y rest

module _ {F : Type 0} (ram_base : ℕ) where
  -- `r16`, `r32`, `r64`: `n` bytes at a guest address; out of RAM the slice panics.
  unfoldable pub read : ℕ → ℕ → Run (Device F) ⊥ ℕ
  read n addr d =
      let o = wrapping_sub addr ram_base in
      if leb (o + n) (length d.ram) then (d, ok (read_le d.ram o n)) else (d, panic)

  -- `w8`, `w16`, `w32`.
  unfoldable pub write : ℕ → ℕ → ℕ → Run (Device F) ⊥ (Unit {0})
  write n addr v d =
      let o = wrapping_sub addr ram_base in
      if leb (o + n) (length d.ram)
      then (record d { ram = write_le d.ram o n v }, ok tt)
      else (d, panic)

  -- The descriptor chain from `idx` on, of at most `rounds` descriptors.
  unfoldable pub chain : ℕ → ℕ → Run (Device F) ⊥ (List Desc)
  chain zero idx d = (d, ok [])
  chain (suc rounds) idx d =
      let base = wrapping_add d.blk.desc_addr (idx * 16) in
      (do
        addr ← read 8 base
        len ← read 4 (wrapping_add base 8)
        flags ← read 2 (wrapping_add base 12)
        next ← read 2 (wrapping_add base 14)
        let desc : Desc = record { addr = addr; len = len; flags = flags }
        let more = chain rounds next >>= λ rest. return (desc ∷ rest)
        if bit_and flags desc_f_next == 0 then return (desc ∷ []) else more)
        d

  module _ (D : Disk F) where
    -- One data descriptor of a read: the file fills a slice of RAM.
    unfoldable pub transfer_in : Desc → Run (Device F) ⊥ Bool
    transfer_in desc d = elim d.blk.disk [
      | none ↦ (d, panic)
      | some f ↦
          let off = wrapping_sub desc.addr ram_base in
          let (f', bytes, good) = D.read_exact f (read_bytes d.ram off desc.len) in
          let filled : Device F = record {
            blk = record d.blk { disk = some f' };
            ram = write_bytes d.ram off bytes;
          } in
          if out_of_ram ram_base desc d.ram
          then (d, ok false)
          else if leb (off + desc.len) (length d.ram)
          then (filled, ok good)
          else (d, panic)
    ]

    -- One data descriptor of a write.
    unfoldable pub transfer_out : Desc → Run (Device F) ⊥ Bool
    transfer_out desc d = elim d.blk.disk [
      | none ↦ (d, panic)
      | some f ↦
          let off = wrapping_sub desc.addr ram_base in
          let (f', good) = D.write_all f (read_bytes d.ram off desc.len) in
          let written : Device F = record d { blk = record d.blk { disk = some f' } } in
          if out_of_ram ram_base desc d.ram
          then (d, ok false)
          else if leb (off + desc.len) (length d.ram)
          then (written, ok good)
          else (d, panic)
    ]

    -- The loop of T_IN over the descriptors that the device may write.
    unfoldable pub read_data : List Desc → Run (Device F) ⊥ Bool
    read_data [] = return true
    read_data (desc ∷ rest) =
        let more = read_data rest in
        if bit_and desc.flags desc_f_write == 0
        then more
        else transfer_in desc >>= λ good. if good then more else return false

    -- The loop of T_OUT over the descriptors that the device may read.
    unfoldable pub write_data : List Desc → Run (Device F) ⊥ Bool
    write_data [] = return true
    write_data (desc ∷ rest) =
        let more = write_data rest in
        if not (bit_and desc.flags desc_f_write == 0)
        then more
        else transfer_out desc >>= λ good. if good then more else return false

    -- `disk.seek(SeekFrom::Start(..))`: whether it succeeded.
    unfoldable pub seek : ℕ → Run (Device F) ⊥ Bool
    seek byte_off d = elim d.blk.disk [
      | none ↦ (d, panic)
      | some f ↦
          let (f', good) = D.seek f byte_off in
          (record d { blk = record d.blk { disk = some f' } }, ok good)
    ]

    -- `match req_type`.
    unfoldable pub perform : ℕ → ℕ → List Desc → Run (Device F) ⊥ Bool
    perform req_type byte_off descs =
        if req_type == t_in
        then (seek byte_off >>= λ good. if good then read_data descs else return false)
        else if req_type == t_out
        then (seek byte_off >>= λ good. if good then write_data descs else return false)
        else return (req_type == t_flush)

    -- A request with its header descriptor and at least one more.
    unfoldable pub serve : Desc → Desc → List Desc → Run (Device F) ⊥ (Unit {0})
    serve header second rest d =
        let status_addr = (last_of second rest).addr in
        (do
          req_type ← read 4 header.addr
          sector ← read 8 (wrapping_add header.addr 8)
          good ← elim d.blk.disk [
            | none ↦ return false
            | some f ↦ perform req_type (sector * sector_size % 2 ^ 64) (but_last (second ∷ rest))
          ]
          write 1 status_addr (if good then s_ok else s_ioerr))
          d

    -- Chains of fewer than two descriptors are dropped.
    unfoldable pub request : List Desc → Run (Device F) ⊥ (Unit {0})
    request [] = return tt
    request (header ∷ []) = return tt
    request (header ∷ second ∷ rest) = serve header second rest

    unfoldable pub do_request : ℕ → Run (Device F) ⊥ (Unit {0})
    do_request head = chain 16 head >>= request

    -- The end of a round: the entry counts as seen, and the device has something to report.
    unfoldable pub finish : Run (Device F) ⊥ (Unit {0})
    finish d = (
      record d {
        blk = record d.blk { last_avail_idx = u16 (d.blk.last_avail_idx + 1); irq_status = 1 };
      },
      ok tt,
    )

    -- A round of `process_queue`, for the next entry of the driver's ring.
    unfoldable pub entry : Run (Device F) ⊥ (Unit {0})
    entry d =
        let blk = d.blk in
        let slot = blk.last_avail_idx % queue_size in
        (do
          head ← read 2 (wrapping_add (wrapping_add blk.avail_addr 4) (slot * 2))
          do_request head
          used_idx ← read 2 (wrapping_add blk.used_addr 2)
          let elem_addr = wrapping_add (wrapping_add blk.used_addr 4) (used_idx % queue_size * 8)
          write 4 elem_addr (u32 head)
          write 4 (wrapping_add elem_addr 4) 0
          write 2 (wrapping_add blk.used_addr 2) (u16 (used_idx + 1))
          finish)
          d

    -- The loop of `process_queue`, for at most `rounds` rounds.
    unfoldable pub drain : ℕ → Run (Device F) ⊥ (Unit {0})
    drain zero d = (d, hang)
    drain (suc rounds) d =
        let more = drain rounds in
        (read 2 (wrapping_add d.blk.avail_addr 2) >>= λ avail_idx.
        if d.blk.last_avail_idx == avail_idx then return tt else entry >> more)
          d

    unfoldable pub process_queue : ℕ → Run (Device F) ⊥ (Unit {0})
    process_queue rounds d =
        if d.blk.queue_ready == 0 || d.blk.avail_addr == 0 || d.blk.desc_addr == 0
        then (d, ok tt)
        else drain rounds d
