-- ===== src/CameraShm/Ring/Frames.antt =====
-- What a published frame means for a reader.
use xreal_bsp_rgb_tool.Prelude.{
  ℕ, ◌+◌, ◌%◌, ◌≤◌, ◌<◌, ◌≡◌, ◌≢◌, ◌∙◌, Bool, true, List, none, some, arith, ◌||◌, ◌==◌,
  if◌then◌else◌,
}
use xreal_bsp_rgb_tool.Prelude.Int.{pos, positive}
use xreal_bsp_rgb_tool.CameraShm.Memory.{Mem, slice, slice-copy}
use xreal_bsp_rgb_tool.CameraShm.Meta.{FrameMeta, shm_meta_size, write_to, read_from}
use xreal_bsp_rgb_tool.CameraShm.Meta.Laws.{InRange, read_from-write_to, read_from_cong}
use xreal_bsp_rgb_tool.CameraShm.Ring.{
  Shm, Reader, slot_count, slot_size, slot_offset, camera_count, store_frame, scan, read_latest,
}

-- The numbers in the slots of one camera whose writer has reached `n`.
pub record Published (seqs : ℕ → ℕ) (n : ℕ) : Type 0 where
  pub below : (s : ℕ) → s < slot_count → seqs s ≤ n
  pub own : (s : ℕ) → s < slot_count → 0 < seqs s → seqs s % slot_count ≡ s
  pub recent : (i : ℕ) → 0 < i → i ≤ n → n < i + slot_count → seqs (i % slot_count) ≡ i

-- The scan finds the newest frame.
pub scan_newest :
    (seqs : ℕ → ℕ) (n k last : ℕ)
    → k < slot_count
    → seqs k ≡ n
    → ((s : ℕ) → s < slot_count → s ≢ k → seqs s < n)
    → last < n
    → scan seqs slot_count 0 last none ≡ (n, some k)
unfolding scan
scan_newest seqs n k last hk hn hs hl = ground (arith, hs 0, hs 1, hs 2, hs 3)

pub read_from-store_frame :
    (meta : FrameMeta) (src : Mem) (n : ℕ) (m : Mem) (base : ℕ)
    → InRange (record meta { data_size = pos n })
    → read_from (store_frame meta src n m base) base ≡ record meta { data_size = pos n }
unfolding store_frame
read_from-store_frame meta src n m base r =
    read_from_cong _ (write_to (record meta { data_size = pos n }) m base) base
      (λ i p q. ground arith)
    ∙ read_from-write_to (record meta { data_size = pos n }) m base r

pub slice-store_frame :
    (meta : FrameMeta) (src : Mem) (n : ℕ) (m : Mem) (base : ℕ)
    → slice (store_frame meta src n m base) (base + shm_meta_size) n ≡ slice src 0 n
unfolding store_frame
slice-store_frame meta src n m base = slice-copy _ src (base + shm_meta_size) n

-- What a frame needs to be readable: a positive size, a header of 32-bit numbers, and room.
pub record Readable (meta : FrameMeta) (n : ℕ) : Type 0 where
  pub header : InRange (record meta { data_size = pos n })
  pub wide : positive meta.width ≡ true
  pub high : positive meta.height ≡ true
  pub filled : 0 < n
  pub fits : shm_meta_size + n ≤ slot_size

-- A reader that finds slot `k` newest, and in it a readable frame, returns that frame.
pub read_latest-newest :
    (reader : Reader) (attaches : Bool) (m during after : Shm) (cam n k last size : ℕ)
    (meta meta0 : FrameMeta) (bytes0 : List ℕ)
    → (reader.attached || attaches) ≡ true
    → cam < camera_count
    → scan (m.slot_seqs cam) slot_count 0 last none ≡ (n, some k)
    → Readable meta size
    → read_from (during.buffers cam) (slot_offset k) ≡ record meta { data_size = pos size }
    → read_latest reader attaches m during after (pos cam) last meta0 bytes0
      ≡ some (record {
        reader = record { attached = true };
        found = after.slot_seqs cam k == n;
        last_seq = if after.slot_seqs cam k == n then n else last;
        meta = record meta { data_size = pos size };
        bytes = slice (during.buffers cam) (slot_offset k + shm_meta_size) size;
      })
unfolding read_latest
read_latest-newest reader attaches m during after cam n k last size meta meta0 bytes0 ha hc hs hr
      hm =
    ground arith

pub scan-Published :
    (seqs : ℕ → ℕ) (n last : ℕ)
    → Published seqs n
    → last < n
    → scan seqs slot_count 0 last none ≡ (n, some (n % slot_count))
scan-Published seqs n last p h =
    scan_newest seqs n (n % slot_count) last (omega arith)
      (p.recent n (omega arith) (omega arith) (omega arith)) other h
  where
    other : (s : ℕ) → s < slot_count → s ≢ n % slot_count → seqs s < n
    other s q ne = ground (arith, p.below s q, p.own s q)

-- With nothing newer than `last` the scan finds no slot.
pub scan_stale :
    (seqs : ℕ → ℕ) (n last : ℕ)
    → Published seqs n
    → n ≤ last
    → scan seqs slot_count 0 last none ≡ (last, none)
unfolding scan
scan_stale seqs n last p h = ground (arith, p.below 0, p.below 1, p.below 2, p.below 3)
