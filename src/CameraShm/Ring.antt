-- ===== src/CameraShm/Ring.antt =====
-- CameraSharedMemoryWriter and CameraSharedMemoryReader. The shared segment holds, for each camera,
-- a sequence number for each slot and the bytes of the slots. A call that overflows an `int` has no
-- result (`none`): that is undefined behaviour in C++.
pub mod Frames
pub mod Writes
pub mod Lane
pub mod Interleaving
pub mod Restart
mod Tests
use xreal_bsp_rgb_tool.Prelude.{
  ℕ, zero, suc, ◌+◌, ◌*◌, ◌%◌, ◌^◌, Bool, true, false, not, ◌||◌, List, Option, none, some, ltb,
  leb, ◌==◌, if◌then◌else◌,
}
use xreal_bsp_rgb_tool.Prelude.Int.{ℤ, pos, negsuc, pos_part, ltb_ℤ, leb_ℤ, positive}
use xreal_bsp_rgb_tool.CameraShm.Memory.{Mem, copy, slice}
use xreal_bsp_rgb_tool.CameraShm.Meta.{FrameMeta, shm_meta_size, write_to, read_from}

-- `kCameraCount`, `kCameraShmSlotCount`, `kCameraShmSlotSize`.
abbrev pub camera_count : ℕ
camera_count = 2

abbrev pub slot_count : ℕ
slot_count = 4

abbrev pub slot_size : ℕ
slot_size = 2 * 1024 * 1024

pub record Shm : Type 0 where
  pub slot_seqs : ℕ → ℕ → ℕ  -- by camera and slot
  pub buffers : ℕ → Mem  -- by camera

pub record Writer : Type 0 where
  pub created : Bool
  pub frame_seq : ℕ → ℕ  -- by camera

pub record Reader : Type 0 where
  pub attached : Bool

abbrev pub update {ℓ} : {A : Type ℓ} → (ℕ → A) → ℕ → A → ℕ → A
update f k v = λ i. if i == k then v else f i

-- What QSharedMemory answers: a new segment, an existing one that was attached, or a failure.
pub data Segment : Type 0 where
  fresh existing failed : Segment

-- CameraSharedMemoryWriter::create
pub create : Writer → Shm → Segment → (Writer × Shm) × Bool
create w m failed = ((w, m), w.created)
create w m _ = if w.created then ((w, m), true) else (
  (
    record { created = true; frame_seq = λ _. 0 },
    record { slot_seqs = λ _ _. 0; buffers = λ _ _. 0 },
  ),
  true,
)

-- CameraSharedMemoryWriter::destroy
pub destroy : Writer → Writer
destroy w = record { created = false; frame_seq = λ _. 0 }

pub slot_offset : ℕ → ℕ
slot_offset s = s * slot_size

-- The bytes that writeFrame puts into a slot: the header with the true size, then the image.
pub store_frame : FrameMeta → Mem → ℕ → Mem → ℕ → Mem
store_frame meta src n m base =
    copy (write_to (record meta { data_size = pos n }) m base) (base + shm_meta_size) src n

-- The new state and the returned sequence number; 0 reports a refusal.
pub record WriteResult : Type 0 where
  pub writer : Writer
  pub shm : Shm
  pub seq : ℕ

-- The part of writeFrame behind its guards.
pub publish : Writer → Shm → ℕ → FrameMeta → Mem → ℕ → WriteResult
publish w m cam meta src n =
    let new_seq = (w.frame_seq cam + 1) % 2 ^ 64 in
    let slot = new_seq % slot_count in
    record {
      writer = record w { frame_seq = update w.frame_seq cam new_seq };
      shm = record {
        slot_seqs = update m.slot_seqs cam (update (m.slot_seqs cam) slot new_seq);
        buffers = update m.buffers cam (store_frame meta src n (m.buffers cam) (slot_offset slot));
      };
      seq = new_seq;
    }

abbrev refused : Writer → Shm → WriteResult
refused w m = record { writer = w; shm = m; seq = 0 }

-- The size guards: `totalSize` is an `int`.
write_sized : Writer → Shm → ℕ → FrameMeta → Mem → ℕ → Option WriteResult
write_sized w m cam meta src n =
    if leb (2 ^ 31) (shm_meta_size + n)
    then none
    else if ltb slot_size (shm_meta_size + n)
    then some (refused w m)
    else some (publish w m cam meta src n)

-- CameraSharedMemoryWriter::writeFrame; `src` is the image, or none for a null pointer.
pub write_frame : Writer → Shm → ℤ → FrameMeta → Option Mem → ℤ → Option WriteResult
unfolding write_sized
write_frame w m cam meta none size = some (refused w m)
write_frame w m cam meta (some src) size =
    if not w.created || ltb_ℤ cam (pos 0) || leb_ℤ (pos camera_count) cam
    then some (refused w m)
    else if not (positive size)
    then some (refused w m)
    else write_sized w m (pos_part cam) meta src (pos_part size)

-- The loop of readLatestFrame over the slots that are left: the newest number above `latest`.
pub scan : (ℕ → ℕ) → ℕ → ℕ → ℕ → Option ℕ → ℕ × Option ℕ
scan seqs zero s latest idx = (latest, idx)
scan seqs (suc k) s latest idx =
    let newer = ltb latest (seqs s) in
    scan seqs k (s + 1) (if newer then seqs s else latest) (if newer then some s else idx)

-- The out parameters of readLatestFrame and its result.
pub record ReadResult : Type 0 where
  pub reader : Reader
  pub found : Bool
  pub last_seq : ℕ
  pub meta : FrameMeta
  pub bytes : List ℕ

-- The part of readLatestFrame behind the scan. The image is copied from `during`, and the number of
-- the slot is loaded again from `after`.
read_slot : ReadResult → ℕ → Shm → Shm → ℕ → ℕ → Option ReadResult
read_slot r cam during after latest slot =
    let base = slot_offset slot in
    let meta = read_from (during.buffers cam) base in
    let r1 = record r { meta = meta } in
    if not (positive meta.width) || not (positive meta.height) || not (positive meta.data_size)
    then some r1
    else if leb (2 ^ 31) (shm_meta_size + pos_part meta.data_size)
    then none
    else if ltb slot_size (shm_meta_size + pos_part meta.data_size)
    then some r1
    else let bytes = slice (during.buffers cam) (base + shm_meta_size) (pos_part meta.data_size) in
      let r2 = record r1 { bytes = bytes } in
      if after.slot_seqs cam slot == latest
      then some (record r2 { found = true; last_seq = latest })
      else some r2

read_found : ReadResult → ℕ → Shm → Shm → ℕ × Option ℕ → Option ReadResult
unfolding read_slot
read_found r cam during after (latest, none) = some r
read_found r cam during after (latest, some slot) = read_slot r cam during after latest slot

-- CameraSharedMemoryReader::readLatestFrame. `attaches` is the answer of QSharedMemory::attach, and
-- the three segments are what the scan, the copy and the last load see: the writer may run between.
pub read_latest : Reader → Bool → Shm → Shm → Shm → ℤ → ℕ → FrameMeta → List ℕ → Option ReadResult
unfolding read_found
read_latest reader attaches before during after cam last meta bytes =
    let r : ReadResult = record {
      reader = record { attached = reader.attached || attaches };
      found = false;
      last_seq = last;
      meta = meta;
      bytes = bytes;
    } in
    if not (reader.attached || attaches)
    then some r
    else if ltb_ℤ cam (pos 0) || leb_ℤ (pos camera_count) cam
    then some r
    else read_found r (pos_part cam) during after
        (scan (before.slot_seqs (pos_part cam)) slot_count 0 last none)
