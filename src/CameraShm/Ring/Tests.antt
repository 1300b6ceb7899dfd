-- ===== src/CameraShm/Ring/Tests.antt =====
-- Concrete frames, segments and lanes, and the theorems of the camera ring applied to them.
use xreal_bsp_rgb_tool.Prelude.{
  suc, ◌+◌, ◌%◌, ◌≡◌, refl, true, false, [], ◌++◌, some, arith, ◌⊎◌, if◌then◌else◌, ◌==◌,
}
use xreal_bsp_rgb_tool.Prelude.Int.{pos, negsuc}
use xreal_bsp_rgb_tool.CameraShm.Memory.{Mem, slice}
use xreal_bsp_rgb_tool.CameraShm.Meta.{FrameMeta, write_to, read_from, shm_meta_size}
use xreal_bsp_rgb_tool.CameraShm.Meta.Laws.{InRange, read_from-write_to}
use xreal_bsp_rgb_tool.CameraShm.Ring.{
  create, existing, Shm, Writer, Reader, ReadResult, WriteResult, slot_offset, slot_count,
  store_frame, publish, write_frame, write_sized, read_latest, read_found, read_slot, scan, update,
}
use xreal_bsp_rgb_tool.CameraShm.Ring.Restart.{read_latest_restarted}
use xreal_bsp_rgb_tool.CameraShm.Ring.Frames.{Published, Readable, read_from-store_frame}
use xreal_bsp_rgb_tool.CameraShm.Ring.Writes.{
  Consistent, Accepted, write_frame_cases, write_frame-Consistent, read_latest-write_frame,
}
use xreal_bsp_rgb_tool.CameraShm.Ring.Lane.{
  Lane, Steps, Shows, here, next, finish, half_stored, half_stored-Step, lane, next_base,
  publish-Steps,
}
use xreal_bsp_rgb_tool.CameraShm.Ring.Interleaving.{
  read_latest_intact, read_latest_overwritten, read_latest_torn,
}

abbrev header : FrameMeta
header = record {
  width = pos 4;
  height = pos 2;
  format = pos 0;
  data_size = pos 8;
  bytes_per_line = pos 4;
  encoded_format = negsuc 0;
}

abbrev image : Mem
image = λ i. i + 7

abbrev blank : Shm
blank = record { slot_seqs = λ _ _. 0; buffers = λ _ _. 0 }

abbrev writer : Writer
writer = record { created = true; frame_seq = λ _. 0 }

abbrev reader : Reader
reader = record { attached = false }

header-InRange : InRange header
header-InRange = record {
  width = (ground arith, ground arith);
  height = (ground arith, ground arith);
  format = (ground arith, ground arith);
  data_size = (ground arith, ground arith);
  bytes_per_line = (ground arith, ground arith);
  encoded_format = (ground arith, ground arith);
}

header-Readable : Readable header 8
header-Readable = record {
  header = header-InRange;
  wide = refl;
  high = refl;
  filled = ground arith;
  fits = ground arith;
}

blank-Consistent : Consistent writer blank
blank-Consistent c = record {
  below = λ s b. omega arith;
  own = λ s b z. absurd (omega arith);
  recent = λ i z a b. absurd (omega arith);
}

abbrev first : WriteResult
first = publish writer blank 0 header image 8

first_written : write_frame writer blank (pos 0) header (some image) (pos 8) ≡ some first
unfolding write_frame write_sized
first_written = refl

first_seq : first.seq ≡ 1
unfolding publish
first_seq = refl

read_from-write_to_example : read_from (write_to header (λ _. 9) 64) 64 ≡ header
read_from-write_to_example = read_from-write_to header (λ _. 9) 64 header-InRange

read_latest-write_frame_example :
    read_latest reader true first.shm first.shm first.shm (pos 0) 0 header []
    ≡ some (record {
      reader = record { attached = true };
      found = true;
      last_seq = first.seq;
      meta = header;
      bytes = slice image 0 8;
    })
read_latest-write_frame_example =
    read_latest-write_frame writer blank (pos 0) (pos 8) header image first first_written reader
      true refl 0 header [] blank-Consistent (ground arith) (omega (arith, first_seq))
      header-Readable (omega (arith, first_seq))

write_frame_cases_example :
    (first ≡ record { writer = writer; shm = blank; seq = 0 })
    ⊎ ((img : Mem) × Accepted writer (pos 0) (some image) (pos 8) img
        × (first ≡ publish writer blank 0 header img 8))
write_frame_cases_example =
    write_frame_cases writer blank (pos 0) (pos 8) header (some image) first first_written

write_frame-Consistent_example : Consistent first.writer first.shm
write_frame-Consistent_example =
    write_frame-Consistent writer blank (pos 0) (pos 8) header (some image) first (ground arith)
      blank-Consistent first_written

publish-Steps_example : Steps (lane writer blank 0) (lane first.writer first.shm 0)
publish-Steps_example = publish-Steps writer blank 0 header image 8 (ground arith) (ground arith)

-- A lane that has published its first frame, and what follows.
abbrev shown : Lane
shown = record {
  frame_seq = 1;
  writing = false;
  seqs = λ s. if s == 1 then 1 else 0;
  mem = store_frame header image 8 (λ _. 0) (slot_offset 1);
}

abbrev finished : Lane → Lane
finished l = record l {
  frame_seq = suc l.frame_seq;
  writing = false;
  seqs = update l.seqs (suc l.frame_seq % slot_count) (suc l.frame_seq);
}

abbrev segment : Lane → Shm
segment l = record { slot_seqs = λ _. l.seqs; buffers = λ _. l.mem }

segment-Shows : (l : Lane) → Shows (segment l) 0 l
segment-Shows l = record { seqs = refl; mem = refl }

shown-Published : Published shown.seqs shown.frame_seq
shown-Published = record {
  below = λ s b. ground arith;
  own = λ s b z. ground arith;
  recent = λ i z a b. ground arith;
}

shown_three : Steps shown (finished (finished (finished shown)))
shown_three = next (next (next here (finish refl)) (finish refl)) (finish refl)

-- The frame is copied while three bytes of the next one are stored.
read_latest_intact_example :
    read_latest reader true
      (segment shown)
      (segment (half_stored shown header 8 image 3))
      (segment (half_stored shown header 8 image 3))
      (pos 0)
      0
      header
      []
    ≡ some (record {
      reader = record { attached = true };
      found = true;
      last_seq = 1;
      meta = header;
      bytes = slice shown.mem (slot_offset 1 + shm_meta_size) 8;
    })
unfolding half_stored
read_latest_intact_example =
    read_latest_intact reader true refl 0 0 (omega arith) header [] (segment shown)
      (segment (half_stored shown header 8 image 3)) (segment (half_stored shown header 8 image 3))
      shown (half_stored shown header 8 image 3) (half_stored shown header 8 image 3)
      (segment-Shows shown) (segment-Shows (half_stored shown header 8 image 3))
      (segment-Shows (half_stored shown header 8 image 3))
      (next here (half_stored-Step shown header 8 image 3 (ground arith))) here shown-Published
      (omega arith) header 8 header-Readable
      (read_from-store_frame header image 8 (λ _. 0) (slot_offset 1) header-InRange) (ground arith)

abbrev shown_five : Lane
shown_five = finished (finished (finished (finished shown)))

abbrev missed : ReadResult
missed = record {
  reader = record { attached = true };
  found = false;
  last_seq = 0;
  meta = header;
  bytes = slice shown.mem (slot_offset 1 + shm_meta_size) 8;
}

missed_read :
    read_latest reader true (segment shown) (segment shown) (segment shown_five) (pos 0) 0 header []
    ≡ some missed
unfolding read_latest read_found read_slot scan
missed_read = rw (read_from-store_frame header image 8 (λ _. 0) (slot_offset 1) header-InRange) refl

-- Four frames are published between the copy and the second load.
read_latest_overwritten_example : (missed.found ≡ false) × (missed.last_seq ≡ 0)
read_latest_overwritten_example =
    read_latest_overwritten reader true refl 0 0 (omega arith) header [] (segment shown)
      (segment shown) (segment shown_five) shown shown shown_five (segment-Shows shown)
      (segment-Shows shown) (segment-Shows shown_five) here (next shown_three (finish refl))
      shown-Published (omega arith) missed missed_read (omega arith)

-- The fourth frame behind the one that was found has three of its bytes stored.
read_latest_torn_example :
    read_latest reader true
      (segment shown)
      (segment (half_stored (finished (finished (finished shown))) header 8 image 3))
      (segment (half_stored (finished (finished (finished shown))) header 8 image 3))
      (pos 0)
      0
      header
      []
    ≡ some (record {
      reader = record { attached = true };
      found = true;
      last_seq = 1;
      meta = header;
      bytes =
          slice image 0 3
          ++ slice shown.mem
              (next_base (finished (finished (finished shown))) + shm_meta_size + 3)
              5;
    })
read_latest_torn_example =
    read_latest_torn reader true 0 0 header [] (segment shown)
      (segment (half_stored (finished (finished (finished shown))) header 8 image 3)) shown
      (finished (finished (finished shown))) header 8 3 5 image refl (omega arith) shown-Published
      (omega arith) shown_three refl header-Readable refl (segment-Shows shown)
      (segment-Shows (half_stored (finished (finished (finished shown))) header 8 image 3))

abbrev gone_writer : Writer
gone_writer = record { created = false; frame_seq = λ _. 0 }

abbrev again : WriteResult
again =
    publish (create gone_writer first.shm existing).0.0 (create gone_writer first.shm existing).0.1
      0 header image 8

again_created : (create gone_writer first.shm existing).1 ≡ true
unfolding create
again_created = refl

again_written :
    write_frame
      (create gone_writer first.shm existing).0.0
      (create gone_writer first.shm existing).0.1
      (pos 0)
      header
      (some image)
      (pos 8)
    ≡ some again
unfolding create write_frame write_sized
again_written = refl

-- The device process starts again while a reader remembers frame 7.
read_latest_restarted_example :
    read_latest reader true again.shm again.shm again.shm (pos 0) 7 header []
    ≡ some (record {
      reader = record { attached = true };
      found = false;
      last_seq = 7;
      meta = header;
      bytes = [];
    })
read_latest_restarted_example =
    read_latest_restarted gone_writer first.shm existing (pos 0) (pos 8) header (some image) again
      reader true 7 header [] refl again_created again_written (omega arith)
