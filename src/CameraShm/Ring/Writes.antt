-- ===== src/CameraShm/Ring/Writes.antt =====
-- The writer against its readers, one call after another.
use xreal_bsp_rgb_tool.Prelude.{
  ℕ, ◌+◌, ◌%◌, ◌≤◌, ◌<◌, ◌^◌, ◌≡◌, Bool, true, false, List, Option, none, some, arith, ◌||◌, ◌&&◌,
  ltb, leb, ◌⊎◌, inl, inr, Bool-cases, ==_iff, ◌∙◌,
}
use xreal_bsp_rgb_tool.Prelude.Int.{ℤ, pos, negsuc, pos_part}
use xreal_bsp_rgb_tool.CameraShm.Memory.{Mem, slice}
use xreal_bsp_rgb_tool.CameraShm.Meta.{FrameMeta, shm_meta_size}
use xreal_bsp_rgb_tool.CameraShm.Ring.{
  Shm, Writer, Reader, WriteResult, Segment, slot_count, slot_size, slot_offset, camera_count,
  store_frame, publish, write_frame, read_latest, create,
}
use xreal_bsp_rgb_tool.CameraShm.Ring.Frames.{
  Published, Readable, scan-Published, scan_stale, read_latest-newest, read_from-store_frame,
  slice-store_frame,
}

-- Every camera's slots agree with the writer's counter.
abbrev pub Consistent : Writer → Shm → Type 0
Consistent w m = (cam : ℕ) → Published (m.slot_seqs cam) (w.frame_seq cam)

publish-Published :
    (w : Writer) (m : Shm) (cam : ℕ) (meta : FrameMeta) (src : Mem) (n c : ℕ)
    → w.frame_seq cam + 1 < 2 ^ 64
    → Published (m.slot_seqs cam) (w.frame_seq cam)
    → Published (m.slot_seqs c) (w.frame_seq c)
    → Published
        ((publish w m cam meta src n).shm.slot_seqs c)
        ((publish w m cam meta src n).writer.frame_seq c)
unfolding publish
publish-Published w m cam meta src n c h p q = record {
  below = λ s b. ground (arith, p.below s, q.below s);
  own = λ s b z. ground (arith, p.own s, q.own s);
  recent = λ i z a b. ground (arith, p.recent i, q.recent i);
}

-- The frames that writeFrame takes.
pub record Accepted (w : Writer) (cam : ℤ) (src : Option Mem) (size : ℤ) (img : Mem) : Type 0 where
  pub created : w.created ≡ true
  pub camera : cam ≡ pos (pos_part cam)
  pub known : pos_part cam < camera_count
  pub image : src ≡ some img
  pub sized : size ≡ pos (pos_part size)
  pub filled : 0 < pos_part size
  pub fits : shm_meta_size + pos_part size ≤ slot_size

-- A call of writeFrame that returns has refused the frame with 0 and changed nothing, or it published
-- the image and the frame passes every guard: created, a known camera, a positive size, room in a slot.
pub write_frame_cases :
    (w : Writer) (m : Shm) (cam size : ℤ) (meta : FrameMeta) (src : Option Mem) (r : WriteResult)
    → write_frame w m cam meta src size ≡ some r
    → (r ≡ record { writer = w; shm = m; seq = 0 })
      ⊎ ((img : Mem) × Accepted w cam src size img
          × (r ≡ publish w m (pos_part cam) meta img (pos_part size)))
unfolding write_frame
write_frame_cases w m cam size meta none r e = inl (ground arith)
write_frame_cases w m (negsuc cam) size meta (some img) r e = inl (ground arith)
write_frame_cases w m (pos cam) (negsuc size) meta (some img) r e = inl (ground arith)
write_frame_cases w m (pos cam) (pos size) meta (some img) r e = elim (Bool-cases (fine)) [
  | inl h ↦ inr (img, ground arith, ground arith)
  | inr h ↦ inl (ground arith)
]
  where
    fine : Bool
    fine = w.created && ltb cam camera_count && ltb 0 size && leb (shm_meta_size + size) slot_size

-- An accepted frame is published.
pub write_frame-Accepted :
    (w : Writer) (m : Shm) (cam size : ℤ) (meta : FrameMeta) (src : Option Mem) (img : Mem)
    → Accepted w cam src size img
    → write_frame w m cam meta src size ≡ some (publish w m (pos_part cam) meta img (pos_part size))
unfolding write_frame
write_frame-Accepted w m cam size meta none img a = cc (a.image)
write_frame-Accepted w m cam size meta (some src) img a = ground arith

-- Every call of writeFrame that returns, refused or not, keeps the slots in agreement with the counters,
-- if the camera's counter does not wrap.
pub write_frame-Consistent :
    (w : Writer) (m : Shm) (cam size : ℤ) (meta : FrameMeta) (src : Option Mem) (r : WriteResult)
    → w.frame_seq (pos_part cam) + 1 < 2 ^ 64
    → Consistent w m
    → write_frame w m cam meta src size ≡ some r
    → Consistent r.writer r.shm
write_frame-Consistent w m cam size meta src r h p e c =
    elim (write_frame_cases w m cam size meta src r e) [
      | inl same ↦ rw same (p c)
      | inr (img, a, new) ↦ rw new (
          publish-Published w m (pos_part cam) meta img (pos_part size) c h (p (pos_part cam))
            (p c))
    ]

created-Consistent :
    (w : Writer) (m : Shm)
    → (w.created ≡ true → Consistent w m)
    → Consistent (create w m Segment.fresh).0.0 (create w m Segment.fresh).0.1
unfolding create
created-Consistent w m h c = elim (Bool-cases w.created) [
  | inl old ↦ rw old (h old c)
  | inr new ↦ rw new (record {
    below = λ s b. omega arith;
    own = λ s b z. omega arith;
    recent = λ i z a b. absurd (omega arith);
  })
]

-- A fresh segment is consistent, whatever stood in it before.
pub create-Consistent :
    (w : Writer) (m : Shm) (answer : Segment)
    → (w.created ≡ true → Consistent w m)
    → (create w m answer).1 ≡ true
    → Consistent (create w m answer).0.0 (create w m answer).0.1
unfolding create
create-Consistent w m Segment.failed h e c = h e c
create-Consistent w m Segment.fresh h e c = created-Consistent w m h c
create-Consistent w m Segment.existing h e c = created-Consistent w m h c

publish-mem :
    (w : Writer) (m : Shm) (cam : ℕ) (meta : FrameMeta) (src : Mem) (n : ℕ)
    → w.frame_seq cam + 1 < 2 ^ 64
    → let q = publish w m cam meta src n in
      (q.seq ≡ w.frame_seq cam + 1)
      × (q.writer.frame_seq cam ≡ q.seq)
      × (q.shm.buffers cam
          ≡ store_frame meta src n (m.buffers cam) (slot_offset (q.seq % slot_count)))
unfolding publish
publish-mem w m cam meta src n h = (ground arith, ground arith, ground arith)

-- A frame that was just published is read back.
publish_read :
    (w : Writer) (m : Shm) (cam : ℕ) (meta : FrameMeta) (src : Mem) (n : ℕ) (reader : Reader)
    (attaches : Bool) (last : ℕ) (meta0 : FrameMeta) (bytes0 : List ℕ)
    → (reader.attached || attaches) ≡ true
    → cam < camera_count
    → w.frame_seq cam + 1 < 2 ^ 64
    → Published (m.slot_seqs cam) (w.frame_seq cam)
    → Readable meta n
    → last ≤ w.frame_seq cam
    → let q = publish w m cam meta src n in
      read_latest reader attaches q.shm q.shm q.shm (pos cam) last meta0 bytes0
      ≡ some (record {
        reader = record { attached = true };
        found = true;
        last_seq = q.seq;
        meta = record meta { data_size = pos n };
        bytes = slice src 0 n;
      })
publish_read w m cam meta src n reader attaches last meta0 bytes0 ha hc hw hp hr hl =
    read_latest-newest reader attaches q.shm q.shm q.shm cam q.seq (q.seq % slot_count) last n meta
      meta0 bytes0 ha hc (scan-Published _ q.seq last now (omega (arith, facts.0))) hr
      (rw facts.2 (read_from-store_frame meta src n _ _ hr.header))
    ∙ rw (
      (==_iff _ _).1 (now.recent q.seq (omega (arith, facts.0)) (omega arith) (omega arith)),
      facts.2,
      slice-store_frame meta src n (m.buffers cam) (slot_offset (q.seq % slot_count)),
    )
  where
    q : WriteResult
    q = publish w m cam meta src n

    facts :
        (q.seq ≡ w.frame_seq cam + 1)
        × (q.writer.frame_seq cam ≡ q.seq)
        × (q.shm.buffers cam
            ≡ store_frame meta src n (m.buffers cam) (slot_offset (q.seq % slot_count)))
    facts = publish-mem w m cam meta src n hw

    now : Published (q.shm.slot_seqs cam) q.seq
    now = rw facts.1 at (publish-Published w m cam meta src n cam hw hp hp)

module _ (w : Writer) (m : Shm) (cam size : ℤ) (meta : FrameMeta) (src : Mem) (r : WriteResult)
    (published : write_frame w m cam meta (some src) size ≡ some r) (reader : Reader)
    (attaches : Bool) (here : (reader.attached || attaches) ≡ true) (last : ℕ) (meta0 : FrameMeta)
    (bytes0 : List ℕ) where
  -- Slots and counters agree and the counter does not wrap, writeFrame has returned a number above 0 for
  -- a readable frame, and the reader, attached or attaching, has seen less: then the next read returns
  -- that frame, its header with the true size, its image and its number.
  pub read_latest-write_frame :
      Consistent w m
      → w.frame_seq (pos_part cam) + 1 < 2 ^ 64
      → 0 < r.seq
      → Readable meta (pos_part size)
      → last < r.seq
      → read_latest reader attaches r.shm r.shm r.shm cam last meta0 bytes0
        ≡ some (record {
          reader = record { attached = true };
          found = true;
          last_seq = r.seq;
          meta = record meta { data_size = size };
          bytes = slice src 0 (pos_part size);
        })
  read_latest-write_frame c h z g l =
      elim (write_frame_cases w m cam size meta (some src) r published) [
        | inl same ↦ absurd (ground arith)
        | inr (img, a, new) ↦ ground (
          arith,
          publish-mem w m (pos_part cam) meta src (pos_part size),
          publish_read w m (pos_part cam) meta src (pos_part size) reader attaches last meta0 bytes0
              here a.known h (c (pos_part cam)) g,
        )
      ]

-- If slots and counters agree, a reader that has seen the camera's newest frame finds nothing, and its
-- last number, header and data stay as they were.
pub read_latest_stale :
    (w : Writer) (m during after : Shm) (cam : ℤ) (reader : Reader) (attaches : Bool) (last : ℕ)
    (meta0 : FrameMeta) (bytes0 : List ℕ)
    → Consistent w m
    → w.frame_seq (pos_part cam) ≤ last
    → read_latest reader attaches m during after cam last meta0 bytes0
      ≡ some (record {
        reader = record { attached = reader.attached || attaches };
        found = false;
        last_seq = last;
        meta = meta0;
        bytes = bytes0;
      })
unfolding read_latest
read_latest_stale w m during after cam reader attaches last meta0 bytes0 c h =
    rw (scan_stale _ _ last (c (pos_part cam)) h) (ground arith)
