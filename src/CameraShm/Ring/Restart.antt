-- ===== src/CameraShm/Ring/Restart.antt =====
-- A writer that is created again, over a segment that readers have followed.
use xreal_bsp_rgb_tool.Prelude.{
  ℕ, ◌≤◌, ◌<◌, ◌≡◌, Bool, true, false, List, Option, some, arith, ◌||◌, inl, inr,
}
use xreal_bsp_rgb_tool.Prelude.Int.{ℤ, pos_part}
use xreal_bsp_rgb_tool.CameraShm.Memory.{Mem}
use xreal_bsp_rgb_tool.CameraShm.Meta.{FrameMeta}
use xreal_bsp_rgb_tool.CameraShm.Ring.{
  Shm, Writer, Reader, WriteResult, Segment, publish, write_frame, read_latest, create,
}
use xreal_bsp_rgb_tool.CameraShm.Ring.Writes.{
  Consistent, write_frame_cases, write_frame-Consistent, create-Consistent, read_latest_stale,
}

created_seq :
    (w : Writer) (m : Shm) (answer : Segment) (c : ℕ)
    → w.created ≡ false
    → (create w m answer).1 ≡ true
    → (create w m answer).0.0.frame_seq c ≡ 0
unfolding create
created_seq w m Segment.failed c h e = absurd (ground arith)
created_seq w m Segment.fresh c h e = ground arith
created_seq w m Segment.existing c h e = ground arith

publish_seq :
    (w : Writer) (m : Shm) (cam : ℕ) (meta : FrameMeta) (src : Mem) (n : ℕ)
    → w.frame_seq cam ≡ 0
    → (publish w m cam meta src n).writer.frame_seq cam ≡ 1
unfolding publish
publish_seq w m cam meta src n h = ground arith

-- After a successful create of a writer that was not created, the first writeFrame that returns leaves
-- every reader that has seen a frame of that camera before with nothing: it finds no frame, and its last
-- number, header and data stay.
pub read_latest_restarted :
    (w : Writer) (m : Shm) (answer : Segment) (cam size : ℤ) (meta : FrameMeta) (src : Option Mem)
    (r : WriteResult) (reader : Reader) (attaches : Bool) (last : ℕ) (meta0 : FrameMeta)
    (bytes0 : List ℕ)
    → w.created ≡ false
    → (create w m answer).1 ≡ true
    → write_frame (create w m answer).0.0 (create w m answer).0.1 cam meta src size ≡ some r
    → 0 < last
    → read_latest reader attaches r.shm r.shm r.shm cam last meta0 bytes0
      ≡ some (record {
        reader = record { attached = reader.attached || attaches };
        found = false;
        last_seq = last;
        meta = meta0;
        bytes = bytes0;
      })
read_latest_restarted w m answer cam size meta src r reader attaches last meta0 bytes0 new ok wrote
      seen =
    read_latest_stale r.writer r.shm r.shm r.shm cam reader attaches last meta0 bytes0
      (write_frame-Consistent w1 m1 cam size meta src r (omega (arith, zero_now)) start wrote)
      (omega (arith, at_most))
  where
    w1 : Writer
    w1 = (create w m answer).0.0

    m1 : Shm
    m1 = (create w m answer).0.1

    zero_now : w1.frame_seq (pos_part cam) ≡ 0
    zero_now = created_seq w m answer (pos_part cam) new ok

    start : Consistent w1 m1
    start = create-Consistent w m answer (λ e. absurd (ground arith)) ok

    at_most : r.writer.frame_seq (pos_part cam) ≤ 1
    at_most = elim (write_frame_cases w1 m1 cam size meta src r wrote) [
      | inl same ↦ rw same (omega (arith, zero_now))
      | inr (img, a, done) ↦
          rw done
            (omega (arith, publish_seq w1 m1 (pos_part cam) meta img (pos_part size) zero_now))
    ]
