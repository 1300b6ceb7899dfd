-- ===== src/CameraShm/Ring/Interleaving.antt =====
-- A read that runs while the writer goes on: when the frame is whole, when the second load of its
-- number rejects it, and the window that the second load leaves open.
use xreal_bsp_rgb_tool.Prelude.{
  ℕ, ◌+◌, ◌%◌, ◌≤◌, ◌<◌, ◌≡◌, refl, ap, ◌∙◌, Bool, true, false, List, ◌++◌, some, arith, ==_iff,
  ◌||◌,
}
use xreal_bsp_rgb_tool.Prelude.Int.{pos}
use xreal_bsp_rgb_tool.CameraShm.Memory.{Mem, slice, slice_cong, slice-add, slice-copy}
use xreal_bsp_rgb_tool.CameraShm.Meta.{FrameMeta, read_from, shm_meta_size, write_to}
use xreal_bsp_rgb_tool.CameraShm.Meta.Laws.{read_from_cong, read_from-write_to, write_to_apart}
use xreal_bsp_rgb_tool.CameraShm.Ring.{
  Shm, Reader, ReadResult, slot_count, slot_offset, camera_count, read_latest,
}
use xreal_bsp_rgb_tool.CameraShm.Ring.Frames.{
  Published, Readable, scan-Published, read_latest-newest,
}
use xreal_bsp_rgb_tool.CameraShm.Ring.Lane.{
  Lane, Steps, Shows, Untouched, begun, next_base, half_stored, Steps-begun, Steps-append,
  Steps-Untouched, Steps-Published, replaced,
}

-- The writer is in `l` when the reader scans, in `k` when it copies, and in `j` when it loads the
-- number again; the newest frame of `l` is readable.
module _ (reader : Reader) (attaches : Bool) (here_now : (reader.attached || attaches) ≡ true)
    (cam last : ℕ) (known : cam < camera_count) (meta0 : FrameMeta) (bytes0 : List ℕ)
    (before during after : Shm) (l k j : Lane) (scanned : Shows before cam l)
    (copied : Shows during cam k) (loaded : Shows after cam j) (between : Steps l k)
    (beyond : Steps k j) (ok : Published l.seqs l.frame_seq) (unseen : last < l.frame_seq) where
  -- A read runs while the writer goes on. If the writer begins at most three frames after the one that
  -- the scan finds newest, the reader gets that frame whole: its header, its image and its number.
  pub read_latest_intact :
      (meta : FrameMeta) (n : ℕ)
      → Readable meta n
      → read_from l.mem (slot_offset (l.frame_seq % slot_count)) ≡ record meta { data_size = pos n }
      → begun j < l.frame_seq + slot_count
      → read_latest reader attaches before during after (pos cam) last meta0 bytes0
        ≡ some (record {
          reader = record { attached = true };
          found = true;
          last_seq = l.frame_seq;
          meta = record meta { data_size = pos n };
          bytes = slice l.mem (slot_offset (l.frame_seq % slot_count) + shm_meta_size) n;
        })
  read_latest_intact meta n g h b =
      read_latest-newest reader attaches before during after cam l.frame_seq slot last n meta meta0
        bytes0 here_now known (rw scanned.seqs (scan-Published l.seqs l.frame_seq last ok unseen)) g
        (rw copied.mem
          (read_from_cong k.mem l.mem (slot_offset slot) (λ i p q. u.bytes i p (omega arith)) ∙ h))
      ∙ rw (copied.mem, loaded.seqs, same, (==_iff _ _).1 refl, image)
    where
      slot : ℕ
      slot = l.frame_seq % slot_count

      u : Untouched l k slot
      u = Steps-Untouched between (omega (arith, Steps-begun beyond))

      same : j.seqs slot ≡ l.frame_seq
      same =
          (Steps-Untouched (Steps-append between beyond) b).seq
          ∙ ok.recent l.frame_seq (omega arith) (omega arith) (omega arith)

      image :
          slice k.mem (slot_offset slot + shm_meta_size) n
          ≡ slice l.mem (slot_offset slot + shm_meta_size) n
      image = slice_cong k.mem l.mem _ _ n (λ i p. u.bytes _ (omega arith) (omega (arith, g.fits)))

  -- A read runs while the writer goes on. If the writer has published four frames more than the one that
  -- the scan finds newest when the number is loaded again, a read that returns reports no frame and
  -- leaves the last number as it was.
  pub read_latest_overwritten :
      (r : ReadResult)
      → read_latest reader attaches before during after (pos cam) last meta0 bytes0 ≡ some r
      → l.frame_seq + slot_count ≤ j.frame_seq
      → (r.found ≡ false) × (r.last_seq ≡ last)
  unfolding read_latest
  read_latest_overwritten r e h = ground (
    arith,
    scan-Published l.seqs l.frame_seq last ok unseen,
    scanned.seqs,
    loaded.seqs,
    replaced j.seqs l.frame_seq j.frame_seq (Steps-Published (Steps-append between beyond) ok),
  )

-- The window that the second load leaves open: the writer is storing the fourth frame since the one
-- that the reader found, and has not published it. The reader then reports that frame's number with
-- the new header, and the new image up to what is stored and old bytes behind it.
pub read_latest_torn :
    (reader : Reader) (attaches : Bool) (cam last : ℕ) (meta0 : FrameMeta) (bytes0 : List ℕ)
    (before during : Shm) (l k : Lane) (meta : FrameMeta) (n p rest : ℕ) (src : Mem)
    → (reader.attached || attaches) ≡ true
    → cam < camera_count
    → Published l.seqs l.frame_seq
    → last < l.frame_seq
    → Steps l k
    → k.frame_seq ≡ l.frame_seq + 3
    → Readable meta n
    → p + rest ≡ n
    → Shows before cam l
    → Shows during cam (half_stored k meta n src p)
    → read_latest reader attaches before during during (pos cam) last meta0 bytes0
      ≡ some (record {
        reader = record { attached = true };
        found = true;
        last_seq = l.frame_seq;
        meta = record meta { data_size = pos n };
        bytes = slice src 0 p ++ slice k.mem (next_base k + shm_meta_size + p) rest;
      })
unfolding half_stored
read_latest_torn reader attaches cam last meta0 bytes0 before during l k meta n p rest src here_now
      known ok unseen s e g split scanned half =
    read_latest-newest reader attaches before during during cam l.frame_seq slot last n meta meta0
      bytes0 here_now known (rw scanned.seqs (scan-Published l.seqs l.frame_seq last ok unseen)) g
      (rw (half.mem, base) head)
    ∙ rw ((==_iff _ _).1 (ap (λ f. f slot) half.seqs ∙ same), half.mem, base, tail)
  where
    hdr : FrameMeta
    hdr = record meta { data_size = pos n }

    now : Lane
    now = half_stored k meta n src p

    base : slot_offset (l.frame_seq % slot_count) ≡ next_base k
    base = ap slot_offset (omega arith)

    head : read_from now.mem (next_base k) ≡ hdr
    head =
        read_from_cong now.mem (write_to hdr k.mem (next_base k)) (next_base k)
          (λ i a b. ground arith)
        ∙ read_from-write_to hdr k.mem (next_base k) g.header

    old :
        slice now.mem (next_base k + shm_meta_size + p) rest
        ≡ slice k.mem (next_base k + shm_meta_size + p) rest
    old = slice_cong now.mem k.mem _ _ rest (λ i b.
        ground
          (arith, write_to_apart hdr k.mem (next_base k) (next_base k + shm_meta_size + p + i)))

    tail :
        slice now.mem (next_base k + shm_meta_size) n
        ≡ slice src 0 p ++ slice k.mem (next_base k + shm_meta_size + p) rest
    tail = ground (
      arith,
      slice-add now.mem (next_base k + shm_meta_size) p rest,
      old,
      slice-copy (write_to hdr k.mem (next_base k)) src (next_base k + shm_meta_size) p,
    )

    slot : ℕ
    slot = l.frame_seq % slot_count

    same : k.seqs slot ≡ l.frame_seq
    same = (Steps-Published s ok).recent l.frame_seq (omega arith) (omega arith) (omega arith)
