-- ===== src/CameraShm/Ring/Lane.antt =====
-- The writer thread of one camera in the steps that a reader can see between: a frame's bytes reach
-- their slot in any number of stores, and then its number is published. `frame_seq` does not wrap.
use xreal_bsp_rgb_tool.Prelude.{
  ℕ, suc, ◌+◌, ◌-◌, ◌%◌, ◌≤◌, ◌<◌, ◌^◌, ◌≡◌, ◌≢◌, refl, ◌∙◌, Bool, true, false, arith, ◌⊎◌,
  if◌then◌else◌,
}
use xreal_bsp_rgb_tool.Prelude.Int.{pos}
use xreal_bsp_rgb_tool.CameraShm.Memory.{Mem, copy}
use xreal_bsp_rgb_tool.CameraShm.Meta.{FrameMeta, shm_meta_size, write_to}
use xreal_bsp_rgb_tool.CameraShm.Meta.Laws.{write_to_apart}
use xreal_bsp_rgb_tool.CameraShm.Ring.{
  Shm, Writer, slot_count, slot_size, slot_offset, store_frame, publish, update,
}
use xreal_bsp_rgb_tool.CameraShm.Ring.Frames.{Published}

pub record Lane : Type 0 where
  pub frame_seq : ℕ
  pub writing : Bool  -- a frame is under way
  pub seqs : ℕ → ℕ
  pub mem : Mem

-- The slot that the next frame goes to.
abbrev pub next_base : Lane → ℕ
next_base l = slot_offset (suc l.frame_seq % slot_count)

-- The two memories differ in the next frame's slot at most.
abbrev pub InSlot : Lane → Mem → Type 0
InSlot l m = (i : ℕ) → (i < next_base l) ⊎ (next_base l + slot_size ≤ i) → m i ≡ l.mem i

pub data Step (l : Lane) (k : Lane) : Type 0 where
  store : (m : Mem) → InSlot l m → k ≡ record l { writing = true; mem = m } → Step l k
  finish :
      k ≡ record l {
        frame_seq = suc l.frame_seq;
        writing = false;
        seqs = update l.seqs (suc l.frame_seq % slot_count) (suc l.frame_seq);
      }
      → Step l k

pub data Steps (l : Lane) : Lane → Type 0 where
  here : Steps l l
  next : {k j : Lane} → Steps l k → Step k j → Steps l j

-- How many frames the writer has begun.
abbrev pub begun : Lane → ℕ
begun l = if l.writing then suc l.frame_seq else l.frame_seq

-- Slot `s` as a lane holds it is untouched.
pub record Untouched (l k : Lane) (s : ℕ) : Type 0 where
  pub seq : k.seqs s ≡ l.seqs s
  pub bytes : (i : ℕ) → slot_offset s ≤ i → i < slot_offset s + slot_size → k.mem i ≡ l.mem i

Step-begun : (l k : Lane) → Step l k → begun l ≤ begun k
Step-begun l k (store m h e) = ground arith
Step-begun l k (finish e) = ground arith

Step-frame_seq : (l k : Lane) → Step l k → l.frame_seq ≤ k.frame_seq
Step-frame_seq l k (store m h e) = ground arith
Step-frame_seq l k (finish e) = ground arith

Steps-frame_seq : {l k : Lane} → Steps l k → l.frame_seq ≤ k.frame_seq
Steps-frame_seq here = omega arith
Steps-frame_seq (next {k = k} {j = j} r s) = omega (arith, Steps-frame_seq r, Step-frame_seq k j s)

-- A step of a writer that has begun fewer than four frames since `n` leaves the slot of `n` alone.
Step-Untouched :
    (l k : Lane) (n : ℕ)
    → n ≤ l.frame_seq
    → begun k < n + slot_count
    → Step l k
    → Untouched l k (n % slot_count)
unfolding slot_offset
Step-Untouched l k n h b (store m out e) = record {
  seq = ground arith;
  bytes = λ i p q. ground (arith, out i);
}
Step-Untouched l k n h b (finish e) = record { seq = ground arith; bytes = λ i p q. ground arith }

pub Steps-Untouched :
    {l k : Lane}
    → Steps l k
    → begun k < l.frame_seq + slot_count
    → Untouched l k (l.frame_seq % slot_count)
Steps-Untouched here b = record { seq = refl; bytes = λ i p q. refl }
Steps-Untouched {l} (next {k = k} {j = j} r s) b =
    let u = Steps-Untouched r (omega (arith, Step-begun k j s)) in
    let v = Step-Untouched k j l.frame_seq (Steps-frame_seq r) b s in
    record { seq = v.seq ∙ u.seq; bytes = λ i p q. v.bytes i p q ∙ u.bytes i p q }

Step-Published :
    (l k : Lane) → Step l k → Published l.seqs l.frame_seq → Published k.seqs k.frame_seq
Step-Published l k (store m h e) p = rw e p
Step-Published l k (finish e) p = rw e (record {
  below = λ s b. ground (arith, p.below s);
  own = λ s b z. ground (arith, p.own s);
  recent = λ i z a b. ground (arith, p.recent i);
})

pub Steps-Published :
    {l k : Lane} → Steps l k → Published l.seqs l.frame_seq → Published k.seqs k.frame_seq
Steps-Published here p = p
Steps-Published (next {k = k} {j = j} r s) p = Step-Published k j s (Steps-Published r p)

-- A number that lies four frames back is gone from its slot.
pub replaced :
    (seqs : ℕ → ℕ) (n k : ℕ)
    → Published seqs k
    → 0 < n
    → n + slot_count ≤ k
    → seqs (n % slot_count) ≢ n
replaced seqs n k p z h e =
    ground (arith, p.recent (k - (k + slot_count - n % slot_count) % slot_count))

pub Steps-begun : {l k : Lane} → Steps l k → begun l ≤ begun k
Steps-begun here = omega arith
Steps-begun (next {k = k} {j = j} r s) = omega (arith, Steps-begun r, Step-begun k j s)

pub Steps-append : {l k j : Lane} → Steps l k → Steps k j → Steps l j
Steps-append r here = r
Steps-append r (next q s) = next (Steps-append r q) s

-- The segment shows the lane of a camera.
pub record Shows (m : Shm) (cam : ℕ) (l : Lane) : Type 0 where
  pub seqs : m.slot_seqs cam ≡ l.seqs
  pub mem : m.buffers cam ≡ l.mem

-- The lane while frame `frame_seq + 1` is under way: its header and the first `p` bytes of its image
-- are stored.
unfoldable pub half_stored : Lane → FrameMeta → ℕ → Mem → ℕ → Lane
half_stored l meta n src p = record l {
  writing = true;
  mem =
      copy (write_to (record meta { data_size = pos n }) l.mem (next_base l))
        (next_base l + shm_meta_size) src p;
}

pub half_stored-Step :
    (l : Lane) (meta : FrameMeta) (n : ℕ) (src : Mem) (p : ℕ)
    → shm_meta_size + p ≤ slot_size
    → Step l (half_stored l meta n src p)
unfolding half_stored
half_stored-Step l meta n src p h =
    store _
      (λ i o.
        ground (arith, write_to_apart (record meta { data_size = pos n }) l.mem (next_base l) i))
      refl

-- What a writer object and its segment are as a lane.
pub lane : Writer → Shm → ℕ → Lane
lane w m cam = record {
  frame_seq = w.frame_seq cam;
  writing = false;
  seqs = m.slot_seqs cam;
  mem = m.buffers cam;
}

-- What writeFrame does behind its guards is a run of the lane's steps, from the lane of the camera
-- before the call to the lane after it, if the frame fits its slot and the counter does not wrap.
pub publish-Steps :
    (w : Writer) (m : Shm) (cam : ℕ) (meta : FrameMeta) (src : Mem) (n : ℕ)
    → w.frame_seq cam + 1 < 2 ^ 64
    → shm_meta_size + n ≤ slot_size
    → let q = publish w m cam meta src n in Steps (lane w m cam) (lane q.writer q.shm cam)
unfolding publish lane half_stored store_frame
publish-Steps w m cam meta src n h f =
    next (next here (half_stored-Step (lane w m cam) meta n src n f)) (finish (ground arith))
