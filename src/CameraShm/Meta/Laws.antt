-- ===== src/CameraShm/Meta/Laws.antt =====
-- The header survives its way through the bytes.
use xreal_bsp_rgb_tool.Prelude.{ℕ, ◌+◌, ◌*◌, ◌≤◌, ◌<◌, ◌^◌, ◌≡◌, ◌⊎◌, arith}
use xreal_bsp_rgb_tool.Prelude.Int.{ℤ, pos, negsuc, pos_part, neg_part}
use xreal_bsp_rgb_tool.CameraShm.Memory.{Mem}
use xreal_bsp_rgb_tool.CameraShm.Meta.{
  FrameMeta, to_u32, of_u32, u32_byte, write_u32, read_u32, write_to, read_from,
}

-- An `int` of 32 bits.
abbrev pub IsInt : ℤ → Type 0
IsInt z = (pos_part z < 2 ^ 31) × (neg_part z ≤ 2 ^ 31)

pub record InRange (f : FrameMeta) : Type 0 where
  pub width : IsInt f.width
  pub height : IsInt f.height
  pub format : IsInt f.format
  pub data_size : IsInt f.data_size
  pub bytes_per_line : IsInt f.bytes_per_line
  pub encoded_format : IsInt f.encoded_format

pub of_u32-to_u32 : (z : ℤ) → IsInt z → of_u32 (to_u32 z) ≡ z
unfolding of_u32 to_u32
of_u32-to_u32 (pos n) h = ground arith
of_u32-to_u32 (negsuc n) h = ground arith

to_u32-lt : (z : ℤ) → to_u32 z < 2 ^ 32
unfolding to_u32
to_u32-lt (pos n) = omega arith
to_u32-lt (negsuc n) = omega arith

u32_bytes :
    (v : ℕ)
    → v < 2 ^ 32
    → u32_byte v 0 + 256 * u32_byte v 1 + 65536 * u32_byte v 2 + 16777216 * u32_byte v 3 ≡ v
unfolding u32_byte
u32_bytes v h = omega arith

read-write : (m : Mem) (a v : ℕ) → v < 2 ^ 32 → read_u32 (write_u32 m a v) a ≡ v
unfolding read_u32 write_u32
read-write m a v h = ground (arith, u32_bytes v)

read-write_apart :
    (m : Mem) (a b v : ℕ) → (b + 4 ≤ a) ⊎ (a + 4 ≤ b) → read_u32 (write_u32 m a v) b ≡ read_u32 m b
unfolding read_u32 write_u32
read-write_apart m a b v h = ground arith

-- Reading a field back, past the writes of the fields behind it.
read-write_to :
    (f : FrameMeta) (m : Mem) (a : ℕ)
    → (read_u32 (write_to f m a) (a + 0) ≡ to_u32 f.width)
      × (read_u32 (write_to f m a) (a + 4) ≡ to_u32 f.height)
      × (read_u32 (write_to f m a) (a + 8) ≡ to_u32 f.format)
      × (read_u32 (write_to f m a) (a + 12) ≡ to_u32 f.data_size)
      × (read_u32 (write_to f m a) (a + 16) ≡ to_u32 f.bytes_per_line)
      × (read_u32 (write_to f m a) (a + 20) ≡ to_u32 f.encoded_format)
unfolding write_to
read-write_to f m a = grind (arith, read-write, read-write_apart, to_u32-lt)

-- A header whose six numbers fit 32-bit integers, written at any address, is read back unchanged.
pub read_from-write_to :
    (f : FrameMeta) (m : Mem) (a : ℕ) → InRange f → read_from (write_to f m a) a ≡ f
unfolding read_from
read_from-write_to f m a r = ground (
  arith,
  read-write_to f m a,
  of_u32-to_u32 f.width,
  of_u32-to_u32 f.height,
  of_u32-to_u32 f.format,
  of_u32-to_u32 f.data_size,
  of_u32-to_u32 f.bytes_per_line,
  of_u32-to_u32 f.encoded_format,
)

read_u32_cong :
    (m k : Mem) (a : ℕ) → ((i : ℕ) → a ≤ i → i < a + 4 → m i ≡ k i) → read_u32 m a ≡ read_u32 k a
unfolding read_u32
read_u32_cong m k a h = ground (arith, h a, h (a + 1), h (a + 2), h (a + 3))

-- The header depends on its own bytes only.
pub read_from_cong :
    (m k : Mem) (a : ℕ) → ((i : ℕ) → a ≤ i → i < a + 32 → m i ≡ k i) → read_from m a ≡ read_from k a
unfolding read_from
read_from_cong m k a h = rw (
  field 0 (omega arith),
  field 4 (omega arith),
  field 8 (omega arith),
  field 12 (omega arith),
  field 16 (omega arith),
  field 20 (omega arith),
)
  where
    field : (d : ℕ) → d ≤ 20 → read_u32 m (a + d) ≡ read_u32 k (a + d)
    field d p = read_u32_cong m k (a + d) (λ i q r. h i (omega arith) (omega arith))

write_u32_apart : (m : Mem) (a v i : ℕ) → (i < a) ⊎ (a + 4 ≤ i) → write_u32 m a v i ≡ m i
unfolding write_u32
write_u32_apart m a v i h = ground arith

-- The header stays within its 32 bytes.
pub write_to_apart :
    (f : FrameMeta) (m : Mem) (a i : ℕ) → (i < a) ⊎ (a + 32 ≤ i) → write_to f m a i ≡ m i
unfolding write_to
write_to_apart f m a i h = grind (arith, write_u32_apart)
