-- ===== src/CameraShm/Meta.antt =====
-- CameraFrameMeta: the 32-byte header of a frame, little-endian as on the hosts the tool runs on.
pub mod Laws
use xreal_bsp_rgb_tool.Prelude.{ℕ, zero, suc, ◌+◌, ◌-◌, ◌*◌, ◌/◌, ◌%◌, ◌^◌, ltb, if◌then◌else◌}
use xreal_bsp_rgb_tool.Prelude.Int.{ℤ, pos, negsuc}
use xreal_bsp_rgb_tool.CameraShm.Memory.{Mem, fill, copy}

-- `kShmMetaSize`.
abbrev pub shm_meta_size : ℕ
shm_meta_size = 32

pub record FrameMeta : Type 0 where
  pub width : ℤ
  pub height : ℤ
  pub format : ℤ
  pub data_size : ℤ
  pub bytes_per_line : ℤ
  pub encoded_format : ℤ

-- `static_cast<uint32_t>(int)` and back: two's complement.
pub to_u32 : ℤ → ℕ
to_u32 (pos n) = n % 2 ^ 32
to_u32 (negsuc n) = 2 ^ 32 - 1 - n % 2 ^ 32

pub of_u32 : ℕ → ℤ
of_u32 v = if ltb v (2 ^ 31) then pos v else negsuc (2 ^ 32 - 1 - v)

-- The four bytes of a value, lowest first.
pub u32_byte : ℕ → ℕ → ℕ
u32_byte v zero = v % 256
u32_byte v (suc zero) = v / 256 % 256
u32_byte v (suc (suc zero)) = v / 65536 % 256
u32_byte v (suc (suc (suc i))) = v / 16777216 % 256

pub write_u32 : Mem → ℕ → ℕ → Mem
write_u32 m a v = copy m a (u32_byte v) 4

unfoldable pub read_u32 : Mem → ℕ → ℕ
read_u32 m a = m a + 256 * m (a + 1) + 65536 * m (a + 2) + 16777216 * m (a + 3)

-- CameraFrameMeta::writeTo
pub write_to : FrameMeta → Mem → ℕ → Mem
write_to f m a =
    let m0 = fill m a 0 shm_meta_size in
    let m1 = write_u32 m0 (a + 0) (to_u32 f.width) in
    let m2 = write_u32 m1 (a + 4) (to_u32 f.height) in
    let m3 = write_u32 m2 (a + 8) (to_u32 f.format) in
    let m4 = write_u32 m3 (a + 12) (to_u32 f.data_size) in
    let m5 = write_u32 m4 (a + 16) (to_u32 f.bytes_per_line) in
    write_u32 m5 (a + 20) (to_u32 f.encoded_format)

-- CameraFrameMeta::readFrom
unfoldable pub read_from : Mem → ℕ → FrameMeta
read_from m a = record {
  width = of_u32 (read_u32 m (a + 0));
  height = of_u32 (read_u32 m (a + 4));
  format = of_u32 (read_u32 m (a + 8));
  data_size = of_u32 (read_u32 m (a + 12));
  bytes_per_line = of_u32 (read_u32 m (a + 16));
  encoded_format = of_u32 (read_u32 m (a + 20));
}
