-- ===== src/CameraShm/Memory.antt =====
-- Byte memory: the region that QSharedMemory maps, one byte for each address.
use native.Mathlib.Nat.{suc-add}
use xreal_bsp_rgb_tool.Prelude.{
  ℕ, zero, suc, ◌+◌, ◌-◌, ◌≤◌, ◌<◌, ◌≡◌, refl, ap, ap₂, ◌⊎◌, List, [], ◌∷◌, ◌++◌, ◌&&◌, length,
  arith, ltb, leb, if◌then◌else◌,
}

abbrev pub Mem : Type 0
Mem = ℕ → ℕ

-- `std::memset(buf + a, v, n)`.
abbrev pub fill : Mem → ℕ → ℕ → ℕ → Mem
fill m a n v = λ i. if leb a i && ltb i (a + n) then v else m i

-- `std::memcpy(buf + a, src, n)`.
abbrev pub copy : Mem → ℕ → Mem → ℕ → Mem
copy m a src n = λ i. if leb a i && ltb i (a + n) then src (i - a) else m i

-- `QByteArray(buf + a, n)`.
pub slice : Mem → ℕ → ℕ → List ℕ
slice m a zero = []
slice m a (suc n) = m a ∷ slice m (a + 1) n

-- Two memories that agree on a range have the same bytes there.
pub slice_cong :
    (m k : Mem) (a b n : ℕ) → ((i : ℕ) → i < n → m (a + i) ≡ k (b + i)) → slice m a n ≡ slice k b n
unfolding slice
slice_cong m k a b zero h = refl
slice_cong m k a b (suc n) h =
    ap₂ ◌∷◌ (ground (arith, h 0)) (slice_cong m k (a + 1) (b + 1) n later)
  where
    later : (i : ℕ) → i < n → m (a + 1 + i) ≡ k (b + 1 + i)
    later i p = ground (arith, h (i + 1))

-- What was copied in is read back.
pub slice-copy : (m src : Mem) (a n : ℕ) → slice (copy m a src n) a n ≡ slice src 0 n
slice-copy m src a n = slice_cong (copy m a src n) src a 0 n (λ i p. ground arith)

-- A copy changes nothing outside its range.
pub slice-copy_apart :
    (m src : Mem) (a n b k : ℕ)
    → (b + k ≤ a) ⊎ (a + n ≤ b)
    → slice (copy m a src n) b k ≡ slice m b k
slice-copy_apart m src a n b k h = slice_cong (copy m a src n) m b b k (λ i p. ground arith)

pub length-slice : (m : Mem) (a n : ℕ) → length (slice m a n) ≡ n
unfolding slice
length-slice m a zero = refl
length-slice m a (suc n) = ap suc (length-slice m (a + 1) n)

pub slice-add : (m : Mem) (a n k : ℕ) → slice m a (n + k) ≡ slice m a n ++ slice m (a + n) k
unfolding slice
slice-add m a zero k = ground arith
slice-add m a (suc n) k = rw suc-add (ground (arith, slice-add m (a + 1) n k))
