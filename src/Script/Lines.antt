-- ===== src/Script/Lines.antt =====
-- ScriptExecutor::processOutputBytes: the lines of a stream that arrives in pieces. `deliver` is what
-- the loop does with a line's bytes, on a state of any type.
use xreal_bsp_rgb_tool.Prelude.{
  ℕ, zero, suc, List, [], ◌∷◌, ◌++◌, Option, none, some, ◌==◌, if◌then◌else◌, length,
}

-- `indexOf('\n')`, with the parts that `left` and `remove` make of the buffer.
unfoldable pub split_line : List ℕ → Option (List ℕ × List ℕ)
split_line [] = none
split_line (b ∷ bs) =
    if b == 10
    then some ([], bs)
    else elim (split_line bs) [ none ↦ none | some (line, rest) ↦ some (b ∷ line, rest) ]

module _ {ℓ} {S : Type ℓ} (deliver : List ℕ → S → S) where
  -- The loop, with fuel.
  unfoldable pub drain : ℕ → List ℕ → S → S × List ℕ
  drain zero buffer s = (s, buffer)
  drain (suc fuel) buffer s = elim (split_line buffer) [
    | none ↦ (s, buffer)
    | some (line, rest) ↦ drain fuel rest (deliver line s)
  ]

  -- processOutputBytes: a byte more than the buffer holds is fuel enough.
  unfoldable pub process_output_bytes : List ℕ → List ℕ → S → S × List ℕ
  unfolding drain
  process_output_bytes [] buffer s = (s, buffer)
  process_output_bytes (b ∷ chunk) buffer s =
      drain (suc (length (buffer ++ b ∷ chunk))) (buffer ++ b ∷ chunk) s

  -- The calls of a stream, one for each chunk that the process wrote.
  unfoldable pub process_chunks : List (List ℕ) → List ℕ → S → S × List ℕ
  unfolding process_output_bytes
  process_chunks [] buffer s = (s, buffer)
  process_chunks (chunk ∷ chunks) buffer s =
      let r = process_output_bytes chunk buffer s in process_chunks chunks r.1 r.0
