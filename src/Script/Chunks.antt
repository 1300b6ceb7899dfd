-- ===== src/Script/Chunks.antt =====
-- A stream's lines do not depend on the chunks that it arrives in.
use xreal_bsp_rgb_tool.Prelude.{
  ℕ, zero, suc, ◌<◌, ◌≡◌, refl, ap, ◌∙◌, true, List, [], ◌∷◌, ◌++◌, none, some, ◌==◌, if◌then◌else◌,
  length, arith, Bool-cases, inl, inr, Option-cases,
}
use mathlib.Core.List.{append_assoc, append-nil}
use xreal_bsp_rgb_tool.Script.Lines.{split_line, drain, process_output_bytes, process_chunks}

-- A byte in front of a text that is taken apart into its whole lines and the rest.
push : ℕ → List (List ℕ) × List ℕ → List (List ℕ) × List ℕ
push b ([], rest) = if b == 10 then ([] ∷ [], rest) else ([], b ∷ rest)
push b (line ∷ lines, rest) =
    if b == 10 then ([] ∷ line ∷ lines, rest) else ((b ∷ line) ∷ lines, rest)

-- The bytes of the whole lines of a text, and what stands behind its last newline.
unfoldable pub lines_of : List ℕ → List (List ℕ) × List ℕ
unfolding push
lines_of [] = ([], [])
lines_of (b ∷ bs) = push b (lines_of bs)

lines_of-none : (bs : List ℕ) → split_line bs ≡ none → lines_of bs ≡ ([], bs)
unfolding split_line lines_of
lines_of-none [] h = refl
lines_of-none (b ∷ bs) h = ground (arith, lines_of-none bs)

lines_of-some :
    (bs line rest : List ℕ)
    → split_line bs ≡ some (line, rest)
    → (lines_of bs ≡ (line ∷ (lines_of rest).0, (lines_of rest).1)) × (length rest < length bs)
unfolding split_line lines_of
lines_of-some [] line rest h = cc
lines_of-some (b ∷ bs) line rest h = elim (Option-cases (split_line bs)) [
  | inl e ↦ ground (arith, e)
  | inr ((l, r), e) ↦ ground (arith, lines_of-some bs l r e)
]

unfoldable pub deliver_all {ℓ} : {S : Type ℓ} → (List ℕ → S → S) → List (List ℕ) → S → S
deliver_all deliver [] s = s
deliver_all deliver (line ∷ lines) s = deliver_all deliver lines (deliver line s)

-- With enough fuel the loop ends by its test: it delivers the whole lines and keeps the rest.
pub drain-lines_of {ℓ} :
    {S : Type ℓ} (deliver : List ℕ → S → S) (fuel : ℕ) (bs : List ℕ) (s : S)
    → length bs < fuel
    → drain deliver fuel bs s ≡ (deliver_all deliver (lines_of bs).0 s, (lines_of bs).1)
unfolding drain deliver_all
drain-lines_of deliver zero bs s h = absurd (omega arith)
drain-lines_of deliver (suc fuel) bs s h = elim (Option-cases (split_line bs)) [
  | inl e ↦ rw (e, drain) (rw (lines_of-none bs e) refl)
  | inr ((l, r), e) ↦
      let k = lines_of-some bs l r e in
      rw (e, drain) (rw k.0 (drain-lines_of deliver fuel r (deliver l s) (omega (arith, k.1))))
]

push_newline : (b : ℕ) (p : List (List ℕ) × List ℕ) → (b == 10) ≡ true → push b p ≡ ([] ∷ p.0, p.1)
unfolding push
push_newline b ([], rest) e = rw e refl
push_newline b (line ∷ lines, rest) e = rw e refl

-- The rest of a text has no newline, so its own lines are none.
push-rest :
    (b : ℕ) (p : List (List ℕ) × List ℕ)
    → lines_of p.1 ≡ ([], p.1)
    → lines_of (push b p).1 ≡ ([], (push b p).1)
unfolding lines_of
push-rest b ([], rest) h = ground arith
push-rest b (line ∷ lines, rest) h = ground arith

lines_of-rest : (bs : List ℕ) → lines_of (lines_of bs).1 ≡ ([], (lines_of bs).1)
unfolding lines_of
lines_of-rest [] = refl
lines_of-rest (b ∷ bs) = push-rest b (lines_of bs) (lines_of-rest bs)

push-append :
    (b : ℕ) (p : List (List ℕ) × List ℕ) (ys : List ℕ)
    → push b (p.0 ++ (lines_of (p.1 ++ ys)).0, (lines_of (p.1 ++ ys)).1)
      ≡ ((push b p).0 ++ (lines_of ((push b p).1 ++ ys)).0, (lines_of ((push b p).1 ++ ys)).1)
unfolding lines_of
push-append b ([], rest) ys = elim (Bool-cases (b == 10)) [
  | inl e ↦ rw (e, push) (push_newline b (lines_of (rest ++ ys)) e)
  | inr e ↦ rw (e, push) refl
]
push-append b (line ∷ lines, rest) ys = elim (Bool-cases (b == 10)) [
  | inl e ↦ rw (e, push) refl
  | inr e ↦ rw (e, push) refl
]

lines_of-append :
    (xs ys : List ℕ)
    → lines_of (xs ++ ys) ≡ (
      (lines_of xs).0 ++ (lines_of ((lines_of xs).1 ++ ys)).0,
      (lines_of ((lines_of xs).1 ++ ys)).1,
    )
unfolding lines_of
lines_of-append [] ys = refl
lines_of-append (x ∷ xs) ys = ap (push x) (lines_of-append xs ys) ∙ push-append x (lines_of xs) ys

unfoldable pub flatten : List (List ℕ) → List ℕ
flatten [] = []
flatten (chunk ∷ chunks) = chunk ++ flatten chunks

-- The buffer holds no newline.
abbrev pub NoLine : List ℕ → Type 0
NoLine buffer = lines_of buffer ≡ ([], buffer)

module _ {ℓ} {S : Type ℓ} (deliver : List ℕ → S → S) where
  process_output_bytes-lines_of :
      (chunk buffer : List ℕ) (s : S)
      → NoLine buffer
      → process_output_bytes deliver chunk buffer s
        ≡ (deliver_all deliver (lines_of (buffer ++ chunk)).0 s, (lines_of (buffer ++ chunk)).1)
  unfolding process_output_bytes deliver_all
  process_output_bytes-lines_of [] buffer s h = rw (append-nil buffer, h) refl
  process_output_bytes-lines_of (b ∷ chunk) buffer s h =
      drain-lines_of deliver (suc (length (buffer ++ b ∷ chunk))) (buffer ++ b ∷ chunk) s
        (omega arith)

  deliver_all-append :
      (xs ys : List (List ℕ)) (s : S)
      → deliver_all deliver (xs ++ ys) s ≡ deliver_all deliver ys (deliver_all deliver xs s)
  unfolding deliver_all
  deliver_all-append [] ys s = refl
  deliver_all-append (x ∷ xs) ys s = deliver_all-append xs ys (deliver x s)

  -- However a stream is cut into chunks, from an empty buffer or one with no newline: the lines that
  -- are delivered, in order, are the whole lines of what the buffer held and all the chunks, and the
  -- buffer keeps what stands behind the last newline.
  pub process_chunks-lines_of :
      (chunks : List (List ℕ)) (buffer : List ℕ) (s : S)
      → NoLine buffer
      → process_chunks deliver chunks buffer s ≡ (
        deliver_all deliver (lines_of (buffer ++ flatten chunks)).0 s,
        (lines_of (buffer ++ flatten chunks)).1,
      )
  unfolding process_chunks flatten deliver_all
  process_chunks-lines_of [] buffer s h = rw (append-nil buffer, h) refl
  process_chunks-lines_of (chunk ∷ chunks) buffer s h =
      let text = buffer ++ chunk in
      let rest = (lines_of text).1 in
      rw (process_output_bytes-lines_of chunk buffer s h) (
        process_chunks-lines_of chunks rest (deliver_all deliver (lines_of text).0 s)
          (lines_of-rest text)
        ∙ rw (← append_assoc buffer chunk (flatten chunks)) (
            rw (lines_of-append text (flatten chunks)) (
              rw (deliver_all-append (lines_of text).0 (lines_of (rest ++ flatten chunks)).0 s)
                refl)))
