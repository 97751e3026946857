-- ===== src/ServerNode/Body/Clearing.antt =====
-- Which buffers are cleared when reading stops.
use secure_keyboard.Prelude.{
  ℕ, zero, suc, ◌+◌, ◌≤◌, ◌<◌, ◌≡◌, ◌≢◌, refl, ◌∙◌, inl, inr, Bool-cases, true, List, [], ◌∷◌, ◌++◌,
  length, replicate, All, All-append, Option, none, some, ltb,
}
use secure_keyboard.ServerNode.Body.{
  Bytes, Chunk, bytes, wide, no_buffer, Stream, ended, failed, chunk, too_large, cleared,
  zeroized_chunk, read_loop, read_bounded_body,
}
use secure_keyboard.ServerNode.Body.Copy.{total_length}
use secure_keyboard.ServerNode.Body.Outcome.{stream_of, all_read, too_large_read}

abbrev pub IsCleared : Bytes → Type 0
IsCleared bs = All (λ b. b ≡ 0) bs

replicate-IsCleared : (n : ℕ) → IsCleared (replicate n 0)
replicate-IsCleared zero = tt
replicate-IsCleared (suc n) = (refl, replicate-IsCleared n)

cleared-IsCleared : (chunks : List Bytes) → All IsCleared (cleared chunks)
unfolding cleared
cleared-IsCleared [] = tt
cleared-IsCleared (bs ∷ rest) = (replicate-IsCleared (length bs), cleared-IsCleared rest)

zeroized-IsCleared : (c : Chunk) → All IsCleared (zeroized_chunk c)
zeroized-IsCleared (bytes bs) = (replicate-IsCleared (length bs), tt)
zeroized-IsCleared (wide bs) = (replicate-IsCleared (length bs), tt)
zeroized-IsCleared no_buffer = tt

read_loop-IsCleared :
    (limit total : ℕ) (chunks : List Bytes) (stream : Stream)
    → (read_loop limit total chunks stream).outcome ≢ too_large
    → All IsCleared (read_loop limit total chunks stream).memory
unfolding read_loop
read_loop-IsCleared limit total chunks ended h = cleared-IsCleared chunks
read_loop-IsCleared limit total chunks failed h = cleared-IsCleared chunks
read_loop-IsCleared limit total chunks (chunk (bytes bs) rest) h =
    elim (Bool-cases (ltb limit (total + length bs))) [
      | inl over ↦ absurd (h (rw over))
      | inr fine ↦ rw fine (
          read_loop-IsCleared limit (total + length bs) (chunks ++ bs ∷ []) rest
            (λ e. h (rw fine e)))
    ]
read_loop-IsCleared limit total chunks (chunk (wide bs) rest) h =
    All-append IsCleared (cleared chunks) _ (cleared-IsCleared chunks)
      (zeroized-IsCleared (wide bs))
read_loop-IsCleared limit total chunks (chunk no_buffer rest) h =
    All-append IsCleared (cleared chunks) [] (cleared-IsCleared chunks) tt

-- Unless the body is too large, every buffer that was read is cleared when reading ends: on
-- success, on a chunk that is no byte view, and on a failed read.
pub read_bounded_body-IsCleared :
    (stream : Option Stream) (limit : ℕ)
    → (read_bounded_body stream limit).outcome ≢ too_large
    → All IsCleared (read_bounded_body stream limit).memory
unfolding read_bounded_body
read_bounded_body-IsCleared none limit h = tt
read_bounded_body-IsCleared (some stream) limit h = read_loop-IsCleared limit 0 [] stream h

-- A chunk that takes the total past the limit ends the reading with `too_large` and cancels the
-- stream. The chunks before it are cleared, and it is itself left as it came.
pub oversized_chunk_kept :
    (bss : List Bytes) (bs : Bytes) (rest : Stream) (limit : ℕ)
    → total_length bss ≤ limit
    → limit < total_length bss + length bs
    → read_bounded_body (some (stream_of bss (chunk (bytes bs) rest))) limit
      ≡ record { outcome = too_large; memory = cleared bss ++ bs ∷ []; cancelled = true }
unfolding read_bounded_body
oversized_chunk_kept bss bs rest limit fits over =
    all_read limit bss [] (chunk (bytes bs) rest) fits
    ∙ too_large_read limit (total_length bss) bss bs rest over
