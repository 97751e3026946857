-- ===== src/ServerNode/Body.antt =====
-- `readBoundedBody` over a finite stream, with what becomes of the buffers it was given.
--
-- Each chunk has a buffer of its own. A failed read stands for every throw of the reader.
pub mod Copy
pub mod Outcome
pub mod Clearing
use secure_keyboard.Prelude.{
  ℕ, zero, suc, ◌+◌, Bool, true, false, List, [], ◌∷◌, ◌++◌, map, Option, none, some, ltb,
  if◌then◌else◌, length, replicate,
}

abbrev pub Bytes : Type 0
Bytes = List ℕ

-- What the reader yields: a view that `byteView` accepts, one of wider elements, or no buffer.
pub data Chunk : Type 0 where
  bytes : Bytes → Chunk
  wide : Bytes → Chunk
  no_buffer : Chunk

pub data Stream : Type 0 where
  ended : Stream
  failed : Stream
  chunk : Chunk → Stream → Stream

pub data ReadOutcome : Type 0 where
  body : Bytes → ReadOutcome
  too_large : ReadOutcome
  not_bytes : ReadOutcome
  read_failed : ReadOutcome

-- The outcome, the buffers read so far as they are left, and whether the reader was cancelled.
pub record BodyRead : Type 0 where
  pub outcome : ReadOutcome
  pub memory : List Bytes
  pub cancelled : Bool

-- `chunk.fill(0)`
abbrev pub zeroed : Bytes → Bytes
zeroed bs = replicate (length bs) 0

-- `clearChunks`
unfoldable pub cleared : List Bytes → List Bytes
cleared [] = []
cleared (bs ∷ rest) = zeroed bs ∷ cleared rest

-- `output.set(chunk, offset)` where the chunk fits.
unfoldable pub write : Bytes → ℕ → Bytes → Bytes
write [] offset bs = []
write (o ∷ os) zero [] = o ∷ os
write (o ∷ os) zero (b ∷ bs) = b ∷ write os zero bs
write (o ∷ os) (suc offset) bs = o ∷ write os offset bs

unfoldable pub copy_chunks : Bytes → ℕ → List Bytes → Bytes
unfolding write
copy_chunks output offset [] = output
copy_chunks output offset (bs ∷ rest) =
    copy_chunks (write output offset bs) (offset + length bs) rest

-- What is left in the buffer of a chunk that is no byte view: `zeroizeChunk`.
abbrev pub zeroized_chunk : Chunk → List Bytes
zeroized_chunk (bytes bs) = zeroed bs ∷ []
zeroized_chunk (wide bs) = zeroed bs ∷ []
zeroized_chunk no_buffer = []

-- The loop, with `total` and `chunks`, and the copy behind it.
unfoldable pub read_loop : ℕ → ℕ → List Bytes → Stream → BodyRead
read_loop limit total chunks ended = record {
  outcome = body (copy_chunks (replicate total 0) 0 chunks);
  memory = cleared chunks;
  cancelled = false;
}
read_loop limit total chunks failed = record {
  outcome = read_failed;
  memory = cleared chunks;
  cancelled = false;
}
read_loop limit total chunks (chunk (bytes bs) rest) =
    let more = read_loop limit (total + length bs) (chunks ++ bs ∷ []) rest in
    if ltb limit (total + length bs)
    then record { outcome = too_large; memory = cleared chunks ++ bs ∷ []; cancelled = true }
    else more
read_loop limit total chunks (chunk other rest) = record {
  outcome = not_bytes;
  memory = cleared chunks ++ zeroized_chunk other;
  cancelled = true;
}

-- A request without a body has an empty one.
unfoldable pub read_bounded_body : Option Stream → ℕ → BodyRead
unfolding read_loop
read_bounded_body none limit = record { outcome = body []; memory = []; cancelled = false }
read_bounded_body (some stream) limit = read_loop limit 0 [] stream
