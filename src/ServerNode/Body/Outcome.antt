-- ===== src/ServerNode/Body/Outcome.antt =====
-- When reading yields a body, and what is left in the buffers.
use secure_keyboard.Prelude.{
  ℕ, ◌+◌, ◌≤◌, ◌<◌, ◌≡◌, refl, ap, ◌∙◌, sym, ◌↔◌, inl, inr, Bool-cases, true, false, List, [], ◌∷◌,
  ◌++◌, arith, length, append-nil, append_assoc, Option, none, some, ltb,
}
use secure_keyboard.ServerNode.Body.{
  Bytes, bytes, wide, no_buffer, Stream, ended, failed, chunk, body, too_large, BodyRead, cleared,
  read_loop, read_bounded_body,
}
use secure_keyboard.ServerNode.Body.Copy.{concat, total_length, length-concat, copy_chunks-concat}

-- The stream that yields these byte chunks and goes on as `rest`.
abbrev pub stream_of : List Bytes → Stream → Stream
stream_of [] rest = rest
stream_of (bs ∷ bss) rest = chunk (bytes bs) (stream_of bss rest)

total_length-append :
    (xs ys : List Bytes) → total_length (xs ++ ys) ≡ total_length xs + total_length ys
total_length-append [] ys = omega arith
total_length-append (x ∷ xs) ys = omega (arith, total_length-append xs ys)

ltb-false : (a b : ℕ) → ltb a b ≡ false → b ≤ a
ltb-false a b h = ground arith

more_read :
    (limit : ℕ) (chunks : List Bytes) (bs : Bytes) (rest : Stream)
    → total_length chunks + length bs ≤ limit
    → read_loop limit (total_length chunks) chunks (chunk (bytes bs) rest)
      ≡ read_loop limit (total_length (chunks ++ bs ∷ [])) (chunks ++ bs ∷ []) rest
unfolding read_loop
more_read limit chunks bs rest fits =
    let e : total_length chunks + length bs ≡ total_length (chunks ++ bs ∷ []) =
      omega (arith, total_length-append chunks (bs ∷ [])) in
    rw (← e) (ground arith)

-- Chunks that fit are collected one by one.
pub all_read :
    (limit : ℕ) (bss chunks : List Bytes) (rest : Stream)
    → total_length (chunks ++ bss) ≤ limit
    → read_loop limit (total_length chunks) chunks (stream_of bss rest)
      ≡ read_loop limit (total_length (chunks ++ bss)) (chunks ++ bss) rest
all_read limit [] chunks rest fits = rw (append-nil chunks)
all_read limit (bs ∷ bss) chunks rest fits =
    more_read limit chunks bs (stream_of bss rest)
      (omega (arith, total_length-append chunks (bs ∷ bss)))
    ∙ all_read limit bss (chunks ++ bs ∷ []) rest (rw (append_assoc chunks (bs ∷ []) bss) fits)
    ∙ ap (λ (c : List Bytes). read_loop limit (total_length c) c rest)
        (append_assoc chunks (bs ∷ []) bss)

read_complete :
    (limit : ℕ) (bss : List Bytes)
    → total_length bss ≤ limit
    → read_bounded_body (some (stream_of bss ended)) limit
      ≡ record { outcome = body (concat bss); memory = cleared bss; cancelled = false }
unfolding read_bounded_body
read_complete limit bss fits =
    all_read limit bss [] ended fits
    ∙ ap (λ (c : Bytes). record { outcome = body c; memory = cleared bss; cancelled = false })
        (copy_chunks-concat bss)

-- What a loop that returns a body has read.
pub record HasRead (limit : ℕ) (chunks : List Bytes) (stream : Stream) (bs : Bytes) : Type 0 where
  pub parts : List Bytes
  pub stream_shape : stream ≡ stream_of parts ended
  pub fits : total_length (chunks ++ parts) ≤ limit
  pub joined : bs ≡ concat (chunks ++ parts)

ended_read :
    (limit : ℕ) (chunks : List Bytes) (bs : Bytes)
    → total_length chunks ≤ limit
    → (read_loop limit (total_length chunks) chunks ended).outcome ≡ body bs
    → HasRead limit chunks ended bs
unfolding read_loop
ended_read limit chunks bs fits h = record {
  parts = [];
  stream_shape = refl;
  fits = rw (append-nil chunks) fits;
  joined = rw (append-nil chunks) (cc (copy_chunks-concat chunks));
}

HasRead-chunk :
    (limit : ℕ) (chunks : List Bytes) (cs bs : Bytes) (rest : Stream)
    → HasRead limit (chunks ++ cs ∷ []) rest bs
    → HasRead limit chunks (chunk (bytes cs) rest) bs
HasRead-chunk limit chunks cs bs rest r =
    let e : (chunks ++ cs ∷ []) ++ r.parts ≡ chunks ++ cs ∷ r.parts =
      append_assoc chunks (cs ∷ []) r.parts in
    record {
      parts = cs ∷ r.parts;
      stream_shape = ap (λ (t : Stream). chunk (bytes cs) t) r.stream_shape;
      fits = rw (← e) r.fits;
      joined = r.joined ∙ ap concat e;
    }

pub too_large_read :
    (limit total : ℕ) (chunks : List Bytes) (bs : Bytes) (rest : Stream)
    → limit < total + length bs
    → read_loop limit total chunks (chunk (bytes bs) rest)
      ≡ record { outcome = too_large; memory = cleared chunks ++ bs ∷ []; cancelled = true }
unfolding read_loop
too_large_read limit total chunks bs rest over = ground arith

read_sound :
    (limit : ℕ) (chunks : List Bytes) (stream : Stream) (bs : Bytes)
    → total_length chunks ≤ limit
    → (read_loop limit (total_length chunks) chunks stream).outcome ≡ body bs
    → HasRead limit chunks stream bs
read_sound limit chunks ended bs fits h = ended_read limit chunks bs fits h
read_sound limit chunks failed bs fits h = unfold read_loop in cc
read_sound limit chunks (chunk (bytes cs) rest) bs fits h =
    elim (Bool-cases (ltb limit (total_length chunks + length cs))) [
      | inl over ↦ cc (too_large_read limit (total_length chunks) chunks cs rest (ground arith))
      | inr fine ↦ HasRead-chunk limit chunks cs bs rest (
          read_sound limit (chunks ++ cs ∷ []) rest bs
            (omega (
              arith,
              total_length-append chunks (cs ∷ []),
              ltb-false limit (total_length chunks + length cs) fine,
            ))
            (ap (λ (r : BodyRead). r.outcome)
                (sym (
                  more_read limit chunks cs rest
                    (ltb-false limit (total_length chunks + length cs) fine)))
              ∙ h))
    ]
read_sound limit chunks (chunk (wide cs) rest) bs fits h = unfold read_loop in cc
read_sound limit chunks (chunk no_buffer rest) bs fits h = unfold read_loop in cc

-- Reading a stream yields a body exactly when the stream is a sequence of byte chunks that ends and
-- whose total length is within the limit; the body is then their concatenation.
pub read_body_iff :
    (stream : Stream) (limit : ℕ) (bs : Bytes)
    → ((read_bounded_body (some stream) limit).outcome ≡ body bs) ↔ HasRead limit [] stream bs
read_body_iff stream limit bs = (
  λ h. read_sound limit [] stream bs (omega arith) (unfold read_bounded_body in h),
  λ r.
      rw (r.stream_shape, r.joined)
        (ap (λ (x : BodyRead). x.outcome) (read_complete limit r.parts r.fits)),
)

-- A body that was read is no longer than the limit.
pub length-body-le :
    (stream : Option Stream) (limit : ℕ) (bs : Bytes)
    → (read_bounded_body stream limit).outcome ≡ body bs
    → length bs ≤ limit
length-body-le none limit bs h =
    let e : [] ≡ bs = unfold read_bounded_body in cc in rw (← e) (omega arith)
length-body-le (some stream) limit bs h =
    let r = (read_body_iff stream limit bs).0 h in
    rw r.joined (omega (arith, length-concat r.parts, r.fits))
