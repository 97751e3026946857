-- ===== src/ServerNode/Body/Copy.antt =====
-- The copy of the chunks into one buffer is their concatenation.
use secure_keyboard.Prelude.{
  ℕ, zero, suc, ◌+◌, ◌≡◌, refl, ap, ◌∙◌, sym, List, [], ◌∷◌, ◌++◌, arith, length, length-append,
  replicate, append_assoc,
}
use native.Mathlib.Nat.{zero-add, suc-add}
use secure_keyboard.ServerNode.Body.{Bytes, write, copy_chunks}

pub concat : List Bytes → Bytes
concat [] = []
concat (bs ∷ rest) = bs ++ concat rest

abbrev pub total_length : List Bytes → ℕ
total_length [] = 0
total_length (bs ∷ rest) = length bs + total_length rest

pub length-concat : (chunks : List Bytes) → length (concat chunks) ≡ total_length chunks
unfolding concat
length-concat [] = refl
length-concat (bs ∷ rest) = omega (arith, length-append {0} bs (concat rest), length-concat rest)

write_here : (bs tail : Bytes) → write (replicate (length bs) 0 ++ tail) 0 bs ≡ bs ++ tail
unfolding write
write_here [] [] = refl
write_here [] (t ∷ tail) = refl
write_here (b ∷ bs) tail = ap (λ (t : Bytes). b ∷ t) (write_here bs tail)

replicate-add : (m n : ℕ) → replicate {A = ℕ} (m + n) 0 ≡ replicate m 0 ++ replicate n 0
replicate-add zero n = rw zero-add
replicate-add (suc m) n = rw suc-add (ap (λ (t : Bytes). 0 ∷ t) (replicate-add m n))

write_behind :
    (done blank bs : Bytes) → write (done ++ blank) (length done) bs ≡ done ++ write blank 0 bs
unfolding write
write_behind [] blank bs = refl
write_behind (d ∷ done) blank bs = ap (λ (t : Bytes). d ∷ t) (write_behind done blank bs)

copy_from :
    (chunks : List Bytes) (done : Bytes)
    → copy_chunks (done ++ replicate (total_length chunks) 0) (length done) chunks
      ≡ done ++ concat chunks
unfolding copy_chunks concat
copy_from [] done = refl
copy_from (bs ∷ rest) done =
    let step : write (done ++ replicate (length bs + total_length rest) 0) (length done) bs
        ≡ (done ++ bs) ++ replicate (total_length rest) 0 =
      rw replicate-add (
        write_behind done (replicate (length bs) 0 ++ replicate (total_length rest) 0) bs
        ∙ ap (λ (t : Bytes). done ++ t) (write_here bs (replicate (total_length rest) 0))
        ∙ sym (append_assoc done bs (replicate (total_length rest) 0))) in
    rw step (
      rw (← length-append done bs) (copy_from rest (done ++ bs))
      ∙ append_assoc done bs (concat rest))

-- Copying the chunks one behind the other into a buffer of their total length concatenates them.
pub copy_chunks-concat :
    (chunks : List Bytes) → copy_chunks (replicate (total_length chunks) 0) 0 chunks ≡ concat chunks
copy_chunks-concat chunks = copy_from chunks []
