-- ===== src/Vfs/Reads/Slices.antt =====
-- Slices of a file and of its blocks, as the loop of `read` of src/vfs.rs cuts them.
use mobfs.Base.{
  ℕ, zero, suc, ◌+◌, ◌-◌, ◌≤◌, ◌<◌, min, max, ◌≡◌, refl, sym, ap, ◌∙◌, [], ◌∷◌, ◌++◌, append-nil,
  length, take, drop, length-take, length-drop, ◌⊎◌, inl, inr, arith,
}
use native.Mathlib.Decide.{dec_lt}
use mobfs.Protocol.{Bytes}
use mobfs.Vfs.Reads.{slice}

take_nil : (n : ℕ) → take {A = ℕ} n [] ≡ []
take_nil zero = refl
take_nil (suc n) = refl

drop_nil : (n : ℕ) → drop {A = ℕ} n [] ≡ []
drop_nil zero = refl
drop_nil (suc n) = refl

take_by : (n m : ℕ) (xs : Bytes) → n ≡ m → take n xs ≡ take m xs
take_by n m xs e = ap (λ k. take k xs) e

drop_by : (n m : ℕ) (xs : Bytes) → n ≡ m → drop n xs ≡ drop m xs
drop_by n m xs e = ap (λ k. drop k xs) e

take-take : (n m : ℕ) (xs : Bytes) → take n (take m xs) ≡ take (min n m) xs
take-take zero m xs = take_by 0 (min 0 m) xs (omega arith)
take-take (suc n) zero xs = take_by 0 (min (suc n) 0) xs (omega arith)
take-take (suc n) (suc m) [] = sym (take_nil _)
take-take (suc n) (suc m) (x ∷ xs) =
    ap (λ r. x ∷ r) (take-take n m xs)
    ∙ take_by (suc (min n m)) (min (suc n) (suc m)) (x ∷ xs) (omega arith)

drop-take : (n m : ℕ) (xs : Bytes) → drop n (take m xs) ≡ take (m - n) (drop n xs)
drop-take zero m xs = take_by m (m - 0) xs (omega arith)
drop-take (suc n) zero xs = take_by 0 (0 - suc n) (drop (suc n) xs) (omega arith)
drop-take (suc n) (suc m) [] = sym (take_nil _)
drop-take (suc n) (suc m) (x ∷ xs) =
    drop-take n m xs ∙ take_by (m - n) (suc m - suc n) (drop n xs) (omega arith)

pub drop-drop : (n m : ℕ) (xs : Bytes) → drop n (drop m xs) ≡ drop (m + n) xs
drop-drop n zero xs = drop_by n (0 + n) xs (omega arith)
drop-drop n (suc m) [] = drop_nil n ∙ sym (drop_nil _)
drop-drop n (suc m) (x ∷ xs) =
    drop-drop n m xs ∙ drop_by (suc (m + n)) (suc m + n) (x ∷ xs) (omega arith)

take-add : (n m : ℕ) (xs : Bytes) → take (n + m) xs ≡ take n xs ++ take m (drop n xs)
take-add zero m xs = take_by (0 + m) m xs (omega arith)
take-add (suc n) m [] = take_nil _ ∙ sym (take_nil m)
take-add (suc n) m (x ∷ xs) =
    take_by (suc n + m) (suc (n + m)) (x ∷ xs) (omega arith) ∙ ap (λ r. x ∷ r) (take-add n m xs)

take_all : (n : ℕ) (xs : Bytes) → length xs ≤ n → take n xs ≡ xs
take_all zero [] h = refl
take_all zero (x ∷ xs) h = absurd (omega arith)
take_all (suc n) [] h = refl
take_all (suc n) (x ∷ xs) h = ap (λ r. x ∷ r) (take_all n xs (omega arith))

-- a longer piece is the same where the text ends before both
pub take_enough :
    (n m : ℕ) (xs : Bytes) → (n ≡ m) ⊎ ((length xs ≤ n) × (length xs ≤ m)) → take n xs ≡ take m xs
take_enough n m xs (inl e) = ap (λ k. take k xs) e
take_enough n m xs (inr h) = take_all n xs h.0 ∙ sym (take_all m xs h.1)

-- A part of a block is a part of the file, cut off where the block ends.
slice-block :
    (xs : Bytes) (size start from to : ℕ)
    → slice from to (take size (drop start xs))
      ≡ take (min (to - from) (size - from)) (drop (start + from) xs)
slice-block xs size start from to =
    ap (take (to - from))
      (drop-take from size (drop start xs) ∙ ap (take (size - from)) (drop-drop from start xs))
    ∙ take-take (to - from) (size - from) (drop (start + from) xs)

counted :
    (size start offset a z : ℕ)
    → offset ≤ a
    → start ≤ a
    → a ≤ z
    → z ≤ start + size
    → (a - offset) + min ((z - start) - (a - start)) (size - (a - start)) ≡ z - offset
counted size start offset a z p q r t = omega arith

-- the count of bytes where the block goes on beyond the part
whole_count :
    (size start offset end len : ℕ)
    → max offset start < end
    → offset ≤ start + size
    → ¬ (len < min end (start + size) - start)
    → (min end (max offset start) - offset)
        + min
            (min (min end (start + size) - start) len - (max offset start - start))
            (size - (max offset start - start))
      ≡ min end (max offset (start + size)) - offset
whole_count size start offset end len h near whole =
    let e1 : min (min end (start + size) - start) len ≡ min end (start + size) - start =
      omega arith in
    let e2 : min end (max offset start) ≡ max offset start = omega arith in
    let e3 : max offset (start + size) ≡ start + size = omega arith in
    rw (e1, e2, e3)
      (counted size start offset (max offset start) (min end (start + size)) (omega arith)
        (omega arith) (omega arith) (omega arith))

-- What has been read up to a block, and the part of the block that is asked for, are what is read
-- up to the next block.
pub slice-next :
    (xs : Bytes) (size start offset end : ℕ)
    → offset ≤ end
    → offset ≤ start + size
    → take (min end (max offset start) - offset) (drop offset xs)
        ++ slice
            (max offset start - start)
            (min (min end (start + size) - start) (length (take size (drop start xs))))
            (take size (drop start xs))
      ≡ take (min end (max offset (start + size)) - offset) (drop offset xs)
slice-next xs size start offset end le near =
    let a = max offset start in
    let to = min (min end (start + size) - start) (length (take size (drop start xs))) in
    let m = min (to - (a - start)) (size - (a - start)) in
    let p = min end a - offset in
    let p' = min end (max offset (start + size)) - offset in
    let l1 = length-take size (drop start xs) in
    let l2 = length-drop start xs in
    let l3 = length-drop offset xs in
    let cut = slice-block xs size start (a - start) to in
    elim (dec_lt a end) [
      | yes h ↦
          ap (λ r. take p (drop offset xs) ++ r)
            (cut
              ∙ ap (take m) (
                  drop_by (start + (a - start)) (offset + p) xs (omega arith)
                  ∙ sym (drop-drop p offset xs)))
          ∙ sym (take-add p m (drop offset xs))
          ∙ (elim (dec_lt (length (take size (drop start xs))) (min end (start + size) - start)) [
            | yes short ↦ take_enough (p + m) p' (drop offset xs) (inr (omega arith, omega arith))
            | no whole ↦ take_enough (p + m) p' (drop offset xs) (
                inl (
                  whole_count size start offset end (length (take size (drop start xs))) h near
                    whole))
          ])
      | no h ↦
          ap (λ r. take p (drop offset xs) ++ r)
            (cut ∙ take_by m 0 (drop (start + (a - start)) xs) (omega arith))
          ∙ append-nil (take p (drop offset xs))
          ∙ take_by p p' (drop offset xs) (omega arith)
    ]
