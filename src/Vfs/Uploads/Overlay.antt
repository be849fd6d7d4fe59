-- ===== src/Vfs/Uploads/Overlay.antt =====
-- The contents of a file as its bytes by offset, and bytes written over them at an offset. Stands
-- for what the writes of src/vfs.rs mean.
use mobfs.Base.{
  ℕ, suc, ◌+◌, ◌≤◌, ◌<◌, ◌⊎◌, ◌≡◌, refl, [], ◌∷◌, ◌++◌, ◌==◌, if◌then◌else◌, length, arith,
}
use mobfs.Protocol.{Bytes}

-- the byte at each offset
abbrev pub Contents : Type 0
Contents = ℕ → ℕ

unfoldable pub overlay : ℕ → Bytes → Contents → Contents
overlay offset [] f i = f i
overlay offset (b ∷ bytes) f i =
    let rest = overlay (offset + 1) bytes f i in if i == offset then b else rest

-- outside of the bytes written, the contents are as before
pub overlay_before :
    (offset : ℕ) (bytes : Bytes) (f : Contents) (i : ℕ)
    → i < offset
    → overlay offset bytes f i ≡ f i
unfolding overlay
overlay_before offset [] f i h = refl
overlay_before offset (b ∷ bytes) f i h = ground (arith, overlay_before (offset + 1) bytes f i)

pub overlay_after :
    (offset : ℕ) (bytes : Bytes) (f : Contents) (i : ℕ)
    → offset + length bytes ≤ i
    → overlay offset bytes f i ≡ f i
unfolding overlay
overlay_after offset [] f i h = refl
overlay_after offset (b ∷ bytes) f i h = ground (arith, overlay_after (offset + 1) bytes f i)

-- inside, they do not matter
pub overlay_inside :
    (offset : ℕ) (bytes : Bytes) (f g : Contents) (i : ℕ)
    → offset ≤ i
    → i < offset + length bytes
    → overlay offset bytes f i ≡ overlay offset bytes g i
unfolding overlay
overlay_inside offset [] f g i h k = absurd (omega arith)
overlay_inside offset (b ∷ bytes) f g i h k =
    ground (arith, overlay_inside (offset + 1) bytes f g i)

pub overlay_cong :
    (offset : ℕ) (bytes : Bytes) (f g : Contents) (i : ℕ)
    → f i ≡ g i
    → overlay offset bytes f i ≡ overlay offset bytes g i
unfolding overlay
overlay_cong offset [] f g i h = h
overlay_cong offset (b ∷ bytes) f g i h = ground (arith, overlay_cong (offset + 1) bytes f g i)

pub overlay-append :
    (offset : ℕ) (xs ys : Bytes) (f : Contents) (i : ℕ)
    → overlay offset (xs ++ ys) f i ≡ overlay (offset + length xs) ys (overlay offset xs f) i
unfolding overlay
overlay-append offset [] ys f i =
    let e : offset + 0 ≡ offset = omega arith in
    rw e (overlay_cong offset ys f (overlay offset [] f) i refl)
overlay-append offset (x ∷ xs) ys f i =
    let e : offset + suc (length xs) ≡ (offset + 1) + length xs = omega arith in
    rw e (
      ground (
        arith,
        overlay_before (offset + 1 + length xs) ys (overlay offset (x ∷ xs) f) i,
        overlay-append (offset + 1) xs ys f i,
        overlay_cong (offset + 1 + length xs) ys (overlay (offset + 1) xs f)
            (overlay offset (x ∷ xs) f) i,
      ))

-- two pieces that do not meet can be written in either order
pub overlay_comm :
    (o : ℕ) (xs : Bytes) (p : ℕ) (ys : Bytes) (f : Contents) (i : ℕ)
    → (o + length xs ≤ p) ⊎ (p + length ys ≤ o)
    → overlay o xs (overlay p ys f) i ≡ overlay p ys (overlay o xs f) i
overlay_comm o xs p ys f i h = ground (
  arith,
  overlay_before o xs (overlay p ys f) i,
  overlay_after o xs (overlay p ys f) i,
  overlay_before o xs f i,
  overlay_after o xs f i,
  overlay_inside o xs (overlay p ys f) f i,
  overlay_before p ys (overlay o xs f) i,
  overlay_after p ys (overlay o xs f) i,
  overlay_cong p ys (overlay o xs f) f i,
)
