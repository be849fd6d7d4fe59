-- ===== src/Vfs/Uploads/View.antt =====
-- What a file of the mount of src/vfs.rs holds once the uploads in flight have arrived: they
-- are laid over the contents that the daemon has.
use mobfs.Base.{
  ℕ, ◌+◌, ◌≤◌, ◌<◌, ◌≡◌, ◌⊎◌, inl, inr, refl, ◌∙◌, subst, Bool, Bool-cases, true, false, none, some,
  [], ◌∷◌, if◌then◌else◌, length, arith,
}
use mobfs.Base.Str.{Str, str_eq, str_eq_iff}
use mobfs.Base.Order.{nat_ord, eqb, eqb_iff}
use mobfs.Base.Map.{Map, get, insert, remove, IsSorted, Below-get, remove_absent}
use mobfs.Vfs.State.{Upload}
use mobfs.Vfs.Uploads.{overlaps}
use mobfs.Vfs.Uploads.Overlay.{Contents, overlay, overlay_cong, overlay_comm}

abbrev pub laid : Str → Upload → Contents → Contents
laid path u f i = if str_eq u.path path then overlay u.offset u.bytes f i else f i

unfoldable pub inflight_over : Str → Map ℕ Upload → Contents → Contents
inflight_over path [] f = f
inflight_over path ((id, u) ∷ m) f = inflight_over path m (laid path u f)

abbrev pub meets : Upload → Upload → Bool
meets u v = overlaps u.path u.offset u.len v

-- no upload touches the bytes of `u`
abbrev pub Clear : Upload → Map ℕ Upload → Type 0
Clear u [] = Unit
Clear u ((id, v) ∷ m) = (meets u v ≡ false) × Clear u m

-- The numbers in flight have been given out, the lengths are those of the bytes, and no two uploads
-- touch the same bytes.
abbrev pub Sound : ℕ → Map ℕ Upload → Type 0
Sound next [] = Unit
Sound next ((id, u) ∷ m) = (id ≤ next) × (u.len ≡ length u.bytes) × Clear u m × Sound next m

pub meets_sym : (u v : Upload) → meets u v ≡ false → meets v u ≡ false
meets_sym u v h = ground (arith, str_eq_iff u.path v.path, str_eq_iff v.path u.path)

laid_cong :
    (path : Str) (u : Upload) (f g : Contents) (i : ℕ)
    → f i ≡ g i
    → laid path u f i ≡ laid path u g i
laid_cong path u f g i h = ground (arith, overlay_cong u.offset u.bytes f g i)

pub inflight_over_cong :
    (path : Str) (m : Map ℕ Upload) (f g : Contents) (i : ℕ)
    → f i ≡ g i
    → inflight_over path m f i ≡ inflight_over path m g i
unfolding inflight_over
inflight_over_cong path [] f g i h = h
inflight_over_cong path ((id, u) ∷ m) f g i h =
    inflight_over_cong path m (laid path u f) (laid path u g) i (laid_cong path u f g i h)

-- the order of two uploads that do not meet does not matter
apart :
    (u v : Upload)
    → str_eq v.path u.path ≡ true
    → meets u v ≡ false
    → (u.offset + u.len ≤ v.offset) ⊎ (v.offset + v.len ≤ u.offset)
apart u v p h = ground arith

laid_comm :
    (path : Str) (u v : Upload) (f : Contents) (i : ℕ)
    → u.len ≡ length u.bytes
    → v.len ≡ length v.bytes
    → meets u v ≡ false
    → laid path u (laid path v f) i ≡ laid path v (laid path u f) i
laid_comm path u v f i hu hv h = ground (
  arith,
  str_eq_iff u.path path,
  str_eq_iff v.path path,
  str_eq_iff v.path u.path,
  apart u v,
  overlay_comm u.offset u.bytes v.offset v.bytes f i,
  overlay_cong u.offset u.bytes (laid path v f) (overlay v.offset v.bytes f) i,
  overlay_cong v.offset v.bytes (laid path u f) (overlay u.offset u.bytes f) i,
  overlay_cong u.offset u.bytes (laid path v f) f i,
  overlay_cong v.offset v.bytes (laid path u f) f i,
)

Clear-get :
    (u v : Upload) (id : ℕ) (m : Map ℕ Upload) → Clear u m → get m id ≡ some v → meets u v ≡ false
unfolding get
Clear-get u v id [] c h = cc
Clear-get u v id ((j, w) ∷ m) c h = ground (arith, Clear-get u v id m)

Sound-len :
    (next : ℕ) (v : Upload) (id : ℕ) (m : Map ℕ Upload)
    → Sound next m
    → get m id ≡ some v
    → v.len ≡ length v.bytes
unfolding get
Sound-len next v id [] c h = cc
Sound-len next v id ((j, w) ∷ m) c h = ground (arith, Sound-len next v id m)

insert_last :
    (j id : ℕ) (v u : Upload) (m : Map ℕ Upload)
    → j < id
    → insert ((j, v) ∷ m) id u ≡ (j, v) ∷ insert m id u
unfolding insert
insert_last j id v u m h = ground arith

-- An upload that has arrived no longer lies over the contents but in them, whichever it is.
pub inflight_over-remove :
    (path : Str) (next id : ℕ) (u : Upload) (m : Map ℕ Upload) (f : Contents) (i : ℕ)
    → Sound next m
    → IsSorted m
    → get m id ≡ some u
    → inflight_over path (remove m id) (laid path u f) i ≡ inflight_over path m f i
unfolding inflight_over get remove
inflight_over-remove path next id u [] f i s o h = cc
inflight_over-remove path next id u ((j, v) ∷ m) f i s o h = elim (Bool-cases (eqb j id)) [
  | inl e ↦
      let g = rw e at h in
      rw e (
        let same : v ≡ u = cc in
        let j_id : j ≡ id = (eqb_iff j id).0 e in
        let absent : get m id ≡ none = subst (λ k. get m k ≡ none) j_id (Below-get j m o.0) in
        rw (remove_absent m id absent, same) refl)
  | inr n ↦
      let g = rw n at h in
      rw n (
        inflight_over_cong path (remove m id) (laid path v (laid path u f))
          (laid path u (laid path v f)) i
          (laid_comm path v u f i s.1 (Sound-len next u id m s.3 g) (Clear-get v u id m s.2 g))
        ∙ inflight_over-remove path next id u m (laid path v f) i s.3 o.1 g)
]

pub Clear-remove : (u : Upload) (id : ℕ) (m : Map ℕ Upload) → Clear u m → Clear u (remove m id)
unfolding remove
Clear-remove u id [] c = tt
Clear-remove u id ((j, v) ∷ m) c = ground (arith, Clear-remove u id m)

pub Sound-remove : (next id : ℕ) (m : Map ℕ Upload) → Sound next m → Sound next (remove m id)
unfolding remove
Sound-remove next id [] s = tt
Sound-remove next id ((j, v) ∷ m) s = ground (arith, Sound-remove next id m, Clear-remove v id m)

-- A new upload comes last.
pub inflight_over-insert :
    (path : Str) (next : ℕ) (u : Upload) (m : Map ℕ Upload) (f : Contents) (i : ℕ)
    → Sound next m
    → inflight_over path (insert m (next + 1) u) f i ≡ laid path u (inflight_over path m f) i
unfolding inflight_over insert
inflight_over-insert path next u [] f i s = refl
inflight_over-insert path next u ((j, v) ∷ m) f i s =
    rw (insert_last j (next + 1) v u m (omega arith))
      (inflight_over-insert path next u m (laid path v f) i s.3)

pub Clear-insert :
    (u v : Upload) (next id : ℕ) (m : Map ℕ Upload)
    → Sound next m
    → next < id
    → Clear u m
    → meets u v ≡ false
    → Clear u (insert m id v)
unfolding insert
Clear-insert u v next id [] s l c h = (h, tt)
Clear-insert u v next id ((j, w) ∷ m) s l c h =
    rw (insert_last j id w v m (omega arith)) (c.0, Clear-insert u v next id m s.3 l c.1 h)

pub Sound-insert :
    (next : ℕ) (u : Upload) (m : Map ℕ Upload)
    → Sound next m
    → u.len ≡ length u.bytes
    → Clear u m
    → Sound (next + 1) (insert m (next + 1) u)
unfolding insert
Sound-insert next u [] s l c = (omega arith, l, tt, tt)
Sound-insert next u ((j, w) ∷ m) s l c = rw (insert_last j (next + 1) w u m (omega arith)) (
  omega arith,
  s.1,
  Clear-insert w u next (next + 1) m s.3 (omega arith) s.2 (meets_sym u w c.0),
  Sound-insert next u m s.3 l c.1,
)
