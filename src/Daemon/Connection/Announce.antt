-- ===== src/Daemon/Connection/Announce.antt =====
-- What a streamed write of src/daemon.rs announces to the other clients.
use mobfs.Base.{
  ℕ, zero, suc, ◌+◌, ◌-◌, ◌≤◌, ◌≡◌, refl, sym, ap, subst, ◌∙◌, Bool, true, false, ◌||◌, List, [],
  ◌∷◌, ◌++◌, ◌==◌, ltb, leb, length, arith, Bool-cases, inl, inr, append-nil, append_assoc,
}
use mobfs.Base.Str.{Str}
use mobfs.Error.{Result, ok}
use mobfs.Paths.{FilePath}
use mobfs.Protocol.{Bytes, write}
use mobfs.Disk.{Disk, pure}
use mobfs.Storage.Copy.{>>=-eq-ok}
use mobfs.Daemon.Connection.{
  Channel, stream_announce_bytes, announce, write_frames, write_announced,
}

ok_injective : {A : Type 0} {a b : A} → (Result.ok a) ≡ ok b → a ≡ b
ok_injective h = cc

-- an offset and a length
abbrev pub Ranges : Type 0
Ranges = List (ℕ × ℕ)

-- The ranges follow on one another, from the one offset to the other.
unfoldable pub Covers : ℕ → ℕ → Ranges → Type 0
Covers from to [] = from ≡ to
Covers from to ((offset, len) ∷ ranges) = (offset ≡ from) × Covers (from + len) to ranges

Covers-append :
    (a b c : ℕ) (front back : Ranges)
    → Covers a b front
    → Covers b c back
    → Covers a c (front ++ back)
unfolding Covers
Covers-append a b c [] back h k = subst (λ x. Covers x c back) (sym h) k
Covers-append a b c ((offset, len) ∷ front) back h k =
    (h.0, Covers-append (a + len) b c front back h.1 k)

module _ {D : Type 0} (disk : Disk D) (channel : Channel D) (root : FilePath) (origin : ℕ)
    (rel : Str) (path : FilePath) (offset : ℕ) (announced_of : D → Ranges) where
  -- Only a recorded change is announced.
  pub record AnnounceLaws : Type 0 where
    pub read_keeps : (d : D) → announced_of (channel.read_encrypted d).1 ≡ announced_of d
    pub write_keeps :
        (at : ℕ) (b : Bytes) (d : D) → announced_of (disk.write_at path at b d).1 ≡ announced_of d
    pub record_adds :
        (at len : ℕ) (d : D)
        → announced_of (disk.record_change root origin rel (write at len) d).1
          ≡ announced_of d ++ ((at, len) ∷ [])

  -- what a step has announced, when it leads from one number of announced bytes to another
  Adds : ℕ → ℕ → D → D → Type 0
  Adds from to d d' =
      (added : Ranges) × (announced_of d' ≡ announced_of d ++ added)
      × Covers (offset + from) (offset + to) added

  Adds-trans : (a b c : ℕ) (d d' d'' : D) → Adds a b d d' → Adds b c d' d'' → Adds a c d d''
  unfolding Adds
  Adds-trans a b c d d' d'' (front, e, h) (back, e', h') = (
    front ++ back,
    e' ∙ ap (λ r. r ++ back) e ∙ append_assoc (announced_of d) front back,
    Covers-append (offset + a) (offset + b) (offset + c) front back h h',
  )

  Adds-nil : (a : ℕ) (d d' : D) → announced_of d' ≡ announced_of d → Adds a a d d'
  unfolding Adds Covers
  Adds-nil a d d' e = ([], e ∙ sym (append-nil (announced_of d)), refl)

  module _ (laws : AnnounceLaws) where
    announce_lem :
        (written announced : ℕ) (due : Bool) (d : D) {next : ℕ}
        → announced ≤ written
        → (announce disk channel root origin rel path offset written announced due d).0 ≡ ok next
        → (announced ≤ next)
          × (next ≤ written)
          × (due ≡ true → next ≡ written)
          × (due ≡ false → next ≡ announced)
          × Adds announced next d
              (announce disk channel root origin rel path offset written announced due d).1
    unfolding Covers Adds
    announce_lem written announced true d {next} le h =
        let step =
          >>=-eq-ok
            (disk.record_change root origin rel (write (offset + announced) (written - announced)))
            (λ _. pure written) d h in
        let all : written ≡ next = ok_injective step.2 in
        (
          omega arith,
          omega arith,
          λ _. sym all,
          λ q. cc,
          (
            (offset + announced, written - announced) ∷ [],
            ap (λ (r : Result ℕ × D). announced_of r.1) step.3
                ∙ laws.record_adds (offset + announced) (written - announced) d,
            (refl, omega arith),
          ),
        )
    announce_lem written announced false d {next} le h =
        let none : announced ≡ next = ok_injective h in
        (
          omega arith,
          omega arith,
          λ q. cc,
          λ _. sym none,
          subst (λ x. Adds announced x d d) none (Adds-nil announced d d refl),
        )

    ended :
        (w a len next : ℕ)
        → w ≡ len
        → a ≤ w
        → (ltb a w || len == 0 ≡ true → next ≡ w)
        → (ltb a w || len == 0 ≡ false → next ≡ a)
        → next ≡ len
    ended w a len next all le due rest = elim (Bool-cases (ltb a w || len == 0)) [
      | inl h ↦ due h ∙ all
      | inr h ↦ let short = rest h in ground arith
    ]

    -- the end of the loop
    stopped :
        (written announced len : ℕ) (d : D) (result : Result (ℕ × ℕ)) {w a : ℕ}
        → ltb written len ≡ false
        → announced ≤ written
        → written ≤ len
        → result ≡ ok (written, announced)
        → result ≡ ok (w, a)
        → (w ≡ len) × (a ≤ w) × Adds announced a d d
    stopped written announced len d result {w} {a} q le inside is h =
        let both = ok_injective (sym is ∙ h) in
        let e1 : written ≡ w = ap (λ (x : ℕ × ℕ). x.0) both in
        let e2 : announced ≡ a = ap (λ (x : ℕ × ℕ). x.1) both in
        (
          ground arith,
          omega arith,
          subst (λ x. Adds announced x d d) e2 (Adds-nil announced d d refl),
        )

    frames_lem :
        (rounds written announced len : ℕ) (d : D) {w a : ℕ}
        → announced ≤ written
        → written ≤ len
        → (write_frames disk channel root origin rel path offset rounds written announced len d).0
          ≡ ok (w, a)
        → (w ≡ len)
          × (a ≤ w)
          × Adds announced a d
              (write_frames disk channel root origin rel path offset rounds written announced len
                d).1
    unfolding write_frames
    frames_lem zero written announced len d le inside h = cc
    frames_lem (suc rounds) written announced len d {w} {a} le inside h =
        elim (Bool-cases (ltb written len)) [
          | inr q ↦ rw q (stopped written announced len d _ q le inside refl (rw q at h))
          | inl q ↦
              let run = rw q at h in
              let s1 = >>=-eq-ok channel.read_encrypted _ d run in
              let n = written + length s1.0 in
              let d1 = (channel.read_encrypted d).1 in
              elim (Bool-cases (ltb len n)) [
                | inl t ↦ let failed = rw t at s1.2 in cc
                | inr t ↦
                    let next_run = rw t at s1.2 in
                    let same = rw t at s1.3 in
                    let s2 = >>=-eq-ok (disk.write_at path (offset + written) s1.0) _ d1 next_run in
                    let d2 = (disk.write_at path (offset + written) s1.0 d1).1 in
                    let due = leb stream_announce_bytes (n - announced) in
                    let said = announce disk channel root origin rel path offset n announced due in
                    let s3 = >>=-eq-ok said _ d2 s2.2 in
                    let now = announce_lem n announced due d2 (omega arith) s3.1 in
                    let rest = frames_lem rounds n s3.0 len (said d2).1 now.1 (ground arith) s3.2 in
                    let kept = laws.write_keeps (offset + written) s1.0 d1 ∙ laws.read_keeps d in
                    let front =
                      Adds-trans announced announced s3.0 d d2 (said d2).1
                        (Adds-nil announced d d2 kept) now.4 in
                    let adds =
                      Adds-trans announced s3.0 a d (said d2).1
                        (write_frames disk channel root origin rel path offset rounds n s3.0 len
                          (said d2).1).1
                        front rest.2 in
                    rw q (
                      rest.0,
                      rest.1,
                      subst (λ (p : Result (ℕ × ℕ) × D). Adds announced a d p.1)
                          (sym (same ∙ s2.3 ∙ s3.3)) adds,
                    )
              ]
        ]

    -- When the bytes of a streamed write have all come, the daemon has announced ranges that follow
    -- on one another from the offset of the write to its end.
    pub write_announced-Covers :
        (rounds len : ℕ) (d : D)
        → (write_announced disk channel root origin rel path offset rounds len d).0 ≡ ok tt
        → (added : Ranges) × (announced_of
              (write_announced disk channel root origin rel path offset rounds len d).1
            ≡ announced_of d ++ added)
          × Covers offset (offset + len) added
    unfolding write_announced Adds
    write_announced-Covers rounds len d h =
        let frames = write_frames disk channel root origin rel path offset rounds 0 0 len in
        let s1 = >>=-eq-ok frames _ d h in
        let w = s1.0.0 in
        let a = s1.0.1 in
        let front = frames_lem rounds 0 0 len d (omega arith) (omega arith) s1.1 in
        let d1 = (frames d).1 in
        let due = ltb a w || len == 0 in
        let said = announce disk channel root origin rel path offset w a due in
        let s2 = >>=-eq-ok said _ d1 s1.2 in
        let now = announce_lem w a due d1 front.1 s2.1 in
        let ends : s2.0 ≡ len = ended w a len s2.0 front.0 front.1 now.2 now.3 in
        let total = Adds-trans 0 a s2.0 d d1 (said d1).1 front.2 now.4 in
        let (added, puts, covers) = total in
        (
          added,
          ap (λ (p : Result Unit × D). announced_of p.1) (s1.3 ∙ s2.3) ∙ puts,
          subst (λ x. Covers x (offset + len) added) (omega arith)
              (subst (λ y. Covers (offset + 0) (offset + y) added) ends covers),
        )
