-- ===== src/Base/Str.antt =====
-- Texts as lists of bytes (Rust's `str` is UTF-8), with the searches of `str` that the program uses.
use Prim.Native.Nat.{ℕ}
use Prim.Native.Char.{code}
use Prim.Native.String.{String}
use mathlib.Core.Path.{◌≡◌, refl, ◌∙◌}
use mathlib.Core.Logic.{◌↔◌, ◌≢◌, inl, inr}
use mathlib.Core.Bool.{Bool, true, false, ◌&&◌, ◌||◌}
use mathlib.Core.Option.{Option, none, some}
use mathlib.Core.List.{List, [], ◌∷◌, ◌++◌}
use native.Mathlib.Omega.{arith}
use mobfs.Base.Tests.{◌==◌, if◌then◌else◌, Bool-cases, ==_iff}

abbrev pub Str : Type 0
Str = List ℕ

-- The bytes of an ASCII literal. `String` has its own `[]` and `∷`.
abbrev pub codes : String → Str
codes String.[] = []
codes (String.◌∷◌ c s) = code c ∷ codes s

-- `s == t`, by bytes
unfoldable pub str_eq : Str → Str → Bool
str_eq [] [] = true
str_eq [] (d ∷ t) = false
str_eq (c ∷ s) [] = false
str_eq (c ∷ s) (d ∷ t) = (c == d) && str_eq s t

-- s.starts_with(p)
unfoldable pub starts_with : Str → Str → Bool
starts_with s [] = true
starts_with [] (d ∷ p) = false
starts_with (c ∷ s) (d ∷ p) = (c == d) && starts_with s p

-- s.strip_prefix(p)
unfoldable pub strip_prefix : Str → Str → Option Str
strip_prefix s [] = some s
strip_prefix [] (d ∷ p) = none
strip_prefix (c ∷ s) (d ∷ p) = let rest = strip_prefix s p in if c == d then rest else none

-- s.contains(needle)
unfoldable pub contains : Str → Str → Bool
contains [] needle = starts_with [] needle
contains (c ∷ s) needle = starts_with (c ∷ s) needle || contains s needle

-- s.contains(c)
unfoldable pub contains_char : ℕ → Str → Bool
contains_char c [] = false
contains_char c (d ∷ s) = (d == c) || contains_char c s

abbrev pub glue : ℕ → List Str → List Str
glue c [] = (c ∷ []) ∷ []
glue c (part ∷ parts) = (c ∷ part) ∷ parts

-- s.split(sep): there is always a first part, which may be empty
unfoldable pub split : ℕ → Str → List Str
split sep [] = [] ∷ []
split sep (c ∷ s) = let parts = split sep s in if c == sep then [] ∷ parts else glue c parts

-- parts.join(sep)
unfoldable pub join : ℕ → List Str → Str
join sep [] = []
join sep (part ∷ []) = part
join sep (part ∷ (next ∷ parts)) = part ++ sep ∷ join sep (next ∷ parts)

abbrev pub on_first : ℕ → Option (Str × Str) → Option (Str × Str)
on_first c none = none
on_first c (some (a, b)) = some (c ∷ a, b)

-- s.split_once(sep)
unfoldable pub split_once : ℕ → Str → Option (Str × Str)
split_once sep [] = none
split_once sep (c ∷ s) =
    let rest = split_once sep s in if c == sep then some ([], s) else on_first c rest

abbrev pub or_first : Option (Str × Str) → Bool → Str → Option (Str × Str)
or_first none true s = some ([], s)
or_first none false s = none
or_first (some p) _ s = some p

-- s.rsplit_once(sep): the last separator
unfoldable pub rsplit_once : ℕ → Str → Option (Str × Str)
rsplit_once sep [] = none
rsplit_once sep (c ∷ s) = or_first (on_first c (rsplit_once sep s)) (c == sep) s

pub str_eq_iff : (s t : Str) → (str_eq s t ≡ true) ↔ (s ≡ t)
unfolding str_eq
str_eq_iff [] [] = (λ _. refl, λ _. refl)
str_eq_iff [] (d ∷ t) = (λ h. cc, λ h. cc)
str_eq_iff (c ∷ s) [] = (λ h. cc, λ h. cc)
str_eq_iff (c ∷ s) (d ∷ t) = ground (arith, str_eq_iff s t)

pub starts_with-append : (p r : Str) → starts_with (p ++ r) p ≡ true
unfolding starts_with
starts_with-append [] [] = refl
starts_with-append [] (c ∷ r) = refl
starts_with-append (c ∷ p) r = ground (arith, starts_with-append p r)

-- What `strip_prefix` leaves is what follows the prefix.
pub strip_prefix_iff : (s p r : Str) → (strip_prefix s p ≡ some r) ↔ (s ≡ p ++ r)
unfolding strip_prefix
strip_prefix_iff [] [] r = ground arith
strip_prefix_iff (c ∷ s) [] r = ground arith
strip_prefix_iff [] (d ∷ p) r = ground arith
strip_prefix_iff (c ∷ s) (d ∷ p) r = ground (arith, strip_prefix_iff s p r)

pub starts_with-drop : (s p : Str) → starts_with s p ≡ true → (r : Str) × (s ≡ p ++ r)
unfolding starts_with
starts_with-drop [] [] h = ([], refl)
starts_with-drop (c ∷ s) [] h = (c ∷ s, refl)
starts_with-drop [] (d ∷ p) h = absurd (cc)
starts_with-drop (c ∷ s) (d ∷ p) h =
    let (r, e) = starts_with-drop s p (ground arith) in (r, ground arith)

-- A split at the first separator: the first part has none.
pub split_once_lem :
    (sep : ℕ) (a b : Str)
    → contains_char sep a ≡ false
    → split_once sep (a ++ sep ∷ b) ≡ some (a, b)
unfolding split_once contains_char
split_once_lem sep [] b h = ground arith
split_once_lem sep (c ∷ a) b h = ground (arith, split_once_lem sep a b)

-- A split at the last separator: the second part has none.
pub rsplit_once-none : (sep : ℕ) (s : Str) → contains_char sep s ≡ false → rsplit_once sep s ≡ none
unfolding rsplit_once contains_char
rsplit_once-none sep [] h = refl
rsplit_once-none sep (c ∷ s) h = ground (arith, rsplit_once-none sep s)

pub rsplit_once_lem :
    (sep : ℕ) (a b : Str)
    → contains_char sep b ≡ false
    → rsplit_once sep (a ++ sep ∷ b) ≡ some (a, b)
unfolding rsplit_once
rsplit_once_lem sep [] b h = ground (arith, rsplit_once-none sep b h)
rsplit_once_lem sep (c ∷ a) b h = ground (arith, rsplit_once_lem sep a b h)

split-cons : (sep : ℕ) (s : Str) → (p : Str) × (ps : List Str) × (split sep s ≡ p ∷ ps)
unfolding split
split-cons sep [] = ([], [], refl)
split-cons sep (c ∷ s) =
    let (p, ps, e) = split-cons sep s in
    elim (Bool-cases (c == sep)) [
      | inl h ↦ ([], split sep s, rw h)
      | inr h ↦ (c ∷ p, ps, rw (h, e))
    ]

split_at : (sep c : ℕ) (s : Str) → (c == sep) ≡ true → split sep (c ∷ s) ≡ [] ∷ split sep s
unfolding split
split_at sep c s h = rw h

split_in : (sep c : ℕ) (s : Str) → (c == sep) ≡ false → split sep (c ∷ s) ≡ glue c (split sep s)
unfolding split
split_in sep c s h = rw h

join-nil : (sep : ℕ) (parts : List Str) → parts ≢ [] → join sep ([] ∷ parts) ≡ sep ∷ join sep parts
unfolding join
join-nil sep [] h = absurd (h refl)
join-nil sep (p ∷ ps) h = refl

join-glue : (sep c : ℕ) (p : Str) (ps : List Str) → join sep ((c ∷ p) ∷ ps) ≡ c ∷ join sep (p ∷ ps)
unfolding join
join-glue sep c p [] = refl
join-glue sep c p (q ∷ ps) = refl

-- Joining what was split gives the text back.
pub join-split : (sep : ℕ) (s : Str) → join sep (split sep s) ≡ s
join-split sep [] = unfold join split in refl
join-split sep (c ∷ s) =
    let (p, ps, e) = split-cons sep s in
    elim (Bool-cases (c == sep)) [
      | inl h ↦
          rw (split_at sep c s h)
            (join-nil sep (split sep s) (λ q. cc) ∙ cc (join-split sep s, (==_iff c sep).0 h))
      | inr h ↦ rw (split_in sep c s h, e) (join-glue sep c p ps ∙ cc (join-split sep s))
    ]

glue-append : (c : ℕ) (xs ys : List Str) → xs ≢ [] → glue c (xs ++ ys) ≡ glue c xs ++ ys
glue-append c [] ys h = absurd (h refl)
glue-append c (x ∷ xs) ys h = refl

split_nil : (sep : ℕ) (b : Str) → [] ∷ split sep b ≡ split sep [] ++ split sep b
unfolding split
split_nil sep b = refl

-- Splitting at a separator in between splits both sides.
pub split-append : (sep : ℕ) (a b : Str) → split sep (a ++ (sep ∷ b)) ≡ split sep a ++ split sep b
split-append sep [] b = split_at sep sep b ((==_iff sep sep).1 refl) ∙ split_nil sep b
split-append sep (c ∷ a) b = elim (Bool-cases (c == sep)) [
  | inl h ↦ rw (split_at sep c (a ++ (sep ∷ b)) h, split_at sep c a h, split-append sep a b)
  | inr h ↦
      let (p, ps, e) = split-cons sep a in
      rw (split_in sep c (a ++ (sep ∷ b)) h, split_in sep c a h, split-append sep a b)
        (glue-append c (split sep a) (split sep b) (λ q. cc))
]

-- A text with no separator is its only part.
pub split_whole : (sep : ℕ) (s : Str) → contains_char sep s ≡ false → split sep s ≡ s ∷ []
unfolding split contains_char
split_whole sep [] h = refl
split_whole sep (c ∷ s) h = ground (arith, split_whole sep s)
