-- ===== src/Base/Order.antt =====
-- A total order by its comparison, as `Ord` in Rust, for numbers, lists and pairs.
use Prim.Native.Nat.{ℕ, Ordering, compare}
use mathlib.Core.Path.{◌≡◌, refl}
use mathlib.Core.Logic.{◌↔◌}
use mathlib.Core.Bool.{Bool, true, false}
use mathlib.Core.List.{List, [], ◌∷◌}
use native.Mathlib.Omega.{arith}

pub record Ord {ℓ} (A : Type ℓ) : Type ℓ where
  pub cmp : A → A → Ordering
  pub cmp_eq : (a b : A) → (cmp a b ≡ Ordering.eq) ↔ (a ≡ b)
  pub cmp_gt : (a b : A) → cmp a b ≡ Ordering.gt → cmp b a ≡ Ordering.lt
  pub cmp_trans :
      (a b c : A) → cmp a b ≡ Ordering.lt → cmp b c ≡ Ordering.lt → cmp a c ≡ Ordering.lt

abbrev pub is_eq : Ordering → Bool
is_eq Ordering.eq = true
is_eq _ = false

abbrev pub is_lt : Ordering → Bool
is_lt Ordering.lt = true
is_lt _ = false

module _ {ℓ} {A : Type ℓ} ⦃o : Ord A⦄ where
  -- `==` of the type
  abbrev pub eqb : A → A → Bool
  eqb a b = is_eq (o.cmp a b)

  pub eqb_iff : (a b : A) → (eqb a b ≡ true) ↔ (a ≡ b)
  eqb_iff a b = ground (arith, o.cmp_eq a b)

  pub eqb_refl : (a : A) → eqb a a ≡ true
  eqb_refl a = (eqb_iff a a).1 refl

  pub cmp_irrefl : (a : A) → o.cmp a a ≡ Ordering.eq
  cmp_irrefl a = (o.cmp_eq a a).1 refl

  pub cmp_lt_asymm : (a b : A) → o.cmp a b ≡ Ordering.lt → o.cmp b a ≡ Ordering.gt
  cmp_lt_asymm a b h = ground (arith, o.cmp_eq b a, o.cmp_eq a a, o.cmp_trans a b a, o.cmp_eq a b)

-- numbers
pub ℕ-cmp_eq : (a b : ℕ) → (compare a b ≡ Ordering.eq) ↔ (a ≡ b)
ℕ-cmp_eq a b = ground arith

pub ℕ-cmp_gt : (a b : ℕ) → compare a b ≡ Ordering.gt → compare b a ≡ Ordering.lt
ℕ-cmp_gt a b h = ground arith

pub ℕ-cmp_trans :
    (a b c : ℕ) → compare a b ≡ Ordering.lt → compare b c ≡ Ordering.lt → compare a c ≡ Ordering.lt
ℕ-cmp_trans a b c h k = ground arith

instance abbrev pub nat_ord : Ord ℕ
nat_ord = record { cmp = compare; cmp_eq = ℕ-cmp_eq; cmp_gt = ℕ-cmp_gt; cmp_trans = ℕ-cmp_trans }

-- the second comparison decides where the first finds no difference
abbrev pub then_cmp : Ordering → Ordering → Ordering
then_cmp Ordering.lt q = Ordering.lt
then_cmp Ordering.eq q = q
then_cmp Ordering.gt q = Ordering.gt

-- lists, in lexicographic order
module _ {ℓ} {A : Type ℓ} ⦃o : Ord A⦄ where
  unfoldable pub list_cmp : List A → List A → Ordering
  list_cmp [] [] = Ordering.eq
  list_cmp [] (y ∷ ys) = Ordering.lt
  list_cmp (x ∷ xs) [] = Ordering.gt
  list_cmp (x ∷ xs) (y ∷ ys) = then_cmp (o.cmp x y) (list_cmp xs ys)

  pub list_cmp_eq : (a b : List A) → (list_cmp a b ≡ Ordering.eq) ↔ (a ≡ b)
  unfolding list_cmp
  list_cmp_eq [] [] = (λ _. refl, λ _. refl)
  list_cmp_eq [] (y ∷ ys) = (λ h. cc, λ h. cc)
  list_cmp_eq (x ∷ xs) [] = (λ h. cc, λ h. cc)
  list_cmp_eq (x ∷ xs) (y ∷ ys) = ground (arith, list_cmp_eq xs ys, o.cmp_eq x y)

  pub list_cmp_gt : (a b : List A) → list_cmp a b ≡ Ordering.gt → list_cmp b a ≡ Ordering.lt
  unfolding list_cmp
  list_cmp_gt [] [] h = cc
  list_cmp_gt [] (y ∷ ys) h = cc
  list_cmp_gt (x ∷ xs) [] h = refl
  list_cmp_gt (x ∷ xs) (y ∷ ys) h =
      ground (arith, list_cmp_gt xs ys, o.cmp_eq x y, o.cmp_gt x y, o.cmp_eq y x)

  pub list_cmp_trans :
      (a b c : List A)
      → list_cmp a b ≡ Ordering.lt
      → list_cmp b c ≡ Ordering.lt
      → list_cmp a c ≡ Ordering.lt
  unfolding list_cmp
  list_cmp_trans [] b [] h k = ground (arith, list_cmp_gt b [])
  list_cmp_trans [] b (z ∷ zs) h k = refl
  list_cmp_trans (x ∷ xs) [] c h k = cc
  list_cmp_trans (x ∷ xs) (y ∷ ys) [] h k = cc
  list_cmp_trans (x ∷ xs) (y ∷ ys) (z ∷ zs) h k =
      ground (
        arith,
        list_cmp_trans xs ys zs,
        o.cmp_eq x y,
        o.cmp_eq y z,
        o.cmp_eq x z,
        o.cmp_trans x y z,
      )

  instance abbrev pub list_ord : Ord (List A)
  list_ord = record {
    cmp = list_cmp;
    cmp_eq = list_cmp_eq;
    cmp_gt = list_cmp_gt;
    cmp_trans = list_cmp_trans;
  }

-- pairs, the first component first
module _ {ℓ κ} {A : Type ℓ} {B : Type κ} ⦃o : Ord A⦄ ⦃p : Ord B⦄ where
  abbrev pub pair_cmp : A × B → A × B → Ordering
  pair_cmp a b = then_cmp (o.cmp a.0 b.0) (p.cmp a.1 b.1)

  pub pair_cmp_eq : (a b : A × B) → (pair_cmp a b ≡ Ordering.eq) ↔ (a ≡ b)
  pair_cmp_eq (a, b) (c, d) = ground (arith, o.cmp_eq a c, p.cmp_eq b d)

  pub pair_cmp_gt : (a b : A × B) → pair_cmp a b ≡ Ordering.gt → pair_cmp b a ≡ Ordering.lt
  pair_cmp_gt (a, b) (c, d) h =
      ground (arith, o.cmp_eq a c, o.cmp_eq c a, o.cmp_gt a c, p.cmp_gt b d)

  pub pair_cmp_trans :
      (a b c : A × B)
      → pair_cmp a b ≡ Ordering.lt
      → pair_cmp b c ≡ Ordering.lt
      → pair_cmp a c ≡ Ordering.lt
  pair_cmp_trans (a, b) (c, d) (e, f) h k =
      ground (arith, o.cmp_eq a c, o.cmp_eq c e, o.cmp_eq a e, o.cmp_trans a c e, p.cmp_trans b d f)

  instance abbrev pub pair_ord : Ord (A × B)
  pair_ord = record {
    cmp = pair_cmp;
    cmp_eq = pair_cmp_eq;
    cmp_gt = pair_cmp_gt;
    cmp_trans = pair_cmp_trans;
  }
