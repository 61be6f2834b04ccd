-- ===== src/Base/Compare.antt =====
-- Comparison functions of `Array.prototype.sort`. A comparator returns a number of which only the
-- sign is read; the model returns that sign: `lt` for negative, `eq` for zero, `gt` for positive.
-- So `a - b` is `compare a b`, `c * -1` is `flip c`, and `c || d` is `then_by c d`.
use Prim.Native.Nat.{compare, Ordering}
use Prim.Native.Nat.Ordering.{lt, eq, gt}
use mathlib.Core.Path.{◌≡◌, refl}
use mathlib.Core.Logic.{◌≢◌}
use mathlib.Core.Option.{Option, none, some}
use native.Mathlib.Omega.{arith}

abbrev pub flip : Ordering → Ordering
flip lt = gt
flip eq = eq
flip gt = lt

abbrev pub then_by : Ordering → Ordering → Ordering
then_by lt d = lt
then_by eq d = d
then_by gt d = gt

abbrev pub Comparator {ℓ} : Type ℓ → Type ℓ
Comparator A = A → A → Ordering

-- A comparator that is consistent: a total preorder.
pub record IsOrder {ℓ} {A : Type ℓ} (cmp : Comparator A) : Type ℓ where
  pub anti : (a b : A) → cmp b a ≡ flip (cmp a b)
  pub trans : (a b c : A) → cmp a b ≢ gt → cmp b c ≢ gt → cmp a c ≢ gt

module _ {ℓ} {A : Type ℓ} {cmp : Comparator A} (o : IsOrder cmp) where
  pub IsOrder-refl : (a : A) → cmp a a ≡ eq
  IsOrder-refl a = ground (arith, o.anti a a)

  pub eq-lt_trans : (a b c : A) → cmp a b ≡ eq → cmp b c ≡ lt → cmp a c ≡ lt
  eq-lt_trans a b c p q =
      ground (arith, o.anti a b, o.anti b c, o.anti a c, o.trans a b c, o.trans c a b)

  pub lt_le_trans : (a b c : A) → cmp a b ≡ lt → cmp b c ≢ gt → cmp a c ≡ lt
  lt_le_trans a b c p q =
      ground (arith, o.anti a b, o.anti b c, o.anti a c, o.trans a b c, o.trans b c a)

  pub eq_trans : (a b c : A) → cmp a b ≡ eq → cmp b c ≡ eq → cmp a c ≡ eq
  eq_trans a b c p q =
      ground (arith, o.anti a b, o.anti b c, o.anti a c, o.trans a b c, o.trans c b a)

pub compare-IsOrder : IsOrder compare
compare-IsOrder = record { anti = λ a b. ground arith; trans = λ a b c p q. ground arith }

module _ {ℓ κ} {A : Type ℓ} {B : Type κ} (f : A → B) where
  abbrev pub on : Comparator B → Comparator A
  on cmp a b = cmp (f a) (f b)

  pub on-IsOrder : {cmp : Comparator B} → IsOrder cmp → IsOrder (on cmp)
  on-IsOrder o = record {
    anti = λ a b. o.anti (f a) (f b);
    trans = λ a b c. o.trans (f a) (f b) (f c);
  }

module _ {ℓ} {A : Type ℓ} where
  pub flip-IsOrder : {cmp : Comparator A} → IsOrder cmp → IsOrder (λ a b. flip (cmp a b))
  flip-IsOrder o = record {
    anti = λ a b. ground (arith, o.anti a b);
    trans = λ a b c p q. ground (arith, o.anti a b, o.anti b c, o.anti a c, o.trans c b a);
  }

  pub then_by-IsOrder :
      {c d : Comparator A} → IsOrder c → IsOrder d → IsOrder (λ a b. then_by (c a b) (d a b))
  then_by-IsOrder o p = record {
    anti = λ a b. ground (arith, o.anti a b, p.anti a b);
    trans = λ x y z h k. ground (
      arith,
      o.anti x y,
      o.anti y z,
      o.anti x z,
      eq-lt_trans o x y z,
      lt_le_trans o x y z,
      eq_trans o x y z,
      p.trans x y z,
    );
  }

module _ {ℓ} {A : Type ℓ} where
  pub IsOrder-of_eq : {c d : Comparator A} → ((a b : A) → c a b ≡ d a b) → IsOrder d → IsOrder c
  IsOrder-of_eq e o = record {
    anti = λ a b. rw (e a b, e b a) (o.anti a b);
    trans = λ x y z h k. rw (e x z) (o.trans x y z (rw (e x y) at h) (rw (e y z) at k));
  }

-- A table column: rows by the value of the column, rows without one at the end whatever the
-- direction, ties by a second comparator.
module _ {ℓ κ} {A : Type ℓ} {B : Type κ} where
  abbrev pub both : Comparator B → Comparator A → A → Option B → A → Option B → Ordering
  both c tie a none b none = tie a b
  both c tie a none b (some y) = gt
  both c tie a (some x) b none = lt
  both c tie a (some x) b (some y) = then_by (c x y) (tie a b)

  abbrev pub missing_last : Comparator B → Comparator A → (A → Option B) → Comparator A
  missing_last c tie v a b = both c tie a (v a) b (v b)

  module _ {c : Comparator B} {tie : Comparator A} (o : IsOrder c) (t : IsOrder tie) where
    both_anti : (a b : A) (x y : Option B) → both c tie b y a x ≡ flip (both c tie a x b y)
    both_anti a b none none = t.anti a b
    both_anti a b none (some y) = refl
    both_anti a b (some x) none = refl
    both_anti a b (some x) (some y) = ground (arith, o.anti x y, t.anti a b)

    both_trans :
        (p q r : A) (x y z : Option B)
        → both c tie p x q y ≢ gt
        → both c tie q y r z ≢ gt
        → both c tie p x r z ≢ gt
    both_trans p q r none none none h k = t.trans p q r h k
    both_trans p q r none (some y) z h k = absurd (h refl)
    both_trans p q r none none (some z) h k = absurd (k refl)
    both_trans p q r (some x) none (some z) h k = absurd (k refl)
    both_trans p q r (some x) y none h k = λ e. cc
    both_trans p q r (some x) (some y) (some z) h k = ground (
      arith,
      o.anti x y,
      o.anti y z,
      o.anti x z,
      eq-lt_trans o x y z,
      lt_le_trans o x y z,
      eq_trans o x y z,
      t.trans p q r,
    )

    pub missing_last-IsOrder : (v : A → Option B) → IsOrder (missing_last c tie v)
    missing_last-IsOrder v = record {
      anti = λ a b. both_anti a b (v a) (v b);
      trans = λ p q r. both_trans p q r (v p) (v q) (v r);
    }
