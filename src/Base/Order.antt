-- ===== src/Base/Order.antt =====
-- `Ord::cmp`, `Ordering::then_with`, and the comparisons by them.
pub use Prim.Native.Nat.{compare}
use Prim.Native.Nat.{Ordering}
use Prim.Native.Char.{Char, code}
use Prim.Native.String.compare as str_compare
use Prim.Native.String.{String, compare as str_cmp_native, then as str_then}
use mathlib.Core.Path.{◌≡◌, refl, ◌∙◌}
use mathlib.Core.Bool.{Bool, true, false}
use native.Mathlib.Omega.{arith}
use pingora_mesh.Base.Int.{cmp_ℤ}
use pingora_mesh.Base.Sort.{IsPreorder}

abbrev pub flip : Ordering → Ordering
flip Ordering.lt = Ordering.gt
flip Ordering.eq = Ordering.eq
flip Ordering.gt = Ordering.lt

abbrev pub is_le : Ordering → Bool
is_le Ordering.gt = false
is_le _ = true

-- `Ordering::then_with`
abbrev pub then_with : Ordering → Ordering → Ordering
then_with Ordering.lt o = Ordering.lt
then_with Ordering.eq o = o
then_with Ordering.gt o = Ordering.gt

-- `str::cmp` compares bytes, which orders texts by their code points.
abbrev pub cmp_str : String → String → Ordering
cmp_str = str_cmp_native

-- The comparison that `sort_by` and `min_by` make of a comparator.
abbrev pub le_of {ℓ} : {A : Type ℓ} → (A → A → Ordering) → A → A → Bool
le_of cmp a b = is_le (cmp a b)

-- A comparator whose answers agree with one order.
pub record IsCmp {ℓ} {A : Type ℓ} (cmp : A → A → Ordering) : Type ℓ where
  pub swap : (a b : A) → cmp b a ≡ flip (cmp a b)
  pub trans : (a b c : A) → is_le (cmp a b) ≡ true → is_le (cmp b c) ≡ true → is_le (cmp a c) ≡ true

pub IsCmp-IsPreorder {ℓ} :
    {A : Type ℓ} (cmp : A → A → Ordering) → IsCmp cmp → IsPreorder (le_of cmp)
IsCmp-IsPreorder cmp c = record {
  total = λ a b h. ground (arith, c.swap a b);
  trans = λ a b d h k. c.trans a b d h k;
}

-- Comparing by one key and then by another.
pub IsCmp-then_with {ℓ} :
    {A : Type ℓ} (f g : A → A → Ordering)
    → IsCmp f
    → IsCmp g
    → IsCmp (λ a b. then_with (f a b) (g a b))
IsCmp-then_with f g cf cg = record {
  swap = λ a b. ground (arith, cf.swap a b, cg.swap a b);
  trans = λ a b c h k. ground (
    arith,
    cf.swap a b,
    cf.swap b c,
    cf.swap a c,
    cf.trans a b c,
    cf.trans b c a,
    cf.trans c a b,
    cg.trans a b c,
  );
}

-- Comparing by a key.
pub IsCmp-key {ℓ κ} :
    {A : Type ℓ} {B : Type κ} (key : A → B) (cmp : B → B → Ordering)
    → IsCmp cmp
    → IsCmp (λ a b. cmp (key a) (key b))
IsCmp-key key cmp c = record {
  swap = λ a b. c.swap (key a) (key b);
  trans = λ a b d. c.trans (key a) (key b) (key d);
}

pub IsCmp-cmp_ℤ : IsCmp cmp_ℤ
IsCmp-cmp_ℤ = record { swap = λ a b. ground arith; trans = λ a b c h k. ground arith }

pub IsCmp-compare : IsCmp compare
IsCmp-compare = record { swap = λ a b. ground arith; trans = λ a b c h k. ground arith }

nil-cons : (d : Char) (t : String) → cmp_str String.[] (String.◌∷◌ d t) ≡ Ordering.lt
nil-cons d t = λ i. str_compare.nil-cons d t i

cons-nil : (d : Char) (t : String) → cmp_str (String.◌∷◌ d t) String.[] ≡ Ordering.gt
cons-nil d t = λ i. str_compare.cons-nil d t i

str_then-eq-then_with : (a b : Ordering) → str_then a b ≡ then_with a b
str_then-eq-then_with Ordering.lt b = refl
str_then-eq-then_with Ordering.eq b = refl
str_then-eq-then_with Ordering.gt b = refl

cons-cons :
    (c d : Char) (s t : String)
    → cmp_str (String.◌∷◌ c s) (String.◌∷◌ d t)
      ≡ then_with (compare (code c) (code d)) (cmp_str s t)
cons-cons c d s t =
    (λ i. str_compare.cons-cons c d s t i)
    ∙ str_then-eq-then_with (compare (code c) (code d)) (cmp_str s t)

cmp_str-swap : (s t : String) → cmp_str t s ≡ flip (cmp_str s t)
cmp_str-swap String.[] String.[] = refl
cmp_str-swap String.[] (String.◌∷◌ d t) = rw (nil-cons, cons-nil)
cmp_str-swap (String.◌∷◌ c s) String.[] = rw (nil-cons, cons-nil)
cmp_str-swap (String.◌∷◌ c s) (String.◌∷◌ d t) =
    ground (arith, cons-cons c d s t, cons-cons d c t s, cmp_str-swap s t)

cmp_str_trans :
    (s t u : String)
    → is_le (cmp_str s t) ≡ true
    → is_le (cmp_str t u) ≡ true
    → is_le (cmp_str s u) ≡ true
cmp_str_trans String.[] t String.[] h k = refl
cmp_str_trans String.[] t (String.◌∷◌ e u) h k = rw nil-cons
cmp_str_trans (String.◌∷◌ c s) String.[] u h k = ground (arith, cons-nil c s)
cmp_str_trans (String.◌∷◌ c s) (String.◌∷◌ d t) String.[] h k = ground (arith, cons-nil d t)
cmp_str_trans (String.◌∷◌ c s) (String.◌∷◌ d t) (String.◌∷◌ e u) h k =
    ground (arith, cons-cons c d s t, cons-cons d e t u, cons-cons c e s u, cmp_str_trans s t u)

pub IsCmp-cmp_str : IsCmp cmp_str
IsCmp-cmp_str = record { swap = cmp_str-swap; trans = cmp_str_trans }
