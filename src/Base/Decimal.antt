-- ===== src/Base/Decimal.antt =====
-- A number is read back from its decimal text, so that two numbers with one text are one.
use Prim.Native.Char.{Char, code}
use Prim.Native.Nat.{ℕ, zero, suc, ◌+◌, ◌-◌, ◌*◌, ◌/◌, ◌%◌, ◌<◌}
use Prim.Native.String.{String, [], ◌∷◌, ◌++◌}
use Prim.Native.String.append
use mathlib.Core.Path.{◌≡◌, refl, sym, ap, ◌∙◌}
use mathlib.Core.Logic.{inl, inr}
use native.Mathlib.Omega.{arith}
use pingora_mesh.Base.Tests.{nat_beq, Bool-cases}
use pingora_mesh.Base.Text.{digit_of, decimal_from, decimal}

unfoldable read : ℕ → String → ℕ
read a [] = a
read a (c ∷ s) = read (a * 10 + (code c - 48)) s

read-char :
    (a : ℕ) (c : Char) (s : String) → read a ((c ∷ []) ++ s) ≡ read (a * 10 + (code c - 48)) s
unfolding read
read-char a c s = rw (append.cons c [] s, append.nil s) refl

read-digit_of :
    (a d : ℕ) (s : String) → d < 10 → read a (digit_of "0123456789" d ++ s) ≡ read (a * 10 + d) s
read-digit_of a zero s h = read-char a "0" s
read-digit_of a (suc zero) s h = read-char a "1" s
read-digit_of a (suc (suc zero)) s h = read-char a "2" s
read-digit_of a (suc (suc (suc zero))) s h = read-char a "3" s
read-digit_of a (suc (suc (suc (suc zero)))) s h = read-char a "4" s
read-digit_of a (suc (suc (suc (suc (suc zero))))) s h = read-char a "5" s
read-digit_of a (suc (suc (suc (suc (suc (suc zero)))))) s h = read-char a "6" s
read-digit_of a (suc (suc (suc (suc (suc (suc (suc zero))))))) s h = read-char a "7" s
read-digit_of a (suc (suc (suc (suc (suc (suc (suc (suc zero)))))))) s h = read-char a "8" s
read-digit_of a (suc (suc (suc (suc (suc (suc (suc (suc (suc zero))))))))) s h = read-char a "9" s
read-digit_of a (suc (suc (suc (suc (suc (suc (suc (suc (suc (suc d)))))))))) s h =
    absurd (omega arith)

read-decimal_from :
    (fuel n : ℕ) (acc : String) → n < fuel → read 0 (decimal_from fuel n acc) ≡ read n acc
unfolding decimal_from
read-decimal_from zero n acc h = absurd (omega arith)
read-decimal_from (suc fuel) n acc h = elim (Bool-cases (nat_beq (n / 10) 0)) [
  | inl last ↦
      rw (last, decimal_from)
        (read-digit_of 0 (n % 10) acc (omega arith) ∙ ap (λ k. read k acc) (ground (arith, last)))
  | inr more ↦
      rw (more, decimal_from)
        (read-decimal_from fuel (n / 10) (digit_of "0123456789" (n % 10) ++ acc)
            (ground (arith, more))
          ∙ read-digit_of (n / 10) (n % 10) acc (omega arith)
          ∙ ap (λ k. read k acc) (omega arith))
]

-- Two numbers that are written alike are the same.
pub decimal_inj : (m n : ℕ) → decimal m ≡ decimal n → m ≡ n
unfolding decimal read
decimal_inj m n same =
    sym (read-decimal_from (suc m) m "" (omega arith))
    ∙ ap (read 0) same
    ∙ read-decimal_from (suc n) n "" (omega arith)
