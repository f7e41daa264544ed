-- ===== src/Base/Text/Decimal.antt =====
-- `strconv.Itoa`, and that it gives different numbers different texts.
use Prim.Native.Nat.{ℕ, zero, suc, ◌+◌, ◌-◌, ◌*◌, ◌/◌, ◌%◌, ◌<◌}
use mathlib.Core.List.{List, [], ◌∷◌}
use mathlib.Core.Path.{◌≡◌, ap, sym, ◌∙◌}
use mathlib.Core.Logic.{◌≢◌}
use native.Mathlib.Omega.{arith}
use aegis_mirror.Base.Tests.{◌==◌, if◌then◌else◌}
use aegis_mirror.Base.Lists.{All}
use aegis_mirror.Base.Int.{ℤ, pos, negsuc}

-- The decimal digits of `n` in front of `out`, the last digit first. `f` bounds the rounds.
emit : ℕ → ℕ → List ℕ → List ℕ
emit zero n out = out
emit (suc f) n out =
    let d = b'0' + n % 10 in
    let rest = emit f (n / 10) (d ∷ out) in if n / 10 == 0 then d ∷ out else rest

-- Each round divides by ten, so `n + 1` rounds are enough.
unfoldable pub decimal : ℕ → List ℕ
unfolding emit
decimal n = emit (suc n) n []

-- `strconv.Itoa(z)`
unfoldable pub itoa : ℤ → List ℕ
unfolding decimal
itoa (pos n) = decimal n
itoa (negsuc n) = b'-' ∷ decimal (suc n)

value : ℕ → List ℕ → ℕ
value acc [] = acc
value acc (c ∷ s) = value (acc * 10 + (c - b'0')) s

value-emit : (f n : ℕ) (out : List ℕ) → n < f → value 0 (emit f n out) ≡ value n out
unfolding emit value
value-emit zero n out h = elim h [ ]
value-emit (suc f) n out h = ground (arith, value-emit f (n / 10) ((b'0' + n % 10) ∷ out))

emit-lacks :
    (f n : ℕ) (out : List ℕ) (c : ℕ)
    → c < b'0'
    → All (λ d. d ≢ c) out
    → All (λ d. d ≢ c) (emit f n out)
unfolding emit
emit-lacks zero n out c h k = k
emit-lacks (suc f) n out c h k = ground (arith, emit-lacks f (n / 10) ((b'0' + n % 10) ∷ out) c h)

-- No digit is a byte below '0', such as a comma.
pub decimal-lacks : (n c : ℕ) → c < b'0' → All (λ d. d ≢ c) (decimal n)
unfolding decimal
decimal-lacks n c h = emit-lacks (suc n) n [] c h tt

value-decimal : (n : ℕ) → value 0 (decimal n) ≡ n
unfolding decimal value
value-decimal n = value-emit (suc n) n [] (omega arith)

-- Different numbers have different digits.
pub decimal_injective : (m n : ℕ) → decimal m ≡ decimal n → m ≡ n
decimal_injective m n h = sym (value-decimal m) ∙ ap (value 0) h ∙ value-decimal n

-- Nor is the sign.
pub itoa-Lacks : (z : ℤ) (c : ℕ) → c < b'-' → All (λ d. d ≢ c) (itoa z)
unfolding itoa
itoa-Lacks (pos n) c h = decimal-lacks n c (omega arith)
itoa-Lacks (negsuc n) c h = (omega arith, decimal-lacks (suc n) c (omega arith))
