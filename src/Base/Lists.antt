-- ===== src/Base/Lists.antt =====
-- Lists measured and indexed by native numbers, under the library's names.
use Prim.Native.Nat.{ℕ, zero, suc, ◌+◌, ◌<◌}
use mathlib.Core.Path.{◌≡◌, refl, ap}
use mathlib.Core.List.{List, [], ◌∷◌, ◌++◌}
use mathlib.Core.Option.{Option, none, some, none-ne-some}
use native.Mathlib.Omega.{arith}

module _ {ℓ} {A : Type ℓ} where
  abbrev pub length : List A → ℕ
  length [] = 0
  length (x ∷ xs) = suc (length xs)

  abbrev pub get_elem? : List A → ℕ → Option A
  get_elem? [] i = none
  get_elem? (x ∷ xs) zero = some x
  get_elem? (x ∷ xs) (suc i) = get_elem? xs i

  -- The numbers of a list's places, with what stands there.
  abbrev pub replicate : ℕ → A → List A
  replicate zero a = []
  replicate (suc n) a = a ∷ replicate n a

  -- A write out of bounds changes nothing.
  abbrev pub set : List A → ℕ → A → List A
  set [] i v = []
  set (x ∷ xs) zero v = v ∷ xs
  set (x ∷ xs) (suc i) v = x ∷ set xs i v

  pub length-append : (xs ys : List A) → length (xs ++ ys) ≡ length xs + length ys
  length-append [] ys = omega arith
  length-append (x ∷ xs) ys = omega (arith, length-append xs ys)

  pub length-replicate : (n : ℕ) (a : A) → length (replicate n a) ≡ n
  length-replicate zero a = refl
  length-replicate (suc n) a = omega (arith, length-replicate n a)

  pub get_elem?-append_last : (xs : List A) (a : A) → get_elem? (xs ++ a ∷ []) (length xs) ≡ some a
  get_elem?-append_last [] a = refl
  get_elem?-append_last (x ∷ xs) a = get_elem?-append_last xs a

  pub get_elem?-append_left :
      (xs ys : List A) (i : ℕ) → i < length xs → get_elem? (xs ++ ys) i ≡ get_elem? xs i
  get_elem?-append_left [] ys i h = elim h [ ]
  get_elem?-append_left (x ∷ xs) ys zero h = refl
  get_elem?-append_left (x ∷ xs) ys (suc i) h = get_elem?-append_left xs ys i (omega arith)

-- Every element satisfies a predicate.
module _ {ℓ κ} {A : Type ℓ} (P : A → Type κ) where
  abbrev pub All : List A → Type κ
  All [] = Unit
  All (x ∷ xs) = P x × All xs

  pub All-append : (xs ys : List A) → All xs → All ys → All (xs ++ ys)
  All-append [] ys _ h = h
  All-append (x ∷ xs) ys (p, h) k = (p, All-append xs ys h k)

pub All-mono {ℓ κ} :
    {A : Type ℓ} (P Q : A → Type κ) → ((x : A) → P x → Q x) → (xs : List A) → All P xs → All Q xs
All-mono P Q f [] h = tt
All-mono P Q f (x ∷ xs) (p, h) = (f x p, All-mono P Q f xs h)

module _ {ℓ} {A : Type ℓ} where
  pub get_elem?-some : (xs : List A) (i : ℕ) → i < length xs → (a : A) × (get_elem? xs i ≡ some a)
  get_elem?-some [] i h = elim h [ ]
  get_elem?-some (x ∷ xs) zero h = (x, refl)
  get_elem?-some (x ∷ xs) (suc i) h = get_elem?-some xs i (omega arith)

  pub get_elem?-append_middle :
      (xs ys : List A) (a : A) → get_elem? (xs ++ a ∷ ys) (length xs) ≡ some a
  get_elem?-append_middle [] ys a = refl
  get_elem?-append_middle (x ∷ xs) ys a = get_elem?-append_middle xs ys a

  pub set-append_middle :
      (xs ys : List A) (a v : A) → set (xs ++ a ∷ ys) (length xs) v ≡ xs ++ v ∷ ys
  set-append_middle [] ys a v = refl
  set-append_middle (x ∷ xs) ys a v = ap (λ l. x ∷ l) (set-append_middle xs ys a v)

  pub lt-of_some : (xs : List A) (i : ℕ) (a : A) → get_elem? xs i ≡ some a → i < length xs
  lt-of_some [] i a h = absurd (none-ne-some a h)
  lt-of_some (x ∷ xs) zero a h = omega arith
  lt-of_some (x ∷ xs) (suc i) a h = omega (arith, lt-of_some xs i a h)

  pub get_elem?-set :
      (xs : List A) (i : ℕ) (v : A) → i < length xs → get_elem? (set xs i v) i ≡ some v
  get_elem?-set [] i v h = elim h [ ]
  get_elem?-set (x ∷ xs) zero v h = refl
  get_elem?-set (x ∷ xs) (suc i) v h = get_elem?-set xs i v (omega arith)

  pub length-set : (xs : List A) (i : ℕ) (v : A) → length (set xs i v) ≡ length xs
  length-set [] i v = refl
  length-set (x ∷ xs) zero v = refl
  length-set (x ∷ xs) (suc i) v = ap suc (length-set xs i v)

module _ {ℓ κ} {A : Type ℓ} {B : Type κ} (f : ℕ → A → B) where
  -- What a function makes of each element and its number, counted from `i` on.
  abbrev pub numbered : ℕ → List A → List B
  numbered i [] = []
  numbered i (x ∷ xs) = f i x ∷ numbered (suc i) xs

  numbered_from :
      (i n : ℕ) (xs : List A) (a : A)
      → i + length xs ≡ n
      → numbered i (xs ++ a ∷ []) ≡ numbered i xs ++ f n a ∷ []
  numbered_from i n [] a e = ap (λ k. f k a ∷ []) (omega arith)
  numbered_from i n (x ∷ xs) a e = ap (λ l. f i x ∷ l) (numbered_from (suc i) n xs a (omega arith))

  pub numbered-append_last :
      (xs : List A) (a : A) → numbered 0 (xs ++ a ∷ []) ≡ numbered 0 xs ++ f (length xs) a ∷ []
  numbered-append_last xs a = numbered_from 0 (length xs) xs a (omega arith)

  pub length-numbered : (i : ℕ) (xs : List A) → length (numbered i xs) ≡ length xs
  length-numbered i [] = refl
  length-numbered i (x ∷ xs) = ap suc (length-numbered (suc i) xs)
