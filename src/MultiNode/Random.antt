-- ===== src/MultiNode/Random.antt =====
-- `generateRandomString`
use aegis_mirror.Base.{
  ℕ, zero, suc, ◌+◌, ◌<◌, ◌≡◌, some, [], ◌∷◌, ◌++◌, arith, length, get_elem?, get_elem?-some, All,
  length-append, All-append,
}
use aegis_mirror.Base.Text.{Text, codes}
use aegis_mirror.Base.Effect.{Call, pure, index, ◌>>=◌, Returns, Returns-follow, Returns-mono}

abbrev pub charset : Text
charset = codes "abcdefghijklmnopqrstuvwxyz0123456789"

-- Every byte is one of the charset.
abbrev pub IsAlphanumeric : Text → Type 0
IsAlphanumeric = All (λ c. (k : ℕ) × (get_elem? charset k ≡ some c))

module _ {World : Type 0} (intn : ℕ → Call World ℕ) where
  -- `for i := range b { b[i] = charset[Intn(len(charset))] }`, for the bytes left.
  unfoldable pub random_bytes : ℕ → Text → Call World Text
  random_bytes zero b = pure b
  random_bytes (suc left) b = do
    k ← intn (length charset)
    c ← index charset k
    random_bytes left (b ++ c ∷ [])

  unfoldable pub generate_random_string : ℕ → Call World Text
  unfolding random_bytes
  generate_random_string n = random_bytes n []

  random_bytes-IsAlphanumeric :
      (E : Type 0)
      → ((n : ℕ) (w : World) → 0 < n → Returns E (λ k _. k < n) (intn n w))
      → (left : ℕ) (b : Text) (w : World) → IsAlphanumeric b
      → Returns E (λ s _. IsAlphanumeric s × (length s ≡ length b + left)) (random_bytes left b w)
  unfolding random_bytes
  random_bytes-IsAlphanumeric E law zero b w h = (h, omega arith)
  random_bytes-IsAlphanumeric E law (suc left) b w h =
      Returns-follow E _ (intn _ w) _ _ (law _ w (omega arith)) λ k w1 hk.
        let (c, e) = get_elem?-some charset k hk in
        rw e (
          Returns-mono E (random_bytes left (b ++ c ∷ []) w1) _ _
            (random_bytes-IsAlphanumeric E law left (b ++ c ∷ []) w1
              (All-append _ b (c ∷ []) h ((k, e), tt)))
            λ s w2 (alnum, len). (alnum, omega (arith, length-append b (c ∷ []))))

  -- Where `Intn(n)` gives a number below `n` for a positive `n`, a random string has the length that was asked for and
  -- only bytes of the charset; it is returned whenever `Intn` returns.
  pub generate_random_string-IsAlphanumeric :
      (E : Type 0)
      → ((n : ℕ) (w : World) → 0 < n → Returns E (λ k _. k < n) (intn n w))
      → (n : ℕ) (w : World)
      → Returns E (λ s _. IsAlphanumeric s × (length s ≡ n)) (generate_random_string n w)
  unfolding generate_random_string
  generate_random_string-IsAlphanumeric E law n w =
      Returns-mono E (random_bytes n [] w) _ _ (random_bytes-IsAlphanumeric E law n [] w tt)
        λ s w' (alnum, len). (alnum, omega arith)
