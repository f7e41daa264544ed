-- ===== src/MultiNode/Args/Laws.antt =====
-- What the flag parser makes of the ports and of the stakes.
use aegis_mirror.Base.{
  ℕ, zero, suc, ◌+◌, ◌<◌, ◌≡◌, ◌≢◌, refl, ap, ◌∙◌, sym, Option, none, some, List, [], ◌∷◌, ◌++◌,
  arith, get_elem?, length, All, map, Option-cases, inl, inr,
}
use aegis_mirror.Base.Int.{ℤ, pos}
use aegis_mirror.Base.Text.{Text, text_eq_iff, split-join, join, join-ne-nil, Lacks, itoa}
use aegis_mirror.Base.Effect.{ok, Call, follow-ext, Fine, Returns, Returns-then}
use aegis_mirror.MultiNode.Services.{rpc, port}
use aegis_mirror.MultiNode.Args.{
  IntMap, at_key, put, put_each, Flags, default_bond_denom, default_ports, parse_ports,
  parse_amounts, parse_stakes, parse_flags,
}

module _ {V : Type 0} where
  at_key-put_other : (m : IntMap V) (k i : ℕ) (v : V) → k ≢ i → at_key (put k v m) i ≡ at_key m i
  unfolding at_key
  at_key-put_other m k i v ne = ground arith

  -- The keys below the counter keep their values.
  at_key-put_each_below :
      (vs : List V) (top i : ℕ) (m : IntMap V) → i < top → at_key (put_each vs top m) i ≡ at_key m i
  unfolding put_each
  at_key-put_each_below [] top i m h = refl
  at_key-put_each_below (v ∷ vs) top i m h =
      at_key-put_each_below vs (suc top) i (put top v m) (omega arith)
      ∙ at_key-put_other m top i v (omega arith)

  -- From the counter on the values stand in order.
  at_key-put_each :
      (vs : List V) (top i : ℕ) (m : IntMap V)
      → ((j : ℕ) → at_key m (top + j) ≡ none)
      → at_key (put_each vs top m) (top + i) ≡ get_elem? vs i
  unfolding put_each
  at_key-put_each [] top i m h = h i
  at_key-put_each (v ∷ vs) top zero m h =
      at_key-put_each_below vs (suc top) (top + 0) (put top v m) (omega arith)
      ∙ (unfold at_key in ground arith)
  at_key-put_each (v ∷ vs) top (suc i) m h =
      ap (at_key (put_each vs (suc top) (put top v m))) (omega arith)
      ∙ at_key-put_each vs (suc top) i (put top v m) λ j.
        at_key-put_other m top (suc top + j) v (omega arith)
        ∙ ap (at_key m) (omega arith)
        ∙ h (suc j)

  -- The map that is filled from its beginning holds the values.
  pub at_key-filled : (vs : List V) (i : ℕ) → at_key (put_each vs 0 []) i ≡ get_elem? vs i
  unfolding at_key
  at_key-filled vs i =
      ap (at_key (put_each vs 0 [])) (omega arith) ∙ at_key-put_each vs 0 i [] (λ j. refl)

-- The ports of the loop over the nodes.
unfoldable rpc_ports : ℕ → ℕ → List Text
unfolding itoa port
rpc_ports zero i = []
rpc_ports (suc left) i = itoa (port rpc i) ∷ rpc_ports left (suc i)

get_elem?-rpc_ports :
    (left i k : ℕ) → k < left → get_elem? (rpc_ports left i) k ≡ some (itoa (port rpc (i + k)))
unfolding rpc_ports
get_elem?-rpc_ports zero i k h = elim h [ ]
get_elem?-rpc_ports (suc left) i zero h = ground arith
get_elem?-rpc_ports (suc left) i (suc k) h =
    ground (arith, get_elem?-rpc_ports left (suc i) k (omega arith))

default_ports_lem :
    (left i top : ℕ) (ports : IntMap Text)
    → default_ports left i top ports ≡ put_each (rpc_ports left i) top ports
unfolding default_ports put_each rpc_ports
default_ports_lem zero i top ports = refl
default_ports_lem (suc left) i top ports =
    default_ports_lem left (suc i) (suc top) (put top (itoa (port rpc i)) ports)

-- With an empty `--list-ports`, the map of ports gives each of the `n` nodes its own rpc port.
pub at_key-parse_ports :
    (n i : ℕ) → i < n → at_key (parse_ports 0 (pos n) (some [])) i ≡ some (itoa (port rpc i))
unfolding parse_ports
at_key-parse_ports n i h =
    ap (λ m. at_key m i) (default_ports_lem n 0 0 [])
    ∙ at_key-filled (rpc_ports n 0) i
    ∙ get_elem?-rpc_ports n 0 i h
    ∙ ground arith

parse_ports-join :
    (n : ℤ) (p : Text) (ps : List Text)
    → p ≢ []
    → All (Lacks b',') (p ∷ ps)
    → parse_ports 0 n (some (join b',' (p ∷ ps))) ≡ put_each (p ∷ ps) 0 []
unfolding parse_ports
parse_ports-join n p ps ne h =
    ground
      (arith, text_eq_iff (join b',' (p ∷ ps)) [], join-ne-nil b',' p ps ne, split-join b',' p ps h)

map-pos_uncons :
    (a : ℤ) (xs : List ℤ) (ns : List ℕ)
    → a ∷ xs ≡ map pos ns
    → (k : ℕ) × (ks : List ℕ) × (ns ≡ k ∷ ks) × (a ≡ pos k) × (xs ≡ map pos ks)
map-pos_uncons a xs [] e = cc
map-pos_uncons a xs (k ∷ ks) e = (k, ks, refl, cc, cc)

module _ {World Coin : Type 0} (int_from_string : Text → Option ℤ)
    (new_coin : Text → ℤ → Call World Coin) where
  -- Whatever the amounts of the stakes are, the map of ports that the flags give holds exactly the
  -- ports of a list joined by commas, in order, the first one at the key 0, if no port holds a comma
  -- and the first one is not the empty text. The calls on the amounts succeed, unless `E`.
  pub at_key-parse_flags :
      (E : Type 0) (f : Flags) (p : Text) (ps : List Text) (w : World) (i : ℕ)
      → f.list_ports ≡ some (join b',' (p ∷ ps))
      → p ≢ []
      → All (Lacks b',') (p ∷ ps)
      → Fine E (parse_stakes int_from_string new_coin 0 f.validators_stake_amount w)
      → Returns E
          (λ args _. at_key args.ports i ≡ get_elem? (p ∷ ps) i)
          (parse_flags int_from_string new_coin f w)
  unfolding parse_flags
  at_key-parse_flags E f p ps w i e ne h fine =
      Returns-then E _ (parse_stakes int_from_string new_coin 0 f.validators_stake_amount w) _ fine
        λ _ w1.
          ap (λ o. at_key (parse_ports 0 f.num_validators o) i) e
          ∙ ap (λ m. at_key m i) (parse_ports-join f.num_validators p ps ne h)
          ∙ at_key-filled (p ∷ ps) i

  -- A text that is no number might as well be absent: it takes no place in the map, and so every
  -- later amount goes to the validator before the one that its position names.
  pub parse_amounts_skip :
      (before after : List Text) (bad : Text) (top : ℕ) (stakes : IntMap Coin) (w : World)
      → int_from_string bad ≡ none
      → parse_amounts int_from_string new_coin (before ++ bad ∷ after) top stakes w
        ≡ parse_amounts int_from_string new_coin (before ++ after) top stakes w
  unfolding parse_amounts
  parse_amounts_skip [] after bad top stakes w e = rw e
  parse_amounts_skip (t ∷ before) after bad top stakes w e =
      elim (Option-cases (int_from_string t)) [
        | inl bad_too ↦ rw bad_too (parse_amounts_skip before after bad top stakes w e)
        | inr (a, good) ↦ rw good (
            follow-ext _ _ (new_coin default_bond_denom a w)
              (λ c w'. parse_amounts_skip before after bad (suc top) (put top c stakes) w' e))
      ]

  -- The amounts that are numbers.
  unfoldable pub numbers : List Text → List ℤ
  numbers [] = []
  numbers (t ∷ ts) = elim (int_from_string t) [ none ↦ numbers ts | some a ↦ a ∷ numbers ts ]

  parse_amounts-accepted :
      (coin : ℕ → Coin)
      → ((k : ℕ) (w : World) → new_coin default_bond_denom (pos k) w ≡ (ok (coin k), w))
      → (t : Text) (ts : List Text) (k top : ℕ) (stakes : IntMap Coin) (w : World)
      → int_from_string t ≡ some (pos k)
      → parse_amounts int_from_string new_coin (t ∷ ts) top stakes w
        ≡ parse_amounts int_from_string new_coin ts (suc top) (put top (coin k) stakes) w
  unfolding parse_amounts
  parse_amounts-accepted coin h t ts k top stakes w e = rw (parse_amounts, e, h k w) refl

  parse_amounts_lem :
      (coin : ℕ → Coin)
      → ((k : ℕ) (w : World) → new_coin default_bond_denom (pos k) w ≡ (ok (coin k), w))
      → (ts : List Text) (ns : List ℕ) (top : ℕ) (stakes : IntMap Coin) (w : World)
      → numbers ts ≡ map pos ns
      → parse_amounts int_from_string new_coin ts top stakes w
        ≡ (ok (put_each (map coin ns) top stakes, top + length ns), w)
  unfolding parse_amounts numbers put_each
  parse_amounts_lem coin h [] [] top stakes w e = ground arith
  parse_amounts_lem coin h [] (n ∷ ns) top stakes w e = cc
  parse_amounts_lem coin h (t ∷ ts) ns top stakes w e = elim (Option-cases (int_from_string t)) [
    | inl bad ↦
        rw (bad, parse_amounts)
          (parse_amounts_lem coin h ts ns top stakes w (rw (bad, numbers) at e))
    | inr (a, good) ↦
        let (k, ks, en, ea, eks) = map-pos_uncons a (numbers ts) ns (rw (good, numbers) at e) in
        parse_amounts-accepted coin h t ts k top stakes w (good ∙ ap some ea)
        ∙ parse_amounts_lem coin h ts ks (suc top) (put top (coin k) stakes) w eks
        ∙ ap (λ n. (ok (put_each (map coin ks) (suc top) (put top (coin k) stakes), n), w))
            {x = suc top + length ks} {y = top + suc (length ks)} (omega arith)
        ∙ ap (λ l. (ok (put_each (map coin l) top stakes, top + length l), w)) (sym en)
  ]

  -- Where `sdk.NewCoin` accepts every amount that is not negative and changes nothing, and none of the
  -- amounts that are numbers is negative, the map of stakes has, at every key, the coin of the amount
  -- with that number among those that are numbers, and `top` ends at how many these are.
  pub parse_amounts-numbers :
      (coin : ℕ → Coin)
      → ((k : ℕ) (w : World) → new_coin default_bond_denom (pos k) w ≡ (ok (coin k), w))
      → (ts : List Text) (ns : List ℕ) (w : World) (i : ℕ) → numbers ts ≡ map pos ns
      → (stakes : IntMap Coin) × (parse_amounts int_from_string new_coin ts 0 [] w
          ≡ (ok (stakes, length ns), w))
        × (at_key stakes i ≡ get_elem? (map coin ns) i)
  parse_amounts-numbers coin h ts ns w i e = (
    put_each (map coin ns) 0 [],
    parse_amounts_lem coin h ts ns 0 [] w e ∙ ground arith,
    at_key-filled (map coin ns) i,
  )
