-- ===== src/StdMap.antt =====
-- `std::map` and `std::unordered_map` of the language's library, as the order books use them: a list
-- of entries in the comparator's order. An `unordered_map` is the same with an order of its own
-- choosing; the sources never iterate over one.
pub mod Order
pub mod Find
pub mod Unique
use latency_lab.Base.{
  ℕ, ◌<◌, ◌≡◌, Bool, true, false, not, ◌&&◌, if◌then◌else◌, List, [], ◌∷◌, Option, none, some,
  length,
}

-- A comparator and the strict total order that the standard asks of it.
pub record Comparator (K : Type 0) : Type 0 where
  pub less : K → K → Bool
  pub irrefl : (a : K) → less a a ≡ false
  pub trans : (a b c : K) → less a b ≡ true → less b c ≡ true → less a c ≡ true
  pub total : (a b : K) → less a b ≡ false → less b a ≡ false → a ≡ b

abbrev pub Map : Type 0 → Type 0 → Type 0
Map K V = List (K × V)

module _ {K : Type 0} (c : Comparator K) where
  -- Keys are equivalent if neither is less.
  abbrev pub same : K → K → Bool
  same a b = not (c.less a b) && not (c.less b a)

module _ {K V : Type 0} (c : Comparator K) where
  -- `find`: `none` is `end()`.
  unfoldable pub find : K → Map K V → Option V
  find k [] = none
  find k ((j, v) ∷ m) = if same c j k then some v else find k m

  -- `emplace`: no effect if the key is there.
  unfoldable pub emplace : K → V → Map K V → Map K V
  emplace k v [] = (k, v) ∷ []
  emplace k v ((j, w) ∷ m) =
      if c.less k j
      then (k, v) ∷ (j, w) ∷ m
      else (if same c j k then (j, w) ∷ m else (j, w) ∷ emplace k v m)

  -- A write through the iterator that `find` returned.
  unfoldable pub assign : K → V → Map K V → Map K V
  assign k v [] = []
  assign k v ((j, w) ∷ m) = if same c j k then (j, v) ∷ m else (j, w) ∷ assign k v m

  -- `erase` of the iterator that `find` returned.
  unfoldable pub erase : K → Map K V → Map K V
  erase k [] = []
  erase k ((j, w) ∷ m) = if same c j k then m else (j, w) ∷ erase k m

module _ {K V : Type 0} where
  abbrev pub empty : Map K V
  empty = []

  -- `begin()->second`
  unfoldable pub begin : Map K V → Option V
  begin [] = none
  begin ((j, v) ∷ m) = some v

  -- `size()`
  abbrev pub size : Map K V → ℕ
  size m = length m

  -- Every key lies behind `k`.
  abbrev pub After : Comparator K → K → Map K V → Type 0
  After c k [] = Unit
  After c k ((j, v) ∷ m) = (c.less k j ≡ true) × After c k m

  abbrev pub IsSorted : Comparator K → Map K V → Type 0
  IsSorted c [] = Unit
  IsSorted c ((j, v) ∷ m) = After c j m × IsSorted c m
