-- ===== src/Level.antt =====
-- The types that both order books keep: `Order` and `PriceLevel` of include/latency_lab/order_book.hpp,
-- the comparators of their maps, and the removal of an identifier from a level.
use latency_lab.Base.{
  ℕ, ◌≡◌, refl, Bool, true, false, List, [], ◌∷◌, ◌++◌, ltb, ◌==◌, if◌then◌else◌, arith,
}
use latency_lab.Base.Int.{ℤ, ltb_ℤ, eqb_ℤ, eqb_ℤ_iff}
use latency_lab.StdMap.{Comparator, Map, same}
use latency_lab.StdMap.Order.{same→eq, same_refl}
use latency_lab.Message.{Side}

pub record Order : Type 0 where
  pub order_id : ℕ
  pub price : ℤ
  pub quantity : ℕ
  pub side : Side

pub record PriceLevel : Type 0 where
  pub price : ℤ
  pub order_ids : List ℕ
  pub total_quantity : ℕ

-- `PriceLevel::aggregate_quantity`
unfoldable pub aggregate_quantity : PriceLevel → ℕ
aggregate_quantity level = level.total_quantity

pub ltb_ℤ_irrefl : (a : ℤ) → ltb_ℤ a a ≡ false
ltb_ℤ_irrefl a = ground arith

pub ltb_ℤ_trans : (a b c : ℤ) → ltb_ℤ a b ≡ true → ltb_ℤ b c ≡ true → ltb_ℤ a c ≡ true
ltb_ℤ_trans a b c h k = ground arith

pub ltb_ℤ_total : (a b : ℤ) → ltb_ℤ a b ≡ false → ltb_ℤ b a ≡ false → a ≡ b
ltb_ℤ_total a b h k = ground arith

pub ltb_irrefl : (a : ℕ) → ltb a a ≡ false
ltb_irrefl a = ground arith

pub ltb_trans : (a b c : ℕ) → ltb a b ≡ true → ltb b c ≡ true → ltb a c ≡ true
ltb_trans a b c h k = ground arith

pub ltb_total : (a b : ℕ) → ltb a b ≡ false → ltb b a ≡ false → a ≡ b
ltb_total a b h k = ground arith

-- `std::less<std::int64_t>`
abbrev pub less : Comparator ℤ
less = record { less = ltb_ℤ; irrefl = ltb_ℤ_irrefl; trans = ltb_ℤ_trans; total = ltb_ℤ_total }

pub greater_trans : (a b c : ℤ) → ltb_ℤ b a ≡ true → ltb_ℤ c b ≡ true → ltb_ℤ c a ≡ true
greater_trans a b c h k = ltb_ℤ_trans c b a k h

pub greater_total : (a b : ℤ) → ltb_ℤ b a ≡ false → ltb_ℤ a b ≡ false → a ≡ b
greater_total a b h k = ltb_ℤ_total a b k h

-- `std::greater<std::int64_t>`
abbrev pub greater : Comparator ℤ
greater = record {
  less = λ a b. ltb_ℤ b a;
  irrefl = ltb_ℤ_irrefl;
  trans = greater_trans;
  total = greater_total;
}

-- The order in which the model keeps an `unordered_map` with `std::uint64_t` keys.
abbrev pub by_id : Comparator ℕ
by_id = record { less = ltb; irrefl = ltb_irrefl; trans = ltb_trans; total = ltb_total }

abbrev pub LevelMap : Type 0
LevelMap = Map ℤ PriceLevel

pub same-eqb_ℤ : (c : Comparator ℤ) (a b : ℤ) → same c a b ≡ eqb_ℤ a b
same-eqb_ℤ c a b = ground (arith, same→eq c a b, same_refl c a, eqb_ℤ_iff a b)

pub same-by_id : (a b : ℕ) → same by_id a b ≡ (a == b)
same-by_id a b = ground arith

-- `std::find` on a level's vector, and `erase` of what it found.
unfoldable pub erase_id : ℕ → List ℕ → List ℕ
erase_id id [] = []
erase_id id (i ∷ ids) = if i == id then ids else i ∷ erase_id id ids

-- `order_ids.empty()`
unfoldable pub is_empty : List ℕ → Bool
is_empty [] = true
is_empty (i ∷ ids) = false

pub is_empty→nil : (ids : List ℕ) → is_empty ids ≡ true → ids ≡ []
unfolding is_empty
is_empty→nil [] h = refl
is_empty→nil (i ∷ ids) h = cc

pub is_empty-append : (ids : List ℕ) (i : ℕ) → is_empty (ids ++ i ∷ []) ≡ false
unfolding is_empty
is_empty-append [] i = refl
is_empty-append (j ∷ ids) i = refl
