-- ===== src/OrderBook/Represents/Modify.antt =====
-- `handle_modify` gives the order its new quantity, where its arithmetic is defined.
use latency_lab.Base.{
  ℕ, ◌+◌, ◌-◌, ◌%◌, ◌<◌, ◌≡◌, refl, subst, ◌∙◌, sym, Option, none, some, ◌>>=◌, arith, Option-cases,
  some_eq, inl, inr,
}
use latency_lab.Base.Int.{ℤ, u32_mod}
use latency_lab.StdMap.{Comparator, find, assign}
use latency_lab.StdMap.Order.{assign-IsSorted, same→eq, same_refl}
use latency_lab.StdMap.Find.{find-assign}
use latency_lab.Message.{Side, buy, sell, MarketMessage, modify}
use latency_lab.Level.{Order, PriceLevel, LevelMap, by_id}
use latency_lab.OrderBook.{
  OrderBook, OrderMap, modify_total, modify_level, handle_modify, on_side, try_on_side,
}
use latency_lab.OrderBook.Modify.{modify_total_sound}
use latency_lab.OrderBook.Represents.{
  SideLevels, Represents, Represents-side, other_side, other_side-same, on_side-Represents,
  level_of_order, comparator_of, levels_of,
}
use latency_lab.OrderBook.Represents.Entries.{assign-Orders}
use latency_lab.Resting.{Resting, lookup, set_quantity, ids_at, quantity_at, level_at, apply_to}
use latency_lab.Resting.AtPrice.{is_at-same, quantity_at-lookup, ids_at-lookup}
use latency_lab.Resting.Change.{level_at-set_quantity, level_at-set_quantity_other}
use latency_lab.Resting.Lookup.{IsDistinct-set_quantity, Fits-set_quantity, Fits-lookup}

-- What `modify_level` does to the level with the total `t`.
abbrev pub modified :
    MarketMessage
    → Order
    → PriceLevel
    → ℕ
    → Comparator ℤ
    → LevelMap
    → OrderMap
    → LevelMap × OrderMap
modified msg o level t c m om = (
  assign c o.price (record level { total_quantity = t }) m,
  assign by_id msg.order_id (record o { quantity = msg.quantity }) om,
)

-- The level of the order `o` on the side `s`.
abbrev pub level_here : Side → Order → Resting → PriceLevel
level_here s o os = record {
  price = o.price;
  order_ids = ids_at s o.price os;
  total_quantity = quantity_at s o.price os % u32_mod;
}

try_on_side-some :
    (s : Side) (f : Comparator ℤ → LevelMap → OrderMap → Option (LevelMap × OrderMap))
    (b : OrderBook) (r : LevelMap × OrderMap)
    → f (comparator_of s) (levels_of s b) b.order_map ≡ some r
    → try_on_side s f b ≡ some (on_side s (λ _ _ _. r) b)
try_on_side-some buy f b r h = rw h
try_on_side-some sell f b r h = rw h

try_on_side-none :
    (s : Side) (f : Comparator ℤ → LevelMap → OrderMap → Option (LevelMap × OrderMap))
    (b : OrderBook)
    → f (comparator_of s) (levels_of s b) b.order_map ≡ none
    → try_on_side s f b ≡ none
try_on_side-none buy f b h = rw h
try_on_side-none sell f b h = rw h

module _ (c : Comparator ℤ) (s : Side) (m : LevelMap) (os : Resting) (v : SideLevels c s m os) where
  modify_level-eq :
      (msg : MarketMessage) (o : Order) (om : OrderMap) (t : Option ℕ)
      → lookup msg.order_id os ≡ some o
      → o.side ≡ s
      → modify_total (quantity_at s o.price os % u32_mod) msg.quantity o.quantity ≡ t
      → modify_level msg o c m om ≡ (t >>= λ n. some (modified msg o (level_here s o os) n c m om))
  unfolding modify_level
  modify_level-eq msg o om t h e k =
      rw (level_of_order c s m os v msg.order_id o h e, modify_level, k)

  modified-find :
      (msg : MarketMessage) (o : Order) (om : OrderMap) (t : ℕ) (p : ℤ)
      → lookup msg.order_id os ≡ some o
      → o.side ≡ s
      → t ≡ (quantity_at s o.price os + msg.quantity - o.quantity) % u32_mod
      → find c p (modified msg o (level_here s o os) t c m om).0
        ≡ level_at s p (set_quantity msg.order_id msg.quantity os)
  modified-find msg o om t p h e k = ground (
    arith,
    find-assign c p o.price (record (level_here s o os) { total_quantity = t }) (level_here s o os)
        m (level_of_order c s m os v msg.order_id o h e),
    level_at-set_quantity s p msg.order_id msg.quantity os o h,
    v.levels p,
    is_at-same c s o.price p,
    same→eq c o.price p,
    ids_at-lookup s o.price msg.order_id os o h,
    is_at-same c s o.price o.price,
    same_refl c o.price,
  )

  pub modified-SideLevels :
      (msg : MarketMessage) (o : Order) (om : OrderMap) (t : ℕ)
      → lookup msg.order_id os ≡ some o
      → o.side ≡ s
      → t ≡ (quantity_at s o.price os + msg.quantity - o.quantity) % u32_mod
      → SideLevels c s
          (modified msg o (level_here s o os) t c m om).0
          (set_quantity msg.order_id msg.quantity os)
  modified-SideLevels msg o om t h e k = record {
    sorted = assign-IsSorted c o.price _ m v.sorted;
    levels = λ p. modified-find msg o om t p h e k;
  }

-- The open quantity at the order's own level.
abbrev pub level_quantity : Order → Resting → ℕ
level_quantity o os = quantity_at o.side o.price os

module _ (b : OrderBook) (os : Resting) (msg : MarketMessage) (o : Order) (r : Represents b os)
    (found : lookup msg.order_id os ≡ some o) where
  modified-Represents :
      (t : ℕ)
      → msg.quantity < u32_mod
      → t ≡ (level_quantity o os + msg.quantity - o.quantity) % u32_mod
      → Represents
          (on_side o.side
            (λ _ _ _.
              modified msg o
                (level_here o.side o os)
                t
                (comparator_of o.side)
                (levels_of o.side b)
                b.order_map)
            b)
          (set_quantity msg.order_id msg.quantity os)
  modified-Represents t h e =
      on_side-Represents o.side
        (λ _ _ _.
          modified msg o (level_here o.side o os) t (comparator_of o.side) (levels_of o.side b)
            b.order_map)
        b os (set_quantity msg.order_id msg.quantity os)
        (modified-SideLevels (comparator_of o.side) o.side (levels_of o.side b) os
          (Represents-side o.side r) msg o b.order_map t found refl e)
        (assign-Orders b.order_map os r.order_map msg.order_id msg.quantity o found)
        (Represents-side (other_side o.side) r)
        (λ p.
          level_at-set_quantity_other (other_side o.side) p o.side (other_side-same o.side)
            msg.order_id msg.quantity os o found refl)
        (IsDistinct-set_quantity msg.order_id msg.quantity os r.distinct)
        (Fits-set_quantity msg.order_id msg.quantity os h r.fits)

  handle_modify-eq : handle_modify b msg ≡ try_on_side o.side (modify_level msg o) b
  unfolding handle_modify
  handle_modify-eq = rw (r.order_map.orders msg.order_id, found, handle_modify)

  pub handle_modify-some :
      (t : ℕ)
      → msg.quantity < u32_mod
      → modify_total (level_quantity o os % u32_mod) msg.quantity o.quantity ≡ some t
      → (b' : OrderBook) × (handle_modify b msg ≡ some b')
        × Represents b' (set_quantity msg.order_id msg.quantity os)
  handle_modify-some t h e = (
    on_side o.side
        (λ _ _ _.
          modified msg o (level_here o.side o os) t (comparator_of o.side) (levels_of o.side b)
            b.order_map)
        b,
    handle_modify-eq
        ∙ try_on_side-some o.side (modify_level msg o) b
            (modified msg o (level_here o.side o os) t (comparator_of o.side) (levels_of o.side b)
              b.order_map)
            (modify_level-eq (comparator_of o.side) o.side (levels_of o.side b) os
              (Represents-side o.side r) msg o b.order_map (some t) found refl e),
    modified-Represents t h (
        modify_total_sound (level_quantity o os) msg.quantity o.quantity t
          (quantity_at-lookup o.side o.price msg.order_id os o found (
            is_at-same (comparator_of o.side) o.side o.price o.price
            ∙ same_refl (comparator_of o.side) o.price))
          h (Fits-lookup msg.order_id os o r.fits found) e),
  )

  pub handle_modify-none :
      modify_total (level_quantity o os % u32_mod) msg.quantity o.quantity ≡ none
      → handle_modify b msg ≡ none
  handle_modify-none e =
      handle_modify-eq
      ∙ try_on_side-none o.side (modify_level msg o) b (
          modify_level-eq (comparator_of o.side) o.side (levels_of o.side b) os
            (Represents-side o.side r) msg o b.order_map none found refl e)

pub handle_modify_missing :
    (b : OrderBook) (os : Resting) (msg : MarketMessage)
    → Represents b os
    → lookup msg.order_id os ≡ none
    → handle_modify b msg ≡ some b
unfolding handle_modify
handle_modify_missing b os msg r h = rw (r.order_map.orders msg.order_id, h, handle_modify)

-- Where `handle_modify` is defined it sets the order's quantity, and changes nothing where there is
-- no such order.
pub handle_modify-Represents :
    (b b' : OrderBook) (os : Resting) (msg : MarketMessage)
    → Represents b os
    → msg.quantity < u32_mod
    → handle_modify b msg ≡ some b'
    → Represents b' (apply_to modify msg (lookup msg.order_id os) os)
handle_modify-Represents b b' os msg r h e = elim (Option-cases (lookup msg.order_id os)) [
  | inl missing ↦ rw missing (
      subst (λ x. Represents x os) (some_eq (sym (handle_modify_missing b os msg r missing) ∙ e)) r)
  | inr (o, found) ↦ rw found (
      with_total o found (modify_total (level_quantity o os % u32_mod) msg.quantity o.quantity)
        refl)
]
  where
    with_total :
        (o : Order)
        → lookup msg.order_id os ≡ some o
        → (t : Option ℕ) → modify_total (level_quantity o os % u32_mod) msg.quantity o.quantity ≡ t
        → Represents b' (set_quantity msg.order_id msg.quantity os)
    with_total o found none k = cc (handle_modify-none b os msg o r found k)
    with_total o found (some t) k =
        let (b'', runs, holds) = handle_modify-some b os msg o r found t h k in
        subst (λ x. Represents x (set_quantity msg.order_id msg.quantity os))
          (some_eq (sym runs ∙ e)) holds
