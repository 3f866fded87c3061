-- ===== src/StdMap/Order.antt =====
-- The map operations keep the entries in the comparator's order.
use latency_lab.Base.{◌≡◌, true, [], ◌∷◌, arith}
use latency_lab.StdMap.{Comparator, Map, same, emplace, assign, erase, After, IsSorted}

module _ {K : Type 0} (c : Comparator K) where
  pub same→eq : (a b : K) → same c a b ≡ true → a ≡ b
  same→eq a b h = ground (arith, c.total a b)

  pub same_refl : (a : K) → same c a a ≡ true
  same_refl a = ground (arith, c.irrefl a)

module _ {K V : Type 0} (c : Comparator K) where
  pub After-trans : (k j : K) (m : Map K V) → c.less k j ≡ true → After c j m → After c k m
  After-trans k j [] h a = tt
  After-trans k j ((i, v) ∷ m) h a = (c.trans k j i h a.0, After-trans k j m h a.1)

  After-emplace :
      (j k : K) (v : V) (m : Map K V)
      → c.less j k ≡ true
      → After c j m
      → After c j (emplace c k v m)
  unfolding emplace
  After-emplace j k v [] h a = (h, tt)
  After-emplace j k v ((i, w) ∷ m) h a = ground (arith, After-emplace j k v m h a.1)

  pub emplace-IsSorted : (k : K) (v : V) (m : Map K V) → IsSorted c m → IsSorted c (emplace c k v m)
  unfolding emplace
  emplace-IsSorted k v [] s = (tt, tt)
  emplace-IsSorted k v ((j, w) ∷ m) s =
      ground (arith, After-trans k j m, After-emplace j k v m, emplace-IsSorted k v m s.1)

  After-assign : (j k : K) (v : V) (m : Map K V) → After c j m → After c j (assign c k v m)
  unfolding assign
  After-assign j k v [] a = tt
  After-assign j k v ((i, w) ∷ m) a = ground (arith, After-assign j k v m a.1)

  pub assign-IsSorted : (k : K) (v : V) (m : Map K V) → IsSorted c m → IsSorted c (assign c k v m)
  unfolding assign
  assign-IsSorted k v [] s = tt
  assign-IsSorted k v ((j, w) ∷ m) s =
      ground (arith, After-assign j k v m s.0, assign-IsSorted k v m s.1)

  After-erase : (j k : K) (m : Map K V) → After c j m → After c j (erase c k m)
  unfolding erase
  After-erase j k [] a = tt
  After-erase j k ((i, w) ∷ m) a = ground (arith, After-erase j k m a.1)

  pub erase-IsSorted : (k : K) (m : Map K V) → IsSorted c m → IsSorted c (erase c k m)
  unfolding erase
  erase-IsSorted k [] s = tt
  erase-IsSorted k ((j, w) ∷ m) s = ground (arith, After-erase j k m s.0, erase-IsSorted k m s.1)
