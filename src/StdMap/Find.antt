-- ===== src/StdMap/Find.antt =====
-- What `find` returns after each operation.
use latency_lab.Base.{◌≡◌, refl, [], ◌∷◌, if◌then◌else◌, none, some, arith}
use latency_lab.StdMap.{Comparator, Map, same, find, emplace, assign, erase, After, IsSorted}
use latency_lab.StdMap.Order.{same→eq, same_refl}

module _ {K V : Type 0} (c : Comparator K) where
  pub find-After : (k : K) (m : Map K V) → After c k m → find c k m ≡ none
  unfolding find
  find-After k [] a = refl
  find-After k ((j, v) ∷ m) a = ground (arith, find-After k m a.1)

  pub find-emplace :
      (i k : K) (v : V) (m : Map K V)
      → find c k m ≡ none
      → find c i (emplace c k v m) ≡ (if same c k i then some v else find c i m)
  unfolding find emplace
  find-emplace i k v [] h = refl
  find-emplace i k v ((j, w) ∷ m) h =
      ground
        (arith, same→eq c j k, same→eq c j i, same→eq c k i, same_refl c k, find-emplace i k v m)

  pub find-assign :
      (i k : K) (v w : V) (m : Map K V)
      → find c k m ≡ some w
      → find c i (assign c k v m) ≡ (if same c k i then some v else find c i m)
  unfolding find assign
  find-assign i k v w [] h = cc
  find-assign i k v w ((j, u) ∷ m) h =
      ground
        (arith, same→eq c j k, same→eq c j i, same→eq c k i, same_refl c k, find-assign i k v w m)

  pub find-erase :
      (i k : K) (m : Map K V)
      → IsSorted c m
      → find c i (erase c k m) ≡ (if same c k i then none else find c i m)
  unfolding find erase
  find-erase i k [] s = ground arith
  find-erase i k ((j, u) ∷ m) s = ground (
    arith,
    same→eq c j k,
    same→eq c j i,
    same→eq c k i,
    same_refl c k,
    find-After j m s.0,
    find-erase i k m s.1,
  )
