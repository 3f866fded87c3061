-- ===== src/StdMap/Unique.antt =====
-- A map is determined by what `find` returns: its size, its first entry and the map itself.
use latency_lab.Base.{suc, ◌≡◌, refl, false, [], ◌∷◌, none, some, arith, length, ◌⊎◌, inl, inr}
use latency_lab.StdMap.{Comparator, Map, find, erase, begin, After, IsSorted}
use latency_lab.StdMap.Order.{same→eq, same_refl, After-trans}
use latency_lab.StdMap.Find.{find-After}

module _ {K V : Type 0} (c : Comparator K) where
  -- The first entry has the least key of all that are there.
  pub begin-least :
      (m : Map K V)
      → IsSorted c m
      → ((begin m ≡ none) × ((k : K) → find c k m ≡ none))
        ⊎ ((k : K) × (v : V) × (begin m ≡ some v)
            × (find c k m ≡ some v)
            × ((i : K) (w : V) → find c i m ≡ some w → c.less i k ≡ false))
  unfolding begin find
  begin-least [] s = inl (refl, λ k. refl)
  begin-least ((j, v) ∷ m) s = inr (j, v, refl, rw (same_refl c j), least)
    where
      least : (i : K) (w : V) → find c i ((j, v) ∷ m) ≡ some w → c.less i j ≡ false
      least i w h =
          ground (
            arith,
            c.irrefl j,
            c.trans i j i,
            c.irrefl i,
            find-After c i m,
            After-trans c i j m,
            s.0,
          )

  pub size-erase :
      (k : K) (v : V) (m : Map K V) → find c k m ≡ some v → length m ≡ suc (length (erase c k m))
  unfolding find erase
  size-erase k v [] h = cc
  size-erase k v ((j, w) ∷ m) h = ground (arith, size-erase k v m)

  pub size-of-empty : (m : Map K V) → ((k : K) → find c k m ≡ none) → length m ≡ 0
  unfolding find
  size-of-empty [] h = refl
  size-of-empty ((j, v) ∷ m) h = absurd (ground (arith, h j, same_refl c j))

  head-eq :
      (j i : K) (v w : V) (m n : Map K V)
      → After c j m
      → After c i n
      → ((k : K) → find c k ((j, v) ∷ m) ≡ find c k ((i, w) ∷ n))
      → j ≡ i
  unfolding find
  head-eq j i v w m n a b h = ground (
    arith,
    h j,
    h i,
    c.total j i,
    same_refl c i,
    same_refl c j,
    find-After c j n,
    find-After c i m,
    After-trans c j i n,
    After-trans c i j m,
  )

  tail-find :
      (j i : K) (v w : V) (m n : Map K V)
      → j ≡ i
      → After c j m
      → After c i n
      → ((k : K) → find c k ((j, v) ∷ m) ≡ find c k ((i, w) ∷ n))
      → (k : K) → find c k m ≡ find c k n
  unfolding find
  tail-find j i v w m n e a b h k =
      ground (arith, h k, same→eq c j k, find-After c j m a, find-After c i n b)

  -- Two sorted maps with the same entries are equal.
  pub find-injective :
      (m n : Map K V) → IsSorted c m → IsSorted c n → ((k : K) → find c k m ≡ find c k n) → m ≡ n
  unfolding find
  find-injective [] [] s t h = refl
  find-injective [] ((j, v) ∷ n) s t h = ground (arith, h j, same_refl c j)
  find-injective ((j, v) ∷ m) [] s t h = ground (arith, h j, same_refl c j)
  find-injective ((j, v) ∷ m) ((i, w) ∷ n) s t h =
      let e = head-eq j i v w m n s.0 t.0 h in
      let tails = find-injective m n s.1 t.1 (tail-find j i v w m n e s.0 t.0 h) in
      ground (arith, e, tails, h j, same_refl c j, same_refl c i)
