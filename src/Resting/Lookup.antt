-- ===== src/Resting/Lookup.antt =====
-- The list of resting orders as a map from identifiers to orders.
use latency_lab.Base.{
  ℕ, suc, ◌<◌, ◌≡◌, refl, ◌≢◌, ◌==◌, if◌then◌else◌, [], ◌∷◌, ◌++◌, Option, none, some, All, length,
  arith,
}
use latency_lab.Base.Int.{u32_mod}
use latency_lab.Level.{Order}
use latency_lab.Resting.{Resting, lookup, remove, set_quantity, IsDistinct, Fits}

abbrev pub with_quantity : ℕ → Option Order → Option Order
with_quantity q none = none
with_quantity q (some o) = some (record o { quantity = q })

pub lookup-id : (id : ℕ) (os : Resting) (o : Order) → lookup id os ≡ some o → o.order_id ≡ id
unfolding lookup
lookup-id id [] o h = cc
lookup-id id (x ∷ os) o h = ground (arith, lookup-id id os o)

pub lookup-append :
    (id : ℕ) (os : Resting) (o : Order)
    → lookup o.order_id os ≡ none
    → lookup id (os ++ o ∷ []) ≡ (if o.order_id == id then some o else lookup id os)
unfolding lookup
lookup-append id [] o h = refl
lookup-append id (x ∷ os) o h = ground (arith, lookup-append id os o)

pub lookup-set_quantity :
    (id k q : ℕ) (os : Resting)
    → lookup id (set_quantity k q os)
      ≡ (if k == id then with_quantity q (lookup id os) else lookup id os)
unfolding lookup set_quantity
lookup-set_quantity id k q [] = ground arith
lookup-set_quantity id k q (x ∷ os) = ground (arith, lookup-set_quantity id k q os)

pub lookup_absent : (id : ℕ) (os : Resting) → All (λ o. o.order_id ≢ id) os → lookup id os ≡ none
unfolding lookup
lookup_absent id [] a = refl
lookup_absent id (x ∷ os) a = ground (arith, lookup_absent id os a.1)

pub lookup-remove :
    (id k : ℕ) (os : Resting)
    → IsDistinct os
    → lookup id (remove k os) ≡ (if k == id then none else lookup id os)
unfolding lookup remove
lookup-remove id k [] d = ground arith
lookup-remove id k (x ∷ os) d =
    ground (arith, lookup_absent x.order_id os d.0, lookup-remove id k os d.1)

module _ (P : Order → Type 0) where
  pub All-append : (os : Resting) (o : Order) → All P os → P o → All P (os ++ o ∷ [])
  All-append [] o a h = (h, tt)
  All-append (x ∷ os) o a h = (a.0, All-append os o a.1 h)

  pub All-remove : (k : ℕ) (os : Resting) → All P os → All P (remove k os)
  unfolding remove
  All-remove k [] a = tt
  All-remove k (x ∷ os) a = ground (arith, All-remove k os a.1)

absent-All : (id : ℕ) (os : Resting) → lookup id os ≡ none → All (λ o. o.order_id ≢ id) os
unfolding lookup
absent-All id [] h = tt
absent-All id (x ∷ os) h = (ground arith, absent-All id os (ground arith))

pub IsDistinct-append :
    (os : Resting) (o : Order)
    → IsDistinct os
    → lookup o.order_id os ≡ none
    → IsDistinct (os ++ o ∷ [])
unfolding lookup
IsDistinct-append [] o d h = (tt, tt)
IsDistinct-append (x ∷ os) o d h = (
  All-append (λ o'. o'.order_id ≢ x.order_id) os o d.0 (ground arith),
  IsDistinct-append os o d.1 (ground arith),
)

pub IsDistinct-remove : (k : ℕ) (os : Resting) → IsDistinct os → IsDistinct (remove k os)
unfolding remove
IsDistinct-remove k [] d = tt
IsDistinct-remove k (x ∷ os) d =
    ground (arith, All-remove (λ o'. o'.order_id ≢ x.order_id) k os d.0, IsDistinct-remove k os d.1)

ne-set_quantity :
    (id k q : ℕ) (os : Resting)
    → All (λ o. o.order_id ≢ id) os
    → All (λ o. o.order_id ≢ id) (set_quantity k q os)
unfolding set_quantity
ne-set_quantity id k q [] a = tt
ne-set_quantity id k q (x ∷ os) a = ground (arith, ne-set_quantity id k q os a.1)

pub IsDistinct-set_quantity :
    (k q : ℕ) (os : Resting) → IsDistinct os → IsDistinct (set_quantity k q os)
unfolding set_quantity
IsDistinct-set_quantity k q [] d = tt
IsDistinct-set_quantity k q (x ∷ os) d =
    ground (arith, ne-set_quantity x.order_id k q os d.0, IsDistinct-set_quantity k q os d.1)

pub Fits-set_quantity :
    (k q : ℕ) (os : Resting) → q < u32_mod → Fits os → Fits (set_quantity k q os)
unfolding set_quantity
Fits-set_quantity k q [] h a = tt
Fits-set_quantity k q (x ∷ os) h a = ground (arith, Fits-set_quantity k q os h a.1)

pub Fits-lookup :
    (id : ℕ) (os : Resting) (o : Order) → Fits os → lookup id os ≡ some o → o.quantity < u32_mod
unfolding lookup
Fits-lookup id [] o a h = cc
Fits-lookup id (x ∷ os) o a h = ground (arith, Fits-lookup id os o a.1)

pub length-remove :
    (k : ℕ) (os : Resting) (o : Order)
    → lookup k os ≡ some o
    → length os ≡ suc (length (remove k os))
unfolding lookup remove
length-remove k [] o h = cc
length-remove k (x ∷ os) o h = ground (arith, length-remove k os o)

pub length-set_quantity : (k q : ℕ) (os : Resting) → length (set_quantity k q os) ≡ length os
unfolding set_quantity
length-set_quantity k q [] = refl
length-set_quantity k q (x ∷ os) = ground (arith, length-set_quantity k q os)
