-- ===== src/UdpFeed/Counts.antt =====
-- Messages counted by what they hold, whatever their order.
use latency_lab.Base.{
  ℕ, zero, suc, ◌+◌, ◌<◌, ◌≡◌, refl, sym, ◌∙◌, ap, subst, Bool, if◌then◌else◌, inl, inr, List, [],
  ◌∷◌, ◌++◌, length, All, some, Option-cases, some_eq, arith,
}
use latency_lab.Message.{MarketMessage}
use latency_lab.Wire.{message_size}
use latency_lab.Wire.RoundTrip.{IsWire}
use latency_lab.Feed.{stamped}
use latency_lab.UdpFeed.{Event, receive_stray, take_out}

-- How many of the messages pass a test.
unfoldable pub count_if : (MarketMessage → Bool) → List MarketMessage → ℕ
count_if f [] = 0
count_if f (m ∷ ms) = let rest = count_if f ms in if f m then suc rest else rest

pub count_if-append :
    (f : MarketMessage → Bool) (xs : List MarketMessage) (x : MarketMessage)
    → count_if f (xs ++ x ∷ []) ≡ count_if f (x ∷ []) + count_if f xs
unfolding count_if
count_if-append f [] x = omega arith
count_if-append f (y ∷ xs) x = ground (arith, count_if-append f xs x)

pub count_if-cons :
    (f : MarketMessage → Bool) (x : MarketMessage) (xs : List MarketMessage)
    → count_if f (x ∷ xs) ≡ count_if f (x ∷ []) + count_if f xs
unfolding count_if
count_if-cons f x xs = ground arith

pub same_count :
    (f : MarketMessage → Bool) (m m' : MarketMessage)
    → f m' ≡ f m
    → count_if f (m' ∷ []) ≡ count_if f (m ∷ [])
unfolding count_if
same_count f m m' h = rw h refl

-- The bytes of another sender are none of a message's size.
abbrev pub IsShort : Event → Type 0
IsShort (receive_stray bytes readings) = length bytes < message_size
IsShort _ = Unit

-- `r` is a message of the list and the others.
abbrev pub IsTaken : List MarketMessage → MarketMessage × List MarketMessage → Type 0
IsTaken ms r =
    (length ms ≡ suc (length r.1))
    × ((f : MarketMessage → Bool) → count_if f ms ≡ count_if f (r.0 ∷ []) + count_if f r.1)
    × (All IsWire ms → IsWire r.0 × All IsWire r.1)

pub take_out-IsTaken :
    (place : ℕ) (ms : List MarketMessage) (r : MarketMessage × List MarketMessage)
    → take_out place ms ≡ some r
    → IsTaken ms r
unfolding take_out
take_out-IsTaken place [] r e = cc
take_out-IsTaken zero (x ∷ ms) r e =
    subst (IsTaken (x ∷ ms)) (some_eq e) (refl, (λ f. count_if-cons f x ms), (λ v. v))
take_out-IsTaken (suc place) (x ∷ ms) r e = elim (Option-cases (take_out place ms)) [
  | inl nothing ↦ absurd (ground (arith, e, nothing))
  | inr (r', e') ↦
      let (len, counts, wire) = take_out-IsTaken place ms r' e' in
      let whole : take_out (suc place) (x ∷ ms) ≡ some (r'.0, x ∷ r'.1) = rw (e', take_out) refl in
      subst (IsTaken (x ∷ ms)) (some_eq (sym whole ∙ e)) (
        ap suc len,
        (λ f. omega (arith, counts f, count_if-cons f x ms, count_if-cons f x r'.1)),
        (λ v. ((wire v.1).0, (v.0, (wire v.1).1))),
      )
]

-- The test does not look at the time in a message.
abbrev pub IgnoresTime : (MarketMessage → Bool) → Type 0
IgnoresTime f = (m : MarketMessage) (time : ℕ) → f (stamped m time) ≡ f m
