-- ===== src/SpscRingBuffer/Window.antt =====
-- The items of a ring: what stands in the slots from `tail` on, up to `head`.
use latency_lab.Base.{
  ℕ, zero, suc, ◌+◌, ◌-◌, ◌≤◌, ◌<◌, ◌≡◌, refl, subst, ◌∙◌, ◌≢◌, ap, ap₂, leb, if◌then◌else◌, List,
  [], ◌∷◌, ◌++◌, arith, length, get_or, set, get_or-set_self, get_or-set_ne,
}
use latency_lab.SpscRingBuffer.{Ring, size_mod, increment}

pub record IsValid {T : Type 0} (r : Ring T) : Type 0 where
  pub positive : 0 < r.slots
  pub small : r.slots < size_mod
  pub storage : length r.buffer ≡ r.slots
  pub head_in : r.head < r.slots
  pub tail_in : r.tail < r.slots

-- How many slots hold an item.
unfoldable pub used : ℕ → ℕ → ℕ → ℕ
used slots head tail = if leb tail head then head - tail else head + slots - tail

-- The slot that comes `n` slots after `i`.
unfoldable pub slot : ℕ → ℕ → ℕ → ℕ
slot slots i n = if leb slots (i + n) then i + n - slots else i + n

pub slot-used :
    (slots head tail : ℕ)
    → head < slots
    → tail < slots
    → slot slots tail (used slots head tail) ≡ head
unfolding used slot
slot-used slots head tail h k = ground arith

slot-increment :
    (slots i n : ℕ)
    → slots < size_mod
    → i < slots
    → suc n < slots
    → (slot slots (increment slots i) n ≡ slot slots i (suc n)) × (increment slots i < slots)
unfolding increment slot
slot-increment slots i n s k l = ground arith

slot-ne : (slots i n : ℕ) → i < slots → suc n < slots → slot slots i (suc n) ≢ i
unfolding slot
slot-ne slots i n k l = ground arith

slot-lt : (slots i n : ℕ) → i < slots → n < slots → slot slots i n < slots
unfolding slot
slot-lt slots i n k l = ground arith

module _ {T : Type 0} (blank : T) where
  abbrev pub window : ℕ → List T → ℕ → ℕ → List T
  window slots buffer i zero = []
  window slots buffer i (suc n) = get_or buffer i blank ∷ window slots buffer (increment slots i) n

  abbrev pub contents : Ring T → List T
  contents r = window r.slots r.buffer r.tail (used r.slots r.head r.tail)

  pub length-window : (slots : ℕ) (buffer : List T) (i n : ℕ) → length (window slots buffer i n) ≡ n
  length-window slots buffer i zero = refl
  length-window slots buffer i (suc n) = ap suc (length-window slots buffer (increment slots i) n)

  -- The last item of a window.
  pub window-snoc :
      (slots : ℕ) (buffer : List T) (i n : ℕ)
      → slots < size_mod
      → i < slots
      → n < slots
      → window slots buffer i (suc n)
        ≡ window slots buffer i n ++ get_or buffer (slot slots i n) blank ∷ []
  unfolding slot
  window-snoc slots buffer i zero s k l = ap (λ j. get_or buffer j blank ∷ []) (ground arith)
  window-snoc slots buffer i (suc n) s k l =
      let (e, b) = slot-increment slots i n s k l in
      ap (◌∷◌ (get_or buffer i blank)) (
        window-snoc slots buffer (increment slots i) n s b (omega arith)
        ∙ ap (λ j. window slots buffer (increment slots i) n ++ get_or buffer j blank ∷ []) e)

  -- A write past a window does not change it.
  pub window-set_past :
      (slots : ℕ) (buffer : List T) (i n m : ℕ) (x : T)
      → slots < size_mod
      → i < slots
      → m ≤ n
      → n < slots
      → window slots (set buffer (slot slots i n) x) i m ≡ window slots buffer i m
  window-set_past slots buffer i n zero x s k h l = refl
  window-set_past slots buffer i zero (suc m) x s k h l = absurd (omega arith)
  window-set_past slots buffer i (suc n) (suc m) x s k h l =
      let (e, b) = slot-increment slots i n s k l in
      ap₂ ◌∷◌ (get_or-set_ne buffer (slot slots i (suc n)) i x blank (slot-ne slots i n k l)) (
        subst
          (λ j.
            window slots (set buffer j x) (increment slots i) m
            ≡ window slots buffer (increment slots i) m)
          e
          (window-set_past slots buffer (increment slots i) n m x s b (omega arith) (omega arith)))

  -- A write just past a window, in the storage, extends it by the item.
  pub window-set :
      (slots : ℕ) (buffer : List T) (i n : ℕ) (x : T)
      → slots < size_mod
      → length buffer ≡ slots
      → i < slots
      → n < slots
      → window slots (set buffer (slot slots i n) x) i (suc n) ≡ window slots buffer i n ++ x ∷ []
  window-set slots buffer i n x s h k l =
      window-snoc slots (set buffer (slot slots i n) x) i n s k l
      ∙ ap₂ (λ w y. w ++ y ∷ []) (window-set_past slots buffer i n n x s k (omega arith) l)
          (get_or-set_self buffer (slot slots i n) x blank (rw h (slot-lt slots i n k l)))

-- `used` after each move of an index.
pub used-push :
    (slots head tail : ℕ)
    → slots < size_mod
    → head < slots
    → tail < slots
    → increment slots head ≢ tail
    → (used slots (increment slots head) tail ≡ suc (used slots head tail))
      × (suc (used slots head tail) < slots)
      × (increment slots head < slots)
unfolding increment used
used-push slots head tail s h k e = ground arith

pub used-full :
    (slots head tail : ℕ)
    → slots < size_mod
    → head < slots
    → tail < slots
    → increment slots head ≡ tail
    → suc (used slots head tail) ≡ slots
unfolding increment used
used-full slots head tail s h k e = ground arith

pub used-pop :
    (slots head tail : ℕ)
    → slots < size_mod
    → head < slots
    → tail < slots
    → tail ≢ head
    → (used slots head tail ≡ suc (used slots head (increment slots tail)))
      × (increment slots tail < slots)
unfolding increment used
used-pop slots head tail s h k e = ground arith

pub used-nil : (slots head tail : ℕ) → tail ≡ head → used slots head tail ≡ 0
unfolding used
used-nil slots head tail e = ground arith
