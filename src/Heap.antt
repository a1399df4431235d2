-- ===== src/Heap.antt =====
-- heap/heap.go: a binary heap in a slice, ordered by a comparison function.
-- An index out of range is a panic, `none`; so is a loop that runs out of fuel. The slice indices
-- stay below twice the length plus three, so the model's numbers do not overflow Go's int.
pub mod Order
pub mod Up
pub mod Down
pub mod Laws
pub mod Shuffle
mod Tests
use juicemud.Base.{
  ℕ, zero, suc, ◌+◌, ◌-◌, ◌*◌, ◌/◌, Bool, true, false, ◌&&◌, List, [], ◌∷◌, ◌++◌, Option, none,
  some, ltb, ◌==◌, if◌then◌else◌, length, get_elem?, get_or, set, take,
}

infixl 5 ◌>>=◌
-- A panic ends the call.
abbrev pub ◌>>=◌ {ℓ κ} : {A : Type ℓ} {B : Type κ} → Option A → (A → Option B) → Option B
none >>= f = none
some a >>= f = f a

-- The type Heap; `less` is fixed by New.
pub record Heap (T : Type 0) : Type 0 where
  pub items : List T
  pub less : T → T → Bool

abbrev pub parent : ℕ → ℕ
parent index = (index - 1) / 2

module _ {T : Type 0} where
  pub new : (T → T → Bool) → Heap T
  new less = record { items = []; less = less }

  -- `h.less(h.data[i], h.data[j])`
  pub less_at : (T → T → Bool) → List T → ℕ → ℕ → Option Bool
  less_at less a i j = do x ← get_elem? a i; y ← get_elem? a j; some (less x y)

  -- `h.data[i], h.data[j] = h.data[j], h.data[i]`
  pub swap : List T → ℕ → ℕ → Option (List T)
  swap a i j = do x ← get_elem? a i; y ← get_elem? a j; some (set (set a i y) j x)

  pub bubble_up : ℕ → (T → T → Bool) → List T → ℕ → Option (List T)
  bubble_up zero less a index = none
  bubble_up (suc fuel) less a index =
      let rise = swap a index (parent index) >>= λ b. bubble_up fuel less b (parent index) in
      let body = less_at less a index (parent index) >>= λ below. if below then rise else some a in
      if ltb 0 index then body else some a

  -- `if child < size && h.less(h.data[child], h.data[smallest]) { smallest = child }`
  pub smaller : (T → T → Bool) → List T → ℕ → ℕ → Option ℕ
  smaller less a smallest child =
      if ltb child (length a)
      then (less_at less a child smallest >>= λ below. some (if below then child else smallest))
      else some smallest

  pub smallest_of : (T → T → Bool) → List T → ℕ → Option ℕ
  smallest_of less a index =
      smaller less a index (2 * index + 1) >>= λ s. smaller less a s (2 * index + 2)

  pub bubble_down : ℕ → (T → T → Bool) → List T → ℕ → Option (List T)
  bubble_down zero less a index = none
  bubble_down (suc fuel) less a index = smallest_of less a index >>= λ smallest.
      let sink = swap a index smallest >>= λ b. bubble_down fuel less b smallest in
      if smallest == index then some a else sink

  pub push : Heap T → T → Option (Heap T)
  unfolding bubble_up swap less_at
  push h value =
      let grown = h.items ++ value ∷ [] in
      bubble_up (length grown) h.less grown (length grown - 1) >>= λ a.
      some (record h { items = a })

  -- Pop. `default` is Go's zero value of `T`.
  pub pop : T → Heap T → Option ((T × Bool) × Heap T)
  unfolding bubble_down smallest_of smaller swap less_at
  pop default h =
      let body : Option ((T × Bool) × Heap T) = do
        top ← get_elem? h.items 0
        last ← get_elem? h.items (length h.items - 1)
        let moved = take (length h.items - 1) (set h.items 0 last)
        a ← bubble_down (length moved + 1) h.less moved 0
        some ((top, true), record h { items = a })
      in if length h.items == 0 then some ((default, false), h) else body

  pub peek : T → Heap T → T × Bool
  peek default h =
      if length h.items == 0 then (default, false) else (get_or h.items 0 default, true)

  pub size : Heap T → ℕ
  size h = length h.items
