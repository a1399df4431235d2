-- ===== src/Heap/Tests.antt =====
-- The heap at concrete inputs.
use juicemud.Base.{ℕ, zero, suc, get_or, ◌≡◌, refl, true, [], ◌∷◌, some, arith, ltb}
use juicemud.Heap.{Heap, new, push, pop, peek, size, ◌>>=◌}
use juicemud.Heap.Order.{IsWeakOrder}
use juicemud.Heap.Laws.{IsValid, Pushed, push-Pushed, Popped, pop-Popped}

abbrev three : Heap ℕ
three = record { items = 2 ∷ 5 ∷ 3 ∷ []; less = ltb }

pushed_in_turn : (do a ← push (new ltb) 5; b ← push a 2; push b 3) ≡ some three
unfolding push new
pushed_in_turn = refl

popped_once : pop 0 three ≡ some ((2, true), record { items = 3 ∷ 5 ∷ []; less = ltb })
unfolding pop
popped_once = refl

shown : (peek 0 three ≡ (2, true)) × (size three ≡ 3)
unfolding peek size get_or
shown = (refl, refl)

ltb-IsWeakOrder : IsWeakOrder ltb
ltb-IsWeakOrder = record { asym = λ x y h. ground arith; trans = λ x y z h k. ground arith }

three-IsValid : IsValid 0 three
unfolding get_or
three-IsValid zero p q = absurd (omega arith)
three-IsValid (suc zero) p q = refl
three-IsValid (suc (suc zero)) p q = refl
three-IsValid (suc (suc (suc c))) p q = absurd (omega arith)

push-Pushed_example : Pushed 0 three 1 (push three 1)
push-Pushed_example = push-Pushed 0 three 1 ltb-IsWeakOrder three-IsValid

pop-Popped_example : Popped 0 three (pop 0 three)
pop-Popped_example = pop-Popped 0 three ltb-IsWeakOrder three-IsValid (omega arith)
