-- ===== src/Coroutine.antt =====
-- stutter/coroutine.cpp: a body that runs from one yield to the next. The switch of contexts is
-- ucontext's; what exec() of a subclass does is an argument, the values that it yields and the value
-- that it returns.
pub mod Laws
use libstutter.Common.{ℕ, zero, suc, List, [], ◌∷◌}
use libstutter.Common.Int.{ℤ, minus_one}

pub data State : Type 0 where
  init running done : State

-- `yields` is what the body has still to yield.
pub record Coroutine : Type 0 where
  pub state : State
  pub value : ℤ
  pub yields : List ℤ
  pub result : ℤ

-- Coroutine(), for a body.
unfoldable pub new_coroutine : List ℤ → ℤ → Coroutine
new_coroutine yields result = record {
  state = init;
  value = minus_one;
  yields = yields;
  result = result;
}

-- The body up to its next yield(); run() yields the value of exec() when it is done.
unfoldable pub run_on : Coroutine → List ℤ → Coroutine
run_on c [] = record c { state = done; value = c.result; yields = [] }
run_on c (v ∷ more) = record c { state = running; value = v; yields = more }

unfoldable pub resume : Coroutine → Coroutine × ℤ
resume c = elim c.state [
  | done ↦ (c, minus_one)
  | _ ↦ (run_on c c.yields, (run_on c c.yields).value)
]

-- What `n` resumes in a row return.
unfoldable pub resumes : Coroutine → ℕ → List ℤ
resumes c zero = []
resumes c (suc n) = (resume c).1 ∷ resumes (resume c).0 n
