-- ===== src/Coroutine/Laws.antt =====
-- What a coroutine hands to those who resume it.
use libstutter.Common.{ℕ, zero, suc, ◌+◌, ◌≡◌, refl, ap, ◌∙◌, List, [], ◌∷◌, ◌++◌, arith, length}
use libstutter.Common.Int.{ℤ, minus_one}
use libstutter.Coroutine.{new_coroutine, running, done, resume, run_on, resumes}

-- The number -1, `n` times.
abbrev pub ended : ℕ → List ℤ
ended zero = []
ended (suc n) = minus_one ∷ ended n

resumes_done :
    (v r : ℤ) (ys : List ℤ) (n : ℕ)
    → resumes (record { state = done; value = v; yields = ys; result = r }) n ≡ ended n
unfolding resumes resume
resumes_done v r ys zero = refl
resumes_done v r ys (suc n) = ap (◌∷◌ minus_one) (resumes_done v r ys n)

resumes_running :
    (v : ℤ) (yields : List ℤ) (r : ℤ) (n calls : ℕ)
    → calls ≡ length yields + suc n
    → resumes (record { state = running; value = v; yields = yields; result = r }) calls
      ≡ yields ++ r ∷ ended n
unfolding resumes resume run_on
resumes_running v yields r n zero e = absurd (omega arith)
resumes_running v [] r n (suc calls) e =
    ap (◌∷◌ r) (resumes_done r r [] calls ∙ ap ended (omega arith))
resumes_running v (y ∷ yields) r n (suc calls) e =
    ap (◌∷◌ y) (resumes_running y yields r n calls (omega arith))

resumes_first :
    (yields : List ℤ) (r : ℤ) (calls : ℕ)
    → resumes (new_coroutine yields r) calls
      ≡ resumes (record (new_coroutine yields r) { state = running }) calls
unfolding new_coroutine resumes resume run_on
resumes_first yields r zero = refl
resumes_first [] r (suc calls) = refl
resumes_first (y ∷ yields) r (suc calls) = refl

-- The callers of resume() get the values that the body yields, in order, then what exec() returns,
-- and -1 however often they go on.
pub resumes-new_coroutine :
    (yields : List ℤ) (r : ℤ) (n : ℕ)
    → resumes (new_coroutine yields r) (length yields + suc n) ≡ yields ++ r ∷ ended n
unfolding new_coroutine
resumes-new_coroutine yields r n =
    resumes_first yields r (length yields + suc n)
    ∙ resumes_running minus_one yields r n (length yields + suc n) refl
