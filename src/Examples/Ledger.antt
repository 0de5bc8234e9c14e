-- ===== src/Examples/Ledger.antt =====
-- The pool of one target under a few calls.
use libstutter.Common.{◌≡◌, refl, List, [], ◌∷◌, All, arith}
use libstutter.Common.Int.{pos, minus_one}
use libstutter.Common.Bytes.{Bytes, codes}
use libstutter.IntSet.{contains, insert, erase}
use libstutter.Examples.Toy.{toy}
use libstutter.Pool
use libstutter.Pool.{SocketPool, new_pool}
use libstutter.Pool.Invariant.{IsPool}
use libstutter.Pool.Ledger.{
  unknown, lent, ledger, Call, put_back, forget, ask, History, call, calls,
}
use libstutter.Pool.Refinement.{new_pool-refines}
use libstutter.Pool.Exclusive.{Spares, calls-Spares}

-- A socket is opened, given back, lent again, and an unknown one is given back.
abbrev few_calls : List (Call Bytes)
few_calls =
    ask [] minus_one ∷ put_back (pos 9) ∷ ask [] (pos 4) ∷ put_back (pos 5) ∷ forget (pos 9) ∷ []

new_pool-refines_example :
    History
      (λ i. unknown)
      (calls toy (new_pool (codes "a") (pos 80)) few_calls).1
      (ledger (calls toy (new_pool (codes "a") (pos 80)) few_calls).0)
unfolding new_pool call Pool.get Pool.connect Pool.put contains insert erase
new_pool-refines_example =
    new_pool-refines toy (codes "a") (pos 80) few_calls (refl, (tt, (refl, (tt, (tt, tt)))))

-- A pool that has lent one descriptor, and has another.
abbrev one_lent : SocketPool
one_lent = record { host = codes "a"; port = pos 80; avail = pos 5 ∷ []; taken = pos 4 ∷ [] }

abbrev others : List (Call Bytes)
others = ask [] minus_one ∷ put_back (pos 5) ∷ []

one_lent-IsPool : IsPool one_lent
unfolding contains
one_lent-IsPool = record {
  avail_sorted = (tt, tt);
  taken_sorted = (tt, tt);
  disjoint = λ i h. ground arith;
  bounded = omega arith;
}

calls-Spares_example :
    All (Spares (pos 4)) (calls toy one_lent others).1
    × (ledger (calls toy one_lent others).0 (pos 4) ≡ lent)
unfolding call Pool.get Pool.put contains insert erase
calls-Spares_example =
    calls-Spares toy one_lent others (pos 4) one_lent-IsPool (refl, (tt, tt)) refl
      (tt, ((λ e. cc), tt))
