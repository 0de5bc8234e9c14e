-- ===== src/Examples/Clients.antt =====
-- A client that sends requests.
use libstutter.Common.{arith, ◌≢◌, false, [], ◌∷◌, none}
use libstutter.Common.Int.{pos, minus_one}
use libstutter.Common.Bytes.{codes}
use libstutter.Examples.Toy.{finite, finite_io, finite_laws, toy}
use libstutter.Request.{new_request}
use libstutter.Reply.{Reply, new_reply}
use libstutter.PoolManager.{PoolManager}
use libstutter.Client
use libstutter.Client.{Client, new_client}
use libstutter.Client.Total.{send_returns}

abbrev plain_reply : Reply
plain_reply = (new_reply toy []).1

-- A manager with no pools, and a client of it.
abbrev no_pools : PoolManager
no_pools = record { pools = [] }

abbrev some_client : Client
some_client = record {
  fd = minus_one;
  error = Client.not_executed;
  done = false;
  host = codes "a";
  port = pos 80;
}

-- Two bytes are still to come, and three rounds are given.
send_returns_example :
    Client.send finite finite_io
      (codes "HT")
      no_pools
      (λ m. m)
      some_client
      new_request
      plain_reply
      (([], 1) ∷ ([], 1) ∷ ([], 1) ∷ [])
    ≢ none
unfolding finite_laws
send_returns_example =
    send_returns finite finite_io finite_laws (codes "HT") no_pools (λ m. m) some_client new_request
      plain_reply (([], 1) ∷ ([], 1) ∷ ([], 1) ∷ []) (omega arith)
