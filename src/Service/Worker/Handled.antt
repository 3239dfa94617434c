-- ===== src/Service/Worker/Handled.antt =====
-- No transaction that a worker received is lost, and none is handed on twice.
use student_18_byzcoin.Common.{All, ◌≡◌, ◌≢◌, false, Option, none, some, List, [], ◌∷◌, ◌++◌}
use student_18_byzcoin.Service.Order.{ClientTransaction}
use student_18_byzcoin.Service.Worker.{Worker, create_queue_worker, receive, epoch, close_queue}

-- An event of the select, with the transaction that it received.
pub data WorkerStep : Worker → Option ClientTransaction → Worker → Type 0 where
  receives :
      (w : Worker) (t : ClientTransaction) → w.closed ≡ false → WorkerStep w (some t) (receive t w)
  times_out : (w : Worker) → w.closed ≡ false → WorkerStep w none (epoch w)
  closes : (w : Worker) → w.closed ≡ false → WorkerStep w none (close_queue w)

abbrev pub with_received :
    List ClientTransaction → Option ClientTransaction → List ClientTransaction
with_received l none = l
with_received l (some t) = l ++ (t ∷ [])

-- A run of the worker from its start, with the transactions that it received, in their order.
pub data WorkerRun : List ClientTransaction → Worker → Type 0 where
  started : WorkerRun [] create_queue_worker
  stepped :
      {l : List ClientTransaction} {w v : Worker} (o : Option ClientTransaction)
      → WorkerRun l w
      → WorkerStep w o v
      → WorkerRun (with_received l o) v

abbrev pub all_handed : List (List ClientTransaction) → List ClientTransaction
all_handed [] = []
all_handed (l ∷ ls) = l ++ all_handed ls

-- what was handed on, and then what waits, is what was received; no list that was handed on is empty
pub record IsHandled (l : List ClientTransaction) (w : Worker) : Type 0 where
  pub in_order : all_handed w.handed ++ w.ts ≡ l
  pub not_idle : All (λ (x : List ClientTransaction). x ≢ []) w.handed
