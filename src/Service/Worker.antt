-- ===== src/Service/Worker.antt =====
-- The queue of a skipchain in omniledger/service/service.go: AddTransaction sends a transaction to the
-- worker, over a channel without a buffer, and the worker of createQueueWorker collects what it
-- receives and hands it to createNewBlock at each epoch. Which event comes next is not determined: the
-- events are steps.
pub mod Handled
use student_18_byzcoin.Bytes.{Bytes, equal}
use student_18_byzcoin.Common.{
  ◌==◌, if◌then◌else◌, version_mismatch, unknown_skipchain, no_transactions, Outcome, done, fail,
  length, ℕ, Bool, true, false, not, Option, none, some, List, [], ◌∷◌, ◌++◌,
}
use student_18_byzcoin.Service.Block.{current_version}
use student_18_byzcoin.Service.Order.{ClientTransaction}

-- struct AddTxRequest
pub record AddTxRequest : Type 0 where
  pub version : ℕ
  pub skipchain_id : Bytes
  pub transaction : ClientTransaction

-- what the goroutine has: `ts`, the lists that it gave to createNewBlock, and whether it returned
pub record Worker : Type 0 where
  pub ts : List ClientTransaction
  pub handed : List (List ClientTransaction)
  pub closed : Bool

-- queueWorkers
abbrev pub Workers : Type 0
Workers = List (Bytes × Worker)

-- a new worker
abbrev pub create_queue_worker : Worker
create_queue_worker = record { ts = []; handed = []; closed = false }

-- case t := <-c
unfoldable pub receive : ClientTransaction → Worker → Worker
receive t w = record w { ts = w.ts ++ (t ∷ []) }

-- case <-to: whatever createNewBlock returns, `ts` is empty after it
unfoldable pub epoch : Worker → Worker
epoch w = if length w.ts == 0 then w else record w { ts = []; handed = w.handed ++ (w.ts ∷ []) }

-- case <-s.CloseQueues
unfoldable pub close_queue : Worker → Worker
close_queue w = record w { closed = true }

-- queueWorkers[id]
unfoldable pub find_worker : Workers → Bytes → Option Worker
find_worker [] id = none
find_worker ((k, w) ∷ ws) id = let rest = find_worker ws id in if equal k id then some w else rest

-- the worker of a skipchain receives
unfoldable pub deliver : Bytes → ClientTransaction → Workers → Workers
unfolding receive
deliver id t [] = []
deliver id t ((k, w) ∷ ws) =
    let rest = deliver id t ws in if equal k id then (k, receive t w) ∷ ws else (k, w) ∷ rest

-- AddTransaction, once the worker has received: the send to a worker that returned blocks for ever
unfoldable pub add_transaction : AddTxRequest → Workers → Outcome Workers
unfolding find_worker deliver
add_transaction req ws =
    if not (req.version == current_version)
    then fail version_mismatch ws
    else elim (find_worker ws req.skipchain_id) [
      | none ↦ fail unknown_skipchain ws
      | some w ↦
          if length req.transaction == 0
          then fail no_transactions ws
          else done (deliver req.skipchain_id req.transaction ws)
    ]
