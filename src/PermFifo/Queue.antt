-- ===== src/PermFifo/Queue.antt =====
-- What the FIFO of src/permanentFIFO.c promises: a queue without bound whose items get the ids 1, 2, …
-- in order. The counts are those of the items taken out; acknowledging and saving do not show.
use info_logger.Base.{ℕ, suc, List, [], ◌∷◌, ◌++◌}
use info_logger.CText.{Bytes}

-- A call under the mutex; the numbers are ids, timeouts and times.
pub data Op : Type 0 where
  write : Bytes → ℕ → Op
  read : Op
  flush : ℕ → ℕ → Op
  ack : ℕ → Op

pub data Reply : Type 0 where
  done : Reply
  nothing : Reply
  item : ℕ → Bytes → Reply
  failed : Reply

pub record Queue : Type 0 where
  pub taken : ℕ
  pub pending : List Bytes

unfoldable pub pull : ℕ → List Bytes → Reply × Queue
pull n [] = (nothing, record { taken = n; pending = [] })
pull n (b ∷ bs) = (item (suc n) b, record { taken = suc n; pending = bs })

unfoldable pub step : Queue → Op → Reply × Queue
step q (write b now) = (done, record q { pending = q.pending ++ b ∷ [] })
step q read = pull q.taken q.pending
step q (flush timeout now) = (done, q)
step q (ack id) = (done, q)

unfoldable pub run : Queue → List Op → List Reply
unfolding step
run q [] = []
run q (o ∷ os) = let (r, q') = step q o in r ∷ run q' os
