-- ===== src/Azbus/Pool/Account.antt =====
-- Where the messages of receiveMessages are: its WaitGroup counts those under way, and none is lost
-- or processed twice.
use go_rkvstcommon.Prelude.{ℕ, zero, suc, ◌+◌, ◌<◌, ◌≡◌, refl, List, [], ◌∷◌, ◌++◌, arith}
use go_rkvstcommon.Azbus.Pool.{
  Worker, idle, busy, stopped, Phase, receiving, sending, pushing, waiting, returned, Pool,
  replicate, start, Step, receive, fail_receive, add, push, all_sent, wait, take, finish, cancel,
  stop, Reach, here, next,
}

module _ {M : Type 0} (f : M → ℕ) where
  -- The sum of the weights f of messages
  abbrev pub total : List M → ℕ
  total [] = 0
  total (m ∷ ms) = f m + total ms

  abbrev pub load : Worker M → ℕ
  load idle = 0
  load (busy m) = f m
  load stopped = 0

  -- ... of those that workers process
  abbrev pub in_work : List (Worker M) → ℕ
  in_work [] = 0
  in_work (w ∷ ws) = load w + in_work ws

  -- ... of the one that is counted and not sent yet
  abbrev pub counted : Phase M → ℕ
  counted receiving = 0
  counted (sending ms) = 0
  counted (pushing m ms) = f m
  counted waiting = 0
  counted returned = 0

  -- ... of those that are not counted yet
  abbrev pub unsent : Phase M → ℕ
  unsent receiving = 0
  unsent (sending ms) = total ms
  unsent (pushing m ms) = total ms
  unsent waiting = 0
  unsent returned = 0

  -- ... of those under way
  abbrev pub under_way : Pool M → ℕ
  under_way t = total t.queue + in_work t.workers + counted t.phase

  total-append : (ms ns : List M) → total (ms ++ ns) ≡ total ms + total ns
  total-append [] ns = omega arith
  total-append (m ∷ ms) ns = ground (arith, total-append ms ns)

  in_work-append : (ws us : List (Worker M)) → in_work (ws ++ us) ≡ in_work ws + in_work us
  in_work-append [] us = omega arith
  in_work-append (w ∷ ws) us = ground (arith, in_work-append ws us)

  replicate-in_work : (n : ℕ) → in_work (replicate M n) ≡ 0
  unfolding replicate
  replicate-in_work zero = refl
  replicate-in_work (suc n) = ground (arith, replicate-in_work n)

  -- No message is lost, and none is there twice.
  abbrev pub Accounts : Pool M → Type 0
  Accounts t = total t.received ≡ total t.processed + under_way t + unsent t.phase

  Step-Accounts : {t u : Pool M} → Step M t u → Accounts t → Accounts u
  Step-Accounts (receive t ms p) a = ground (arith, total-append t.received ms)
  Step-Accounts (fail_receive t p) a = ground arith
  Step-Accounts (add t m ms p) a = ground arith
  Step-Accounts (push t m ms p r) a = ground (arith, total-append t.queue (m ∷ []))
  Step-Accounts (all_sent t p) a = ground arith
  Step-Accounts (wait t p z) a = ground arith
  Step-Accounts (take t m ms ws us q w) a =
      ground (arith, in_work-append ws (idle ∷ us), in_work-append ws (busy m ∷ us))
  Step-Accounts (finish t m ws us w) a = ground (
    arith,
    total-append t.processed (m ∷ []),
    in_work-append ws (idle ∷ us),
    in_work-append ws (busy m ∷ us),
  )
  Step-Accounts (cancel t) a = a
  Step-Accounts (stop t ws us c w) a =
      ground (arith, in_work-append ws (idle ∷ us), in_work-append ws (stopped ∷ us))

  Reach-Accounts : (n : ℕ) {t : Pool M} → Reach M (start M n) t → Accounts t
  unfolding start
  Reach-Accounts n here = ground (arith, replicate-in_work n)
  Reach-Accounts n (next r s) = Step-Accounts s (Reach-Accounts n r)

module _ {M : Type 0} where
  -- the weight that counts messages
  abbrev pub one : M → ℕ
  one m = 1

  none_left : (f : M → ℕ) (ms : List M) → total one ms ≡ 0 → total f ms ≡ 0
  none_left f [] z = refl
  none_left f (m ∷ ms) z = omega arith

  none_busy : (f : M → ℕ) (ws : List (Worker M)) → in_work one ws ≡ 0 → in_work f ws ≡ 0
  none_busy f [] z = refl
  none_busy f (idle ∷ ws) z = ground (arith, none_busy f ws)
  none_busy f (busy m ∷ ws) z = omega arith
  none_busy f (stopped ∷ ws) z = ground (arith, none_busy f ws)

  -- The WaitGroup counts the messages under way, and none is while ReceiveMessages is called.
  abbrev pub Counts : Pool M → Type 0
  Counts t =
      (t.wg ≡ under_way one t)
      × ((t.phase ≡ receiving → t.wg ≡ 0) × (t.phase ≡ returned → t.wg ≡ 0))

  Step-Counts : {t u : Pool M} → Step M t u → Counts t → Counts u
  Step-Counts (receive t ms p) a = ground arith
  Step-Counts (fail_receive t p) a = ground arith
  Step-Counts (add t m ms p) a = ground arith
  Step-Counts (push t m ms p r) a = ground (arith, total-append one t.queue (m ∷ []))
  Step-Counts (all_sent t p) a = ground arith
  Step-Counts (wait t p z) a = ground arith
  Step-Counts (take t m ms ws us q w) a =
      ground (arith, in_work-append one ws (idle ∷ us), in_work-append one ws (busy m ∷ us))
  Step-Counts (finish t m ws us w) a =
      ground (arith, in_work-append one ws (idle ∷ us), in_work-append one ws (busy m ∷ us))
  Step-Counts (cancel t) a = a
  Step-Counts (stop t ws us c w) a =
      ground (arith, in_work-append one ws (idle ∷ us), in_work-append one ws (stopped ∷ us))

  Reach-Counts : (n : ℕ) {t : Pool M} → Reach M (start M n) t → Counts t
  unfolding start
  Reach-Counts n here = ground (arith, replicate-in_work one n)
  Reach-Counts n (next r s) = Step-Counts s (Reach-Counts n r)

  -- In every reachable state in which a worker processes a message the WaitGroup is above 0, so that
  -- wg.Done never takes it below.
  wait_group-positive :
      (n : ℕ) (t : Pool M) (m : M) (ws us : List (Worker M))
      → Reach M (start M n) t
      → t.workers ≡ ws ++ busy m ∷ us
      → 0 < t.wg
  wait_group-positive n t m ws us r w =
      ground (arith, Reach-Counts n r, in_work-append one ws (busy m ∷ us))

  -- Whenever ReceiveMessages is called, from the first time on, each message received so far was
  -- processed exactly as often as it was received: for every weight f of messages the sums are equal.
  pub receiving-processed :
      (n : ℕ) (t : Pool M) (f : M → ℕ)
      → Reach M (start M n) t
      → t.phase ≡ receiving
      → total f t.received ≡ total f t.processed
  receiving-processed n t f r p =
      ground
        (arith, Reach-Counts n r, Reach-Accounts f n r, none_left f t.queue, none_busy f t.workers)
