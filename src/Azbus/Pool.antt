-- ===== src/Azbus/Pool.antt =====
-- (*Receiver).receiveMessages of azbus/receiver.go: the loop that receives, its channel of messages,
-- its WaitGroup and its workers, one for each handler, as a step relation. What a worker does with a
-- message is Azbus.Receiver.process_message. `M` is the type of messages.
pub mod Account
pub mod Stuck
use go_rkvstcommon.Prelude.{
  ℕ, zero, suc, ◌+◌, ◌-◌, ◌<◌, ◌≡◌, Bool, true, false, List, [], ◌∷◌, ◌++◌, length,
}

module _ (M : Type 0) where
  -- A worker waits at its select, processes a message, or has returned.
  pub data Worker : Type 0 where
    idle : Worker
    busy : M → Worker
    stopped : Worker

  -- Where the main loop stands: at ReceiveMessages; at the next round of the loop over the messages
  -- still to be sent; between wg.Add(1) and the send of a message; at wg.Wait; or returned.
  pub data Phase : Type 0 where
    receiving : Phase
    sending : List M → Phase
    pushing : M → List M → Phase
    waiting : Phase
    returned : Phase

  -- `queue` is what the channel holds, whose capacity is the number of workers, `received` all that
  -- ReceiveMessages returned and `processed` what the workers are done with.
  pub record Pool : Type 0 where
    pub phase : Phase
    pub queue : List M
    pub workers : List Worker
    pub wg : ℕ
    pub cancelled : Bool
    pub received : List M
    pub processed : List M

  replicate : ℕ → List Worker
  replicate zero = []
  replicate (suc n) = idle ∷ replicate n

  -- receiveMessages before its first receive, with n handlers
  unfoldable pub start : ℕ → Pool
  unfolding replicate
  start n = record {
    phase = receiving;
    queue = [];
    workers = replicate n;
    wg = 0;
    cancelled = false;
    received = [];
    processed = [];
  }

  -- What the main loop, a worker, or the caller of Shutdown does next.
  pub data Step : Pool → Pool → Type 0 where
    -- messages, err = r.receiver.ReceiveMessages(...)
    receive :
        (t : Pool) (ms : List M)
        → t.phase ≡ receiving
        → Step t (record t { phase = sending ms; received = t.received ++ ms })
    -- if err != nil { return azerr }
    fail_receive : (t : Pool) → t.phase ≡ receiving → Step t (record t { phase = returned })
    -- wg.Add(1)
    add :
        (t : Pool) (m : M) (ms : List M)
        → t.phase ≡ sending (m ∷ ms)
        → Step t (record t { phase = pushing m ms; wg = t.wg + 1 })
    -- msgs <- messages[i], which waits while the channel is full
    push :
        (t : Pool) (m : M) (ms : List M)
        → t.phase ≡ pushing m ms
        → length t.queue < length t.workers
        → Step t (record t { phase = sending ms; queue = t.queue ++ m ∷ [] })
    -- the loop over the messages ends
    all_sent : (t : Pool) → t.phase ≡ sending [] → Step t (record t { phase = waiting })
    -- wg.Wait() returns
    wait : (t : Pool) → t.phase ≡ waiting → t.wg ≡ 0 → Step t (record t { phase = receiving })
    -- case msg := <-msgs
    take :
        (t : Pool) (m : M) (ms : List M) (ws us : List Worker)
        → t.queue ≡ m ∷ ms
        → t.workers ≡ ws ++ idle ∷ us
        → Step t (record t { queue = ms; workers = ws ++ busy m ∷ us })
    -- the message is processed, and then wg.Done()
    finish :
        (t : Pool) (m : M) (ws us : List Worker)
        → t.workers ≡ ws ++ busy m ∷ us
        → Step t (record t {
          workers = ws ++ idle ∷ us;
          wg = t.wg - 1;
          processed = t.processed ++ m ∷ [];
        })
    -- r.cancel()
    cancel : (t : Pool) → Step t (record t { cancelled = true })
    -- case <-rctx.Done(): return
    stop :
        (t : Pool) (ws us : List Worker)
        → t.cancelled ≡ true
        → t.workers ≡ ws ++ idle ∷ us
        → Step t (record t { workers = ws ++ stopped ∷ us })

  pub data Reach (s : Pool) : Pool → Type 0 where
    here : Reach s s
    next : {t u : Pool} → Reach s t → Step t u → Reach s u
