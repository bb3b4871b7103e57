-- ===== src/Azbus/Pool/Stuck.antt =====
-- A shutdown of receiveMessages while a message waits in its channel.
use mathlib.Core.Path.{subst}
use go_rkvstcommon.Prelude.{◌<◌, ◌≡◌, refl, true, false, List, [], ◌∷◌, ◌++◌, arith, All}
use go_rkvstcommon.Azbus.Pool.{
  Worker, idle, busy, stopped, waiting, receiving, Pool, replicate, start, Step, receive,
  fail_receive, add, push, all_sent, wait, take, finish, cancel, stop, Reach, here, next,
}

module _ {M : Type 0} where
  abbrev pub HasStopped : Worker M → Type 0
  HasStopped w = w ≡ stopped

  -- wg.Wait waits, no message was processed, and no worker is left.
  abbrev pub IsStuck : Pool M → Type 0
  IsStuck t = (t.phase ≡ waiting) × (0 < t.wg) × (t.processed ≡ []) × All HasStopped t.workers

  stopped-not_idle : (ws us : List (Worker M)) → All HasStopped (ws ++ idle ∷ us) → ⊥
  stopped-not_idle [] us a = cc
  stopped-not_idle (w ∷ ws) us a = stopped-not_idle ws us a.1

  stopped-not_busy : (m : M) (ws us : List (Worker M)) → All HasStopped (ws ++ busy m ∷ us) → ⊥
  stopped-not_busy m [] us a = cc
  stopped-not_busy m (w ∷ ws) us a = stopped-not_busy m ws us a.1

  Step-IsStuck : {t u : Pool M} → Step M t u → IsStuck t → IsStuck u
  Step-IsStuck (receive t ms p) a = ground arith
  Step-IsStuck (fail_receive t p) a = ground arith
  Step-IsStuck (add t m ms p) a = ground arith
  Step-IsStuck (push t m ms p r) a = ground arith
  Step-IsStuck (all_sent t p) a = ground arith
  Step-IsStuck (wait t p z) a = ground arith
  Step-IsStuck (take t m ms ws us q w) a =
      absurd (stopped-not_idle ws us (subst (All HasStopped) w a.3))
  Step-IsStuck (finish t m ws us w) a =
      absurd (stopped-not_busy m ws us (subst (All HasStopped) w a.3))
  Step-IsStuck (cancel t) a = a
  Step-IsStuck (stop t ws us c w) a = absurd (stopped-not_idle ws us (subst (All HasStopped) w a.3))

  Reach-IsStuck : {t u : Pool M} → Reach M t u → IsStuck t → IsStuck u
  Reach-IsStuck here a = a
  Reach-IsStuck (next r s) a = Step-IsStuck s (Reach-IsStuck r a)

  -- With one handler, and any message m, the main loop can wait at wg.Wait while m is in the channel
  -- and no shutdown has begun. From there m can be processed and wg.Wait left. But from there too
  -- Shutdown can cancel, with m still in the channel, so that in no run from then on wg.Wait is left,
  -- so that receiveMessages never returns, and in none is any message processed.
  pub cancel-can_hang :
      (m : M)
      → (s : Pool M) × Reach M (start M 1) s
        × ((s.phase ≡ waiting) × (s.queue ≡ m ∷ []) × (s.cancelled ≡ false))
        × ((v : Pool M) × Reach M s v × (v.phase ≡ receiving) × (v.processed ≡ m ∷ []))
        × (t : Pool M) × Reach M s t
        × ((t.queue ≡ m ∷ []) × (t.cancelled ≡ true))
        × ((u : Pool M) → Reach M t u → (u.phase ≡ waiting) × (u.processed ≡ []))
  unfolding start replicate
  cancel-can_hang m =
      let r1 = next here (receive (start M 1) (m ∷ []) refl) in
      let r2 = next r1 (add _ m [] refl) in
      let r3 = next r2 (push _ m [] refl (omega arith)) in
      let r4 = next r3 (all_sent _ refl) in
      let p1 = next here (take _ m [] [] [] refl refl) in
      let p2 = next p1 (finish _ m [] [] refl) in
      let p3 = next p2 (wait _ refl refl) in
      let c1 = next here (cancel _) in
      let c2 = next c1 (stop _ [] [] refl refl) in
      (
        _,
        r4,
        (refl, refl, refl),
        (_, p3, refl, refl),
        _,
        c2,
        (refl, refl),
        λ u r. let a = Reach-IsStuck r (refl, omega arith, refl, (refl, tt)) in (a.0, a.2),
      )
