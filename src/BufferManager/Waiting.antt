-- ===== src/BufferManager/Waiting.antt =====
-- The loop of `read_ready_groups_blocking` of server/buffer_manager.cc.
use transfer_queue.Prelude.{
  ℕ, zero, suc, ◌+◌, ◌*◌, ◌^◌, ◌≤◌, ◌<◌, ◌≡◌, ◌⊎◌, refl, Bool, true, Bool-cases, inl, inr, arith,
}
use transfer_queue.Prelude.Int.{pos, ltb_ℤ}
use transfer_queue.Action.{Action, Result, ok}
use transfer_queue.Platform.Runtime.{Runtime, View, IsReliable}
use transfer_queue.BufferManager.{Server, has_ready_groups, now_of, wait_ready}

-- 10 ms, in nanoseconds.
abbrev pub pause : ℕ
pause = 10000000

module _ {W H F : Type 0} (rt : Runtime W H F) (v : View W H) where
  abbrev pub time_of : Server W F → ℕ
  time_of s = v.time s.env.world

  -- `seastar::sleep` returns after 10 ms, as long as the clock does not overflow.
  pub record IsSleep (sleep : Action (Server W F) (Unit {0})) : Type 0 where
    pub returns : (s : Server W F) → (sleep s).0 ≡ ok tt
    pub lasts :
        (s : Server W F) → time_of s + pause < 2 ^ 63 → time_of s + pause ≤ time_of (sleep s).1

  -- The loop has stopped: a group is ready, or the deadline has passed.
  pub record Waited (deadline : ℕ) (r : Result Bool × Server W F) : Type 0 where
    pub stopped : r.0 ≡ ok true
    pub reason : (has_ready_groups rt r.1 ≡ true) ⊎ (deadline ≤ time_of r.1)

  module _ (reliable : IsReliable rt v) (sleep : Action (Server W F) (Unit {0}))
      (sleeps : IsSleep sleep) where
    -- One round, given what follows the pause.
    wait_ready-round :
        (fuel deadline : ℕ) (s : Server W F)
        → (time_of (now_of rt s).1 < deadline
            → time_of s ≤ time_of (now_of rt s).1
            → Waited deadline (wait_ready rt sleep fuel (pos deadline) (sleep (now_of rt s).1).1))
        → Waited deadline (wait_ready rt sleep (suc fuel) (pos deadline) s)
    unfolding wait_ready
    wait_ready-round fuel deadline s next = elim (Bool-cases (has_ready_groups rt s)) [
      | inl ready ↦ rw ready (record { stopped = refl; reason = inl ready })
      | inr none_ready ↦
          let (t, told, positive, bounded, late, time, same) = reliable.now_lem s.env.world in
          rw (none_ready, told)
            (elim (Bool-cases (ltb_ℤ (pos t) (pos deadline))) [
              | inr over ↦
                  rw over (record { stopped = refl; reason = inr (ground (arith, over, time)) })
              | inl early ↦
                  rw (early, sleeps.returns (now_of rt s).1)
                    (next (ground (arith, early, time)) (ground (arith, late, time)))
            ])
    ]

    -- Whatever the rest of the server does during the pauses, the loop stops after one round for
    -- each 10 ms that are left and one more, and only when a group is ready or the deadline has
    -- passed.
    pub wait_ready-Waited :
        (k deadline : ℕ) (s : Server W F)
        → deadline + pause < 2 ^ 63
        → deadline ≤ time_of s + k * pause
        → Waited deadline (wait_ready rt sleep (suc k) (pos deadline) s)
    wait_ready-Waited zero deadline s h enough =
        wait_ready-round zero deadline s (λ early late. absurd (omega (arith, early, late)))
    wait_ready-Waited (suc k) deadline s h enough =
        wait_ready-round (suc k) deadline s (λ early late.
          wait_ready-Waited k deadline (sleep (now_of rt s).1).1 h
            (omega (arith, early, late, sleeps.lasts (now_of rt s).1 (omega (arith, early, h)))))
