-- ===== src/ThreadPool/Workers.antt =====
-- Counting the threads of src/common/thread_pool.cpp by their state.
use mq_work.Common.{
  ℕ, zero, suc, ◌+◌, ◌≤◌, ◌<◌, ◌≡◌, refl, List, [], ◌∷◌, map, ap, arith, inl, inr, ◌⊎◌, replicate,
}
use mq_work.ThreadPool.{
  Worker, checking, asleep, running, exited, Turns, turn_here, turn_later, wake,
}

module _ {T : Type 0} where
  -- The sum of a weight over all threads.
  unfoldable pub tally : (Worker T → ℕ) → List (Worker T) → ℕ
  tally f [] = 0
  tally f (w ∷ ws) = f w + tally f ws

  abbrev pub awake : Worker T → ℕ
  awake checking = 1
  awake asleep = 0
  awake (running t) = 1
  awake exited = 0

  abbrev pub sleeping : Worker T → ℕ
  sleeping asleep = 1
  sleeping w = 0

  abbrev pub gone : Worker T → ℕ
  gone exited = 1
  gone w = 0

  abbrev pub any : Worker T → ℕ
  any w = 1

  pub tally-Turns :
      {a b : Worker T} (f : Worker T → ℕ) {ws ws' : List (Worker T)}
      → Turns a b ws ws'
      → (tally f ws' + f a ≡ tally f ws + f b) × (f a ≤ tally f ws) × (f b ≤ tally f ws')
  unfolding tally
  tally-Turns f (turn_here ws) = (omega arith, omega arith, omega arith)
  tally-Turns f (turn_later w t) =
      let (e, l, r) = tally-Turns f t in (omega arith, omega arith, omega arith)

  pub tally-wake :
      (f : Worker T → ℕ)
      → ((w : Worker T) → f (wake w) ≤ f w)
      → (ws : List (Worker T)) → tally f (map wake ws) ≤ tally f ws
  unfolding tally
  tally-wake f le [] = omega arith
  tally-wake f le (w ∷ ws) = omega (arith, le w, tally-wake f le ws)

  pub nobody-sleeping : (ws : List (Worker T)) → tally sleeping (map wake ws) ≡ 0
  unfolding tally
  nobody-sleeping [] = refl
  nobody-sleeping (checking ∷ ws) = omega (arith, nobody-sleeping ws)
  nobody-sleeping (asleep ∷ ws) = omega (arith, nobody-sleeping ws)
  nobody-sleeping (running t ∷ ws) = omega (arith, nobody-sleeping ws)
  nobody-sleeping (exited ∷ ws) = omega (arith, nobody-sleeping ws)

  -- Each thread is in one of the states.
  pub tally-any :
      (ws : List (Worker T)) → tally any ws ≡ tally awake ws + tally sleeping ws + tally gone ws
  unfolding tally
  tally-any [] = refl
  tally-any (checking ∷ ws) = omega (arith, tally-any ws)
  tally-any (asleep ∷ ws) = omega (arith, tally-any ws)
  tally-any (running t ∷ ws) = omega (arith, tally-any ws)
  tally-any (exited ∷ ws) = omega (arith, tally-any ws)

  -- A thread that is awake can take its turn.
  pub awake-Turns :
      (ws : List (Worker T))
      → 0 < tally awake ws
      → ((b : Worker T) → (ws' : List (Worker T)) × Turns checking b ws ws')
        ⊎ ((t : T) × ((ws' : List (Worker T)) × Turns (running t) checking ws ws'))
  unfolding tally
  awake-Turns [] h = absurd (omega arith)
  awake-Turns (checking ∷ ws) h = inl (λ b. (b ∷ ws, turn_here ws))
  awake-Turns (running t ∷ ws) h = inr (t, (checking ∷ ws, turn_here ws))
  awake-Turns (asleep ∷ ws) h = elim (awake-Turns ws (omega arith)) [
    | inl f ↦ inl (λ b. (asleep ∷ (f b).0, turn_later asleep (f b).1))
    | inr (t, (ws', u)) ↦ inr (t, (asleep ∷ ws', turn_later asleep u))
  ]
  awake-Turns (exited ∷ ws) h = elim (awake-Turns ws (omega arith)) [
    | inl f ↦ inl (λ b. (exited ∷ (f b).0, turn_later exited (f b).1))
    | inr (t, (ws', u)) ↦ inr (t, (exited ∷ ws', turn_later exited u))
  ]

  -- One of the waiting threads can be woken, unless there is none.
  pub asleep-Turns :
      (ws : List (Worker T))
      → ((ws' : List (Worker T)) × Turns asleep checking ws ws') ⊎ (map wake ws ≡ ws)
  asleep-Turns [] = inr refl
  asleep-Turns (asleep ∷ ws) = inl (checking ∷ ws, turn_here ws)
  asleep-Turns (checking ∷ ws) = elim (asleep-Turns ws) [
    | inl (ws', t) ↦ inl (checking ∷ ws', turn_later checking t)
    | inr e ↦ inr (ap (◌∷◌ checking) e)
  ]
  asleep-Turns (running t ∷ ws) = elim (asleep-Turns ws) [
    | inl (ws', u) ↦ inl (running t ∷ ws', turn_later (running t) u)
    | inr e ↦ inr (ap (◌∷◌ (running t)) e)
  ]
  asleep-Turns (exited ∷ ws) = elim (asleep-Turns ws) [
    | inl (ws', t) ↦ inl (exited ∷ ws', turn_later exited t)
    | inr e ↦ inr (ap (◌∷◌ exited) e)
  ]

  -- What `notify_all` does to the numbers of threads.
  pub tally-notify_all :
      (ws : List (Worker T))
      → (tally gone (map wake ws) ≡ tally gone ws)
        × (tally any (map wake ws) ≡ tally any ws)
        × (tally awake (map wake ws) ≡ tally awake ws + tally sleeping ws)
  unfolding tally
  tally-notify_all [] = (refl, refl, refl)
  tally-notify_all (checking ∷ ws) = ground (arith, tally-notify_all ws)
  tally-notify_all (asleep ∷ ws) = ground (arith, tally-notify_all ws)
  tally-notify_all (running t ∷ ws) = ground (arith, tally-notify_all ws)
  tally-notify_all (exited ∷ ws) = ground (arith, tally-notify_all ws)

  pub tally-replicate :
      (f : Worker T → ℕ) (n : ℕ)
      → ((f checking ≡ 1) → tally f (replicate n checking) ≡ n)
        × ((f checking ≡ 0) → tally f (replicate n checking) ≡ 0)
  unfolding tally
  tally-replicate f zero = ((λ h. refl), (λ h. refl))
  tally-replicate f (suc n) =
      let (one, none) = tally-replicate f n in
      ((λ h. omega (arith, one h)), (λ h. omega (arith, none h)))
