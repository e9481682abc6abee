-- ===== src/SyncDispatcher/Isolation.antt =====
-- A sink that throws does not keep the event from the others.
use logspine.Prelude.{
  ℕ, zero, suc, ◌+◌, ◌%◌, ◌^◌, ◌<◌, ◌==◌, ◌≡◌, refl, if◌then◌else◌, Bool, List, [], ◌∷◌, arith,
  length, ◌≤◌,
}
use logspine.Event.{LogEvent}
use logspine.Dispatcher.{SinkClass, bump}
use logspine.SyncDispatcher.{SyncDispatcher, update, call_all, dispatch, flush}

-- How often a sink stands in the list.
unfoldable pub count : ℕ → List ℕ → ℕ
count a [] = 0
count a (x ∷ xs) = if x == a then suc (count a xs) else count a xs

unfoldable pub times : {S : Type 0} → ℕ → (S → S) → S → S
times zero f s = s
times (suc n) f s = times n f (f s)

module _ {S : Type 0} (c : SinkClass S) where
  -- The number of calls of the loop that throw.
  unfoldable pub throws : (S → S × Bool) → List ℕ → (ℕ → S) → ℕ
  throws call [] store = 0
  throws call (s ∷ sinks) store =
      (if (call (store s)).1 then 1 else 0) + throws call sinks (update store s (call (store s)).0)

  pub call_all-store :
      (call : S → S × Bool) (sinks : List ℕ) (store : ℕ → S) (n i : ℕ)
      → (call_all c call sinks store n).0 i ≡ times (count i sinks) (λ s. (call s).0) (store i)
  unfolding call_all count times
  call_all-store call [] store n i = refl
  call_all-store call (s ∷ sinks) store n i =
      let (after, threw) = call (store s) in
      ground
        (arith, call_all-store call sinks (update store s after) (if threw then bump n else n) i)

  call_all-failures :
      (call : S → S × Bool) (sinks : List ℕ) (store : ℕ → S) (n : ℕ)
      → n < 2 ^ 64
      → (call_all c call sinks store n).1 ≡ (n + throws call sinks store) % 2 ^ 64
  unfolding call_all throws
  call_all-failures call [] store n h = omega arith
  call_all-failures call (s ∷ sinks) store n h =
      let (after, threw) = call (store s) in
      ground (
        arith,
        call_all-failures call sinks (update store s after) n,
        call_all-failures call sinks (update store s after) (bump n),
      )

  -- Every sink gets the event as often as it stands in the list, whatever other sinks throw, and
  -- the failure counter grows by the number of calls that threw, modulo 2 ^ 64. The counter is below 2 ^ 64
  -- before.
  pub dispatch_isolates :
      (event : LogEvent) (d : SyncDispatcher S)
      → d.failures < 2 ^ 64
      → ((i : ℕ)
          → (dispatch c event d).store i
            ≡ times (count i d.sinks) (λ s. (c.write event s).0) (d.store i))
        × ((dispatch c event d).failures
            ≡ (d.failures + throws (c.write event) d.sinks d.store) % 2 ^ 64)
        × ((dispatch c event d).sinks ≡ d.sinks)
  unfolding dispatch
  dispatch_isolates event d h = (
    λ i. call_all-store (c.write event) d.sinks d.store d.failures i,
    call_all-failures (c.write event) d.sinks d.store d.failures h,
    refl,
  )

  -- A flush reaches every sink as often as it stands in the list, whatever other sinks throw, and
  -- the failure counter grows by the number of calls that threw, modulo 2 ^ 64. The counter is below
  -- 2 ^ 64 before.
  flush_isolates :
      (d : SyncDispatcher S)
      → d.failures < 2 ^ 64
      → ((i : ℕ) → (flush c d).store i ≡ times (count i d.sinks) (λ s. (c.flush s).0) (d.store i))
        × ((flush c d).failures ≡ (d.failures + throws c.flush d.sinks d.store) % 2 ^ 64)
        × ((flush c d).sinks ≡ d.sinks)
  unfolding flush
  flush_isolates d h = (
    λ i. call_all-store c.flush d.sinks d.store d.failures i,
    call_all-failures c.flush d.sinks d.store d.failures h,
    refl,
  )

  throws-le :
      (call : S → S × Bool) (sinks : List ℕ) (store : ℕ → S)
      → throws call sinks store ≤ length sinks
  unfolding throws
  throws-le call [] store = omega arith
  throws-le call (s ∷ sinks) store =
      ground (arith, throws-le call sinks (update store s (call (store s)).0))

  -- A dispatch counts at most one failure for each entry of the list of sinks, and takes none back,
  -- while the counter has room for them.
  pub dispatch_failures-le :
      (event : LogEvent) (d : SyncDispatcher S)
      → d.failures + length d.sinks < 2 ^ 64
      → (d.failures ≤ (dispatch c event d).failures)
        × ((dispatch c event d).failures ≤ d.failures + length d.sinks)
  dispatch_failures-le event d h = omega (
    arith,
    (dispatch_isolates event d (omega arith)).1,
    throws-le (c.write event) d.sinks d.store,
  )
