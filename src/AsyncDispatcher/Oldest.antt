-- ===== src/AsyncDispatcher/Oldest.antt =====
-- The policy `drop_oldest` on a full queue, which may hold flush requests.
use logspine.Prelude.{
  ℕ, suc, ◌+◌, ◌^◌, ◌<◌, ◌≡◌, sym, ap, ap₂, subst, ◌∙◌, arith, ltb, true, false, some, List, [],
  ◌∷◌, ◌++◌, map, length, length-append, replicate, append_assoc, lt→ltb, Bool,
}
use logspine.Event.{LogEvent}
use logspine.Dispatcher.{bump}
use logspine.AsyncDispatcher.{
  AsyncDispatcher, QueueItem, event, flush_request, OverflowPolicy, drop_oldest,
}
use logspine.AsyncDispatcher.Enqueue.{
  take_oldest, Attempt, Round, request_round, request_loop, enqueue_flush_request, make_room,
  overflow_round, event_round, event_loop, enqueue_event,
}

-- A round in which no other thread does anything.
abbrev pub quiet_round : (S : Type 0) → Round S
quiet_round S = record {
  refused = false;
  missed = false;
  waits = [];
  meanwhile = λ d. d;
  timed_out = false;
  elapsed = 0;
}

-- A first attempt that no other thread disturbs.
abbrev pub quiet_attempt : (S : Type 0) → Attempt S
quiet_attempt S = record { refused = false; meanwhile = λ d. d }

-- Flush requests with the ids.
abbrev pub requests : List ℕ → List QueueItem
requests = map flush_request

length-requests :
    (ids : List ℕ) (items : List QueueItem)
    → length (requests ids ++ items) ≡ length ids + length items
length-requests [] items = omega arith
length-requests (id ∷ ids) items = omega (arith, length-requests ids items)

ltb_irrefl : (a : ℕ) → ltb a a ≡ false
ltb_irrefl a = ground arith

module _ {S : Type 0} (e : LogEvent) where
  -- The parts of the dispatcher that change.
  abbrev with_parts : List QueueItem → Bool → ℕ → AsyncDispatcher S → AsyncDispatcher S
  with_parts items sleeping dropped d = record d {
    options = record (d.options) { overflow = drop_oldest };
    queue = items;
    stopping = false;
    sleeping = sleeping;
    dropped = dropped;
  }

  request_goes_back :
      (rounds : List (Round S)) (id : ℕ) (items : List QueueItem) (s : Bool) (k : ℕ)
      (d : AsyncDispatcher S)
      → d.capacity ≡ suc (length items)
      → event_loop (quiet_round S ∷ rounds) e (with_parts (flush_request id ∷ items) s k d)
        ≡ event_loop rounds e (with_parts (items ++ (flush_request id ∷ [])) false (bump k) d)
  unfolding event_loop event_round overflow_round make_room take_oldest enqueue_flush_request
      request_loop request_round
  request_goes_back rounds id items s k d full =
      ground (arith, ltb_irrefl (suc (length items)), lt→ltb (length items) (suc (length items)))

  event_goes :
      (rounds : List (Round S)) (x : LogEvent) (items : List QueueItem) (s : Bool) (k : ℕ)
      (d : AsyncDispatcher S)
      → d.capacity ≡ suc (length items)
      → event_loop (quiet_round S ∷ quiet_round S ∷ rounds) e (with_parts (event x ∷ items) s k d)
        ≡ some (true, with_parts (items ++ (event e ∷ [])) false (bump k) d)
  unfolding event_loop event_round overflow_round make_room take_oldest
  event_goes rounds x items s k d full =
      ground (arith, ltb_irrefl (suc (length items)), lt→ltb (length items) (suc (length items)))

  rotates :
      (ids : List ℕ) (x : LogEvent) (items : List QueueItem) (s : Bool) (k : ℕ)
      (d : AsyncDispatcher S)
      → d.capacity ≡ suc (length ids + length items)
      → k + length ids + 1 < 2 ^ 64
      → event_loop
          (replicate (suc (suc (length ids))) (quiet_round S))
          e
          (with_parts (requests ids ++ (event x ∷ items)) s k d)
        ≡ some (
          true,
          with_parts (items ++ (requests ids ++ (event e ∷ []))) false (k + length ids + 1) d,
        )
  rotates [] x items s k d full small =
      event_goes [] x items s k d (omega arith)
      ∙ ap (λ n. some (true, with_parts (items ++ (event e ∷ [])) false n d)) (omega arith)
  rotates (id ∷ ids) x items s k d full small =
      request_goes_back (replicate (suc (suc (length ids))) (quiet_round S)) id
        (requests ids ++ (event x ∷ items)) s k d
        (omega (arith, length-requests ids (event x ∷ items)))
      ∙ ap
          (λ q.
            event_loop (replicate (suc (suc (length ids))) (quiet_round S)) e
              (with_parts q false (bump k) d))
          (append_assoc (requests ids) (event x ∷ items) (flush_request id ∷ []))
      ∙ rotates ids x (items ++ (flush_request id ∷ [])) false (bump k) d
          (omega (arith, length-append items (flush_request id ∷ []))) (omega arith)
      ∙ ap₂ (λ q n. some (true, with_parts q false n d))
          (append_assoc items (flush_request id ∷ []) (requests ids ++ (event e ∷ [])))
          (omega arith)

  -- The dispatcher with what the hypotheses below fix.
  abbrev fixed : OverflowPolicy → Bool → List QueueItem → AsyncDispatcher S → AsyncDispatcher S
  fixed policy stopping items d = record d {
    options = record (d.options) { overflow = policy };
    stopping = stopping;
    queue = items;
  }

  abbrev Rotates :
      List ℕ → List QueueItem → OverflowPolicy → Bool → List QueueItem → AsyncDispatcher S → Type 0
  Rotates ids items policy stopping queue d =
      enqueue_event (quiet_attempt S) (replicate (suc (suc (length ids))) (quiet_round S)) e
        (fixed policy stopping queue d)
      ≡ some (
        true,
        record (fixed policy stopping queue d) {
          queue = items ++ (requests ids ++ (event e ∷ []));
          sleeping = false;
          dropped = d.dropped + length ids + 1;
        },
      )

  fixed-Rotates :
      (ids : List ℕ) (x : LogEvent) (items : List QueueItem) (d : AsyncDispatcher S)
      → length (requests ids ++ (event x ∷ items)) ≡ d.capacity
      → d.dropped + length ids + 1 < 2 ^ 64
      → Rotates ids items drop_oldest false (requests ids ++ (event x ∷ items)) d
  unfolding enqueue_event
  fixed-Rotates ids x items d full small =
      rw (full, ltb_irrefl d.capacity)
        (rotates ids x items d.sleeping d.dropped d
          (omega (arith, length-requests ids (event x ∷ items))) small)

  -- On a full queue `drop_oldest` removes the oldest event and queues the new one, without other
  -- threads. Flush requests before that event move behind the other items, just before the new
  -- event, and count as dropped as well. Two rounds more than these requests are enough. The counter
  -- has not come to its end.
  pub drop_oldest_rotates :
      (ids : List ℕ) (x : LogEvent) (items : List QueueItem) (d : AsyncDispatcher S)
      → d.stopping ≡ false
      → d.options.overflow ≡ drop_oldest
      → d.queue ≡ requests ids ++ (event x ∷ items)
      → length d.queue ≡ d.capacity
      → d.dropped + length ids + 1 < 2 ^ 64
      → enqueue_event (quiet_attempt S) (replicate (suc (suc (length ids))) (quiet_round S)) e d
        ≡ some (
          true,
          record d {
            queue = items ++ (requests ids ++ (event e ∷ []));
            sleeping = false;
            dropped = d.dropped + length ids + 1;
          },
        )
  drop_oldest_rotates ids x items d running policy holds full small =
      subst (λ p. Rotates ids items p d.stopping d.queue d) (sym policy)
        (subst (λ b. Rotates ids items drop_oldest b d.queue d) (sym running)
          (subst (λ q. Rotates ids items drop_oldest false q d) (sym holds)
            (fixed-Rotates ids x items d (ap length (sym holds) ∙ full) small)))
