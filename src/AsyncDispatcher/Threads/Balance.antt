-- ===== src/AsyncDispatcher/Threads/Balance.antt =====
-- What becomes of the calls of `dispatch`: each has queued its event, or was refused and counted, or
-- is under way; and every item that a caller removes is counted.
use logspine.Prelude.{ℕ, ◌+◌, ◌%◌, ◌^◌, ◌<◌, ◌≡◌, refl, arith}
use logspine.AsyncDispatcher.{AsyncDispatcher, QueueItem}
use logspine.AsyncDispatcher.Threads.{
  Caller, event_loop, flush_wait, Pc, starting, trying, looping, full, choosing, blocked, took,
  refusing, request, pushing, no_room, raising, requested, back_to, WorkerPc,
}
use logspine.AsyncDispatcher.Threads.Steps.{
  Move, Write, Push, Set, falls_asleep, wakes_up, completes, dispatches, finds_stopping, starts,
  enters_loop, has_no_room, full_stopping, full_running, newest, nothing_to_shed, blocks,
  tries_again, gives_up, request_stopping, request_running, request_full, full_request_stopping,
  waits_for_room, already_stopped, flush_returns, wakes, wakes_for, refuses, counts_event,
  counts_request, raises, stops, stop_wakes, stop_raises, first_try, in_loop, of_request,
}

-- A request that is put back belongs to a call of `dispatch`.
abbrev asker : Caller → ℕ
asker (event_loop e) = 1
asker flush_wait = 0

-- A call of `dispatch` is under way, and its event neither queued nor counted.
abbrev pub under_way : Pc → ℕ
under_way (starting e) = 1
under_way (trying e) = 1
under_way (looping e) = 1
under_way (full e) = 1
under_way (choosing e) = 1
under_way (blocked e) = 1
under_way (took item e) = 1
under_way refusing = 1
under_way (request id a) = asker a
under_way (pushing id a) = asker a
under_way (no_room id a) = asker a
under_way (raising id a) = asker a
under_way (requested id a) = asker a
under_way p = 0

-- An item has been removed, and is not counted yet.
abbrev pub holding : Pc → ℕ
holding (took item e) = 1
holding p = 0

back_to-under_way : (id : ℕ) (a : Caller) → under_way (back_to id a) ≡ asker a
back_to-under_way id (event_loop e) = refl
back_to-under_way id flush_wait = refl

back_to-holding : (id : ℕ) (a : Caller) → holding (back_to id a) ≡ 0
back_to-holding id (event_loop e) = refl
back_to-holding id flush_wait = refl

module _ {S : Type 0} {d : AsyncDispatcher S} where
  -- Such a step begins a call of `dispatch`.
  abbrev pub begins : {p q : Pc} → Move d p q → ℕ
  begins (dispatches e) = 1
  begins m = 0

  -- It refuses an event.
  abbrev pub refuses_event : {d' : AsyncDispatcher S} {p q : Pc} → Write d p d' q → ℕ
  refuses_event refuses = 1
  refuses_event w = 0

  -- It counts an item that was removed.
  abbrev pub counts_item : {d' : AsyncDispatcher S} {p q : Pc} → Write d p d' q → ℕ
  counts_item (counts_event x e) = 1
  counts_item (counts_request id e) = 1
  counts_item w = 0

  pub begins-balance :
      {p q : Pc} (m : Move d p q) → (under_way q ≡ under_way p + begins m) × (holding q ≡ holding p)
  begins-balance (dispatches e) = (omega arith, refl)
  begins-balance (finds_stopping e h) = (omega arith, refl)
  begins-balance (starts e h) = (omega arith, refl)
  begins-balance (enters_loop e) = (omega arith, refl)
  begins-balance (has_no_room e) = (omega arith, refl)
  begins-balance (full_stopping e h) = (omega arith, refl)
  begins-balance (full_running e h) = (omega arith, refl)
  begins-balance (newest e h) = (omega arith, refl)
  begins-balance (nothing_to_shed e h) = (omega arith, refl)
  begins-balance (blocks e h) = (omega arith, refl)
  begins-balance (tries_again e) = (omega arith, refl)
  begins-balance (gives_up e h) = (omega arith, refl)
  begins-balance (request_stopping id a h) = (omega arith, refl)
  begins-balance (request_running id a h) = (omega arith, refl)
  begins-balance (request_full id a) = (omega arith, refl)
  begins-balance (full_request_stopping id a h) = (omega arith, refl)
  begins-balance (waits_for_room id a h) = (omega arith, refl)
  begins-balance (already_stopped h) = (omega arith, refl)
  begins-balance (flush_returns id h) = (omega arith, refl)

  pub Write-balance :
      {d' : AsyncDispatcher S} {p q : Pc} (w : Write d p d' q)
      → (under_way q + refuses_event w ≡ under_way p) × (holding q + counts_item w ≡ holding p)
  Write-balance wakes = (omega arith, omega arith)
  Write-balance (wakes_for id a) =
      (omega (arith, back_to-under_way id a), omega (arith, back_to-holding id a))
  Write-balance refuses = (omega arith, omega arith)
  Write-balance (counts_event x e) = (omega arith, omega arith)
  Write-balance (counts_request id e) = (omega arith, omega arith)
  Write-balance (raises id a) =
      (omega (arith, back_to-under_way id a), omega (arith, back_to-holding id a))
  Write-balance (stops h) = (omega arith, omega arith)
  Write-balance stop_wakes = (omega arith, omega arith)
  Write-balance stop_raises = (omega arith, omega arith)

  pub Write-dropped :
      {d' : AsyncDispatcher S} {p q : Pc} (w : Write d p d' q)
      → d.dropped < 2 ^ 64
      → d'.dropped ≡ (d.dropped + refuses_event w + counts_item w) % 2 ^ 64
  Write-dropped wakes below = omega arith
  Write-dropped (wakes_for id a) below = omega arith
  Write-dropped refuses below = omega arith
  Write-dropped (counts_event x e) below = omega arith
  Write-dropped (counts_request id e) below = omega arith
  Write-dropped (raises id a) below = omega arith
  Write-dropped (stops h) below = omega arith
  Write-dropped stop_wakes below = omega arith
  Write-dropped stop_raises below = omega arith

  pub Set-dropped :
      {d' : AsyncDispatcher S} {w v : WorkerPc} → Set d w d' v → d'.dropped ≡ d.dropped
  Set-dropped falls_asleep = refl
  Set-dropped (wakes_up p) = refl
  Set-dropped (completes id batch) = refl

-- Such a step queues an event.
abbrev pub queues_event : {p q : Pc} {item : QueueItem} → Push p item q → ℕ
queues_event (first_try e) = 1
queues_event (in_loop e) = 1
queues_event (of_request id a) = 0

pub Push-balance :
    {p q : Pc} {item : QueueItem} (m : Push p item q)
    → (under_way q + queues_event m ≡ under_way p) × (holding q ≡ holding p)
Push-balance (first_try e) = (omega arith, refl)
Push-balance (in_loop e) = (omega arith, refl)
Push-balance (of_request id a) = (omega arith, refl)
