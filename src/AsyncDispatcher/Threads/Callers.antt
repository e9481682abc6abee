-- ===== src/AsyncDispatcher/Threads/Callers.antt =====
-- What holds of a caller wherever it stands: the id it has asked a flush for, and that the dispatcher
-- is stopping where it takes that for granted.
use logspine.Prelude.{ℕ, ◌≡◌, ◌≢◌, refl, Bool, true, false, Option, none, some}
use logspine.AsyncDispatcher.{AsyncDispatcher, QueueItem, flush_request}
use logspine.AsyncDispatcher.Threads.{
  Caller, event_loop, flush_wait, back_to, Pc, took, request, pushing, no_room, raising, requested,
  awaiting, stopped, woken,
}
use logspine.AsyncDispatcher.Threads.Steps.{
  Move, Write, Push, wakes, wakes_for, refuses, counts_event, counts_request, raises, stops,
  stop_wakes, stop_raises, first_try, in_loop, of_request, already_stopped, flush_returns,
  dispatches, finds_stopping, starts, enters_loop, has_no_room, full_stopping, full_running, newest,
  nothing_to_shed, blocks, tries_again, gives_up, request_stopping, request_running, request_full,
  full_request_stopping, waits_for_room,
}

abbrev pub asked : Pc → Option ℕ
asked (took (flush_request id) e) = some id
asked (request id a) = some id
asked (pushing id a) = some id
asked (no_room id a) = some id
asked (raising id a) = some id
asked (requested id a) = some id
asked (awaiting id) = some id
asked p = none

abbrev pub late : Pc → Bool
late (raising id a) = true
late stopped = true
late woken = true
late p = false

back_to-asked : (k : ℕ) (a : Caller) {id : ℕ} → asked (back_to k a) ≡ some id → some k ≡ some id
back_to-asked k (event_loop e) h = cc
back_to-asked k flush_wait h = h

back_to-late : (k : ℕ) (a : Caller) → late (back_to k a) ≢ true
back_to-late k (event_loop e) h = cc
back_to-late k flush_wait h = cc

pub both : {b : Bool} → b ≡ true → b ≢ false
both on off = cc

module _ {S : Type 0} where
  pub Move-asked :
      {d : AsyncDispatcher S} {p q : Pc} {id : ℕ}
      → Move d p q
      → asked q ≡ some id
      → asked p ≡ some id
  Move-asked (dispatches e) k = cc
  Move-asked (finds_stopping e h) k = cc
  Move-asked (starts e h) k = cc
  Move-asked (enters_loop e) k = cc
  Move-asked (has_no_room e) k = cc
  Move-asked (full_stopping e h) k = cc
  Move-asked (full_running e h) k = cc
  Move-asked (newest e h) k = cc
  Move-asked (nothing_to_shed e h) k = cc
  Move-asked (blocks e h) k = cc
  Move-asked (tries_again e) k = cc
  Move-asked (gives_up e h) k = cc
  Move-asked (request_stopping id a h) k = k
  Move-asked (request_running id a h) k = k
  Move-asked (request_full id a) k = k
  Move-asked (full_request_stopping id a h) k = k
  Move-asked (waits_for_room id a h) k = k
  Move-asked (already_stopped h) k = cc
  Move-asked (flush_returns id h) k = cc

  pub Move-late :
      {d : AsyncDispatcher S} {p q : Pc} → Move d p q → late q ≡ true → d.stopping ≡ true
  Move-late (dispatches e) k = cc
  Move-late (finds_stopping e h) k = cc
  Move-late (starts e h) k = cc
  Move-late (enters_loop e) k = cc
  Move-late (has_no_room e) k = cc
  Move-late (full_stopping e h) k = cc
  Move-late (full_running e h) k = cc
  Move-late (newest e h) k = cc
  Move-late (nothing_to_shed e h) k = cc
  Move-late (blocks e h) k = cc
  Move-late (tries_again e) k = cc
  Move-late (gives_up e h) k = cc
  Move-late (request_stopping id a h) k = h
  Move-late (request_running id a h) k = cc
  Move-late (request_full id a) k = cc
  Move-late (full_request_stopping id a h) k = h
  Move-late (waits_for_room id a h) k = cc
  Move-late (already_stopped h) k = cc
  Move-late (flush_returns id h) k = cc

  pub Write-asked :
      {d d' : AsyncDispatcher S} {p q : Pc} {id : ℕ}
      → Write d p d' q
      → asked q ≡ some id
      → asked p ≡ some id
  Write-asked wakes k = cc
  Write-asked (wakes_for i a) k = back_to-asked i a k
  Write-asked refuses k = cc
  Write-asked (counts_event x e) k = cc
  Write-asked (counts_request i e) k = k
  Write-asked (raises i a) k = back_to-asked i a k
  Write-asked (stops h) k = cc
  Write-asked stop_wakes k = cc
  Write-asked stop_raises k = cc

  pub Write-late :
      {d d' : AsyncDispatcher S} {p q : Pc}
      → Write d p d' q
      → (late p ≡ true → d.stopping ≡ true)
      → late q ≡ true
      → d'.stopping ≡ true
  Write-late wakes l k = cc
  Write-late (wakes_for i a) l k = absurd (back_to-late i a k)
  Write-late refuses l k = cc
  Write-late (counts_event x e) l k = cc
  Write-late (counts_request i e) l k = cc
  Write-late (raises i a) l k = absurd (back_to-late i a k)
  Write-late (stops h) l k = refl
  Write-late stop_wakes l k = l refl
  Write-late stop_raises l k = cc

  -- While the dispatcher is not stopping, no caller raises `completed_flush_id_`.
  pub Write-completed :
      {d d' : AsyncDispatcher S} {p q : Pc}
      → Write d p d' q
      → (late p ≡ true → d.stopping ≡ true)
      → d'.stopping ≡ false
      → d'.completed_flush_id ≡ d.completed_flush_id
  Write-completed wakes l off = refl
  Write-completed (wakes_for i a) l off = refl
  Write-completed refuses l off = refl
  Write-completed (counts_event x e) l off = refl
  Write-completed (counts_request i e) l off = refl
  Write-completed (raises i a) l off = absurd (both (l refl) off)
  Write-completed (stops h) l off = refl
  Write-completed stop_wakes l off = refl
  Write-completed stop_raises l off = absurd (both (l refl) off)

pub Push-asked :
    {p q : Pc} {item : QueueItem} {id : ℕ} → Push p item q → asked q ≡ some id → asked p ≡ some id
Push-asked (first_try e) k = cc
Push-asked (in_loop e) k = cc
Push-asked (of_request i a) k = k

pub Push-late : {p q : Pc} {item : QueueItem} → Push p item q → late q ≢ true
Push-late (first_try e) k = cc
Push-late (in_loop e) k = cc
Push-late (of_request i a) k = cc

pub Push-request :
    {p q : Pc} {item : QueueItem} {id : ℕ}
    → Push p item q
    → item ≡ flush_request id
    → asked p ≡ some id
Push-request (first_try e) k = cc
Push-request (in_loop e) k = cc
Push-request (of_request i a) k = cc
