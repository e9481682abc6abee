-- ===== src/AsyncDispatcher/Threads/Kept.antt =====
-- What a step on flags, or a step of the worker, leaves as it was.
use logspine.AsyncDispatcher.{AsyncDispatcher}
use logspine.AsyncDispatcher.Same.{as_sync}
use logspine.AsyncDispatcher.Threads.{Pc, WorkerPc, completing, held}
use logspine.AsyncDispatcher.Threads.Steps.{
  Pop, Set, Turn, Write, batch_done, completes, counts_event, counts_request, decides_to_drain,
  decides_to_fill, drained, drained_all, drains, drains_last, falls_asleep, filled, fills,
  finds_nothing, finds_nothing_again, looks_stopping, raises, refuses, sees_running, sees_stopping,
  stop_raises, stop_wakes, stops, takes, takes_again, waits, wakes, wakes_for, wakes_up,
}
use logspine.Prelude.{
  Option, [], false, inl, inr, ltb, none, refl, some, true, ℕ, ◌++◌, ◌∷◌, Bool, if◌then◌else◌, ◌≡◌,
  ◌⊎◌,
}

pub if_cases :
    {A : Type 0} (P : A → Type 0) (b : Bool) (x y : A) → P x → P y → P (if b then x else y)
if_cases P true x y p q = p
if_cases P false x y p q = q

-- What a change of flags and counters leaves.
pub record Kept {S : Type 0} (d d' : AsyncDispatcher S) : Type 0 where
  pub queue : d'.queue ≡ d.queue
  pub capacity : d'.capacity ≡ d.capacity
  pub next_flush_id : d'.next_flush_id ≡ d.next_flush_id
  pub options : d'.options ≡ d.options
  pub synced : as_sync d' ≡ as_sync d

module _ {S : Type 0} where
  same :
      (d d' : AsyncDispatcher S)
      → d'.queue ≡ d.queue
      → d'.capacity ≡ d.capacity
      → d'.next_flush_id ≡ d.next_flush_id
      → d'.options ≡ d.options
      → as_sync d' ≡ as_sync d
      → Kept d d'
  same d d' q c n o s = record {
    options = o;
    queue = q;
    capacity = c;
    next_flush_id = n;
    synced = s;
  }

  pub Write-Kept : {d d' : AsyncDispatcher S} {p q : Pc} → Write d p d' q → Kept d d'
  Write-Kept wakes = same _ _ refl refl refl refl refl
  Write-Kept (wakes_for id a) = same _ _ refl refl refl refl refl
  Write-Kept refuses = same _ _ refl refl refl refl refl
  Write-Kept (counts_event x e) = same _ _ refl refl refl refl refl
  Write-Kept (counts_request id e) = same _ _ refl refl refl refl refl
  Write-Kept (raises id a) = same _ _ refl refl refl refl refl
  Write-Kept (stops h) = same _ _ refl refl refl refl refl
  Write-Kept stop_wakes = same _ _ refl refl refl refl refl
  Write-Kept stop_raises = same _ _ refl refl refl refl refl

  pub Set-Kept : {d d' : AsyncDispatcher S} {w v : WorkerPc} → Set d w d' v → Kept d d'
  Set-Kept falls_asleep = same _ _ refl refl refl refl refl
  Set-Kept (wakes_up p) = same _ _ refl refl refl refl refl
  Set-Kept (completes id batch) = same _ _ refl refl refl refl refl

-- Where the worker goes without changing anything it holds the same.
pub Turn-held : {S : Type 0} {d : AsyncDispatcher S} {w v : WorkerPc} → Turn d w v → held v ≡ held w
Turn-held (sees_stopping h) = refl
Turn-held (sees_running h) = refl
Turn-held finds_nothing = refl
Turn-held finds_nothing_again = refl
Turn-held (looks_stopping h) = refl
Turn-held (waits h) = refl
Turn-held (decides_to_drain h) = refl
Turn-held (decides_to_fill p h) = refl
Turn-held (drained p batch) = refl
Turn-held drained_all = refl
Turn-held (filled batch) = refl
Turn-held batch_done = refl

pub Set-held :
    {S : Type 0} {d d' : AsyncDispatcher S} {w v : WorkerPc} → Set d w d' v → held v ≡ held w
Set-held falls_asleep = refl
Set-held (wakes_up p) = refl
Set-held (completes id batch) = refl

pub Pop-held : {size p : ℕ} {w v : WorkerPc} → Pop size p w v → held v ≡ held w ++ (p ∷ [])
Pop-held takes = refl
Pop-held takes_again = refl
Pop-held (drains batch h) = refl
Pop-held (drains_last batch h) = refl
Pop-held (fills batch h) = refl

-- Once set, `stopping_` stays.
pub Set-stopping :
    {S : Type 0} {d d' : AsyncDispatcher S} {w v : WorkerPc}
    → Set d w d' v
    → d'.stopping ≡ d.stopping
Set-stopping falls_asleep = refl
Set-stopping (wakes_up p) = refl
Set-stopping (completes id batch) = refl

pub Write-stopping :
    {S : Type 0} {d d' : AsyncDispatcher S} {p q : Pc}
    → Write d p d' q
    → d.stopping ≡ true
    → d'.stopping ≡ true
Write-stopping wakes on = on
Write-stopping (wakes_for id a) on = on
Write-stopping refuses on = on
Write-stopping (counts_event x e) on = on
Write-stopping (counts_request id e) on = on
Write-stopping (raises id a) on = on
Write-stopping (stops h) on = refl
Write-stopping stop_wakes on = on
Write-stopping stop_raises on = on

-- The request that the worker is about to complete.
abbrev pub busy : WorkerPc → Option ℕ
busy (completing id batch) = some id
busy w = none

module _ {S : Type 0} where
  pub Turn-busy : {d : AsyncDispatcher S} {w v : WorkerPc} → Turn d w v → busy v ≡ none
  Turn-busy (sees_stopping h) = refl
  Turn-busy (sees_running h) = refl
  Turn-busy finds_nothing = refl
  Turn-busy finds_nothing_again = refl
  Turn-busy (looks_stopping h) = refl
  Turn-busy (waits h) = refl
  Turn-busy (decides_to_drain h) = refl
  Turn-busy (decides_to_fill p h) = refl
  Turn-busy (drained p batch) = refl
  Turn-busy drained_all = refl
  Turn-busy (filled batch) = refl
  Turn-busy batch_done = refl

  pub Set-busy : {d d' : AsyncDispatcher S} {w v : WorkerPc} → Set d w d' v → busy v ≡ none
  Set-busy falls_asleep = refl
  Set-busy (wakes_up p) = refl
  Set-busy (completes id batch) = refl

  -- The worker raises `completed_flush_id_` to the id of the request only.
  pub Set-completed :
      {d d' : AsyncDispatcher S} {w v : WorkerPc}
      → Set d w d' v
      → (d'.completed_flush_id ≡ d.completed_flush_id) ⊎ (busy w ≡ some d'.completed_flush_id)
  Set-completed falls_asleep = inl refl
  Set-completed (wakes_up p) = inl refl
  Set-completed {d = d} (completes id batch) =
      if_cases (λ (n : ℕ). (n ≡ d.completed_flush_id) ⊎ (some id ≡ some n))
        (ltb d.completed_flush_id id) id d.completed_flush_id (inr refl) (inl refl)

pub Pop-busy : {size p : ℕ} {w v : WorkerPc} → Pop size p w v → busy v ≡ none
Pop-busy takes = refl
Pop-busy takes_again = refl
Pop-busy (drains batch h) = refl
Pop-busy (drains_last batch h) = refl
Pop-busy (fills batch h) = refl
