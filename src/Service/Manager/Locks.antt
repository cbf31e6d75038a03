-- ===== src/Service/Manager/Locks.antt =====
-- `AcquireSNMPLock` and the function that it returns, as steps of requests that run in any order. A
-- channel of capacity one is held by at most one request; its holder empties it.
pub mod Exclusion
pub mod Removal
use zzte.Service.Manager.{OltManager, lock_of}
use zzte.Prelude.{
  Bool, Text, arith, false, if◌then◌else◌, int_eq, nat_eq, text_eq, true, ℕ, ◌==◌, ◌≡◌,
}

-- Where a request stands: before the call, at the `select` on a channel, with the lock, or done.
pub data Phase : Type 0 where
  outside : Phase
  waiting holding : ℕ → Phase
  finished : Phase

-- `full` tells which channels hold a token, `requests` where each request stands, and `target` the
-- OLT that it asks for.
pub record LockState : Type 0 where
  pub manager : OltManager
  pub full : ℕ → Bool
  pub requests : ℕ → Phase

abbrev pub update {ℓ} : {A : Type ℓ} → (ℕ → A) → ℕ → A → ℕ → A
update f i a j = if i == j then a else f j

-- One step of request `i`, which asks for the lock of `target i`.
pub data Step (target : ℕ → Text) (s : LockState) : LockState → Type 0 where
  -- the channel is looked up, or made, under the manager's own mutex
  find :
      (i : ℕ)
      → s.requests i ≡ outside
      → Step target s (record s {
        manager = (lock_of (target i) s.manager).1;
        requests = update s.requests i (waiting (lock_of (target i) s.manager).0);
      })
  -- `lock <- struct{}{}`
  acquire :
      (i lock : ℕ)
      → s.requests i ≡ waiting lock
      → s.full lock ≡ false
      → Step target s (record s {
        full = update s.full lock true;
        requests = update s.requests i (holding lock);
      })
  -- `<-ctx.Done()`
  cancel :
      (i lock : ℕ)
      → s.requests i ≡ waiting lock
      → Step target s (record s { requests = update s.requests i finished })
  -- `<-lock`, in the function that the request was given
  release :
      (i lock : ℕ)
      → s.requests i ≡ holding lock
      → Step target s
          (record s { full = update s.full lock false; requests = update s.requests i finished })

pub data Reach (target : ℕ → Text) (m : OltManager) : LockState → Type 0 where
  start : Reach target m (record { manager = m; full = λ _. false; requests = λ _. outside })
  later : {s t : LockState} → Reach target m s → Step target s t → Reach target m t
