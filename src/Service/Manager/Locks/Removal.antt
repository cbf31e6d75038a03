-- ===== src/Service/Manager/Locks/Removal.antt =====
-- What removing an OLT does to its lock.
use zzte.Cache.{Glob}
use zzte.Service.Manager.{OltConnection, OltManager, unregister_olt, lock_of}
use zzte.Service.Manager.Locks.{LockState, outside, waiting, holding, update, Step, find, acquire}
use zzte.Prelude.{
  ==_refl, Text, ap, arith, false, int_eq, lookup, lookup-remove_self, nat_eq, refl, some, sym,
  text_eq, true, ℕ, ◌∙◌, ◌≡◌, ◌≢◌,
}

lock_of-after_removal :
    (glob : Glob) (id : Text) (m : OltManager) (conn : OltConnection)
    → lookup id m.olts ≡ some conn
    → (lock_of id (unregister_olt glob id m).1).0 ≡ m.channels
unfolding unregister_olt lock_of
lock_of-after_removal glob id m conn h = ground (arith, h, lookup-remove_self id m.op_locks)

update-same : {A : Type 0} (f : ℕ → A) (i : ℕ) (a : A) → update f i a i ≡ a
update-same f i a = rw (==_refl i) refl

update-other : {A : Type 0} (f : ℕ → A) (i j : ℕ) (a : A) → i ≢ j → update f i a j ≡ f j
update-other f i j a h = ground (arith, h)

-- When a registered OLT is unregistered while a request holds its lock, another request that has
-- not begun can take a lock for the same OLT at once, in two steps, so that both hold one.
pub unregister_olt-two_holders :
    (glob : Glob) (target : ℕ → Text) (s : LockState) (i j lock : ℕ) (conn : OltConnection)
    → i ≢ j
    → s.requests i ≡ holding lock
    → s.requests j ≡ outside
    → target i ≡ target j
    → lookup (target j) s.manager.olts ≡ some conn
    → s.full s.manager.channels ≡ false
    → (t : LockState) × (u : LockState) × Step target
        (record s { manager = (unregister_olt glob (target j) s.manager).1 })
        t
      × Step target t u
      × (u.requests i ≡ holding lock)
      × (u.requests j ≡ holding s.manager.channels)
unregister_olt-two_holders glob target s i j lock conn ne h k e reg free =
    let m = (unregister_olt glob (target j) s.manager).1 in
    let r : LockState = record s { manager = m } in
    let channel = s.manager.channels in
    let t : LockState = record r {
      manager = (lock_of (target j) m).1;
      requests = update s.requests j (waiting (lock_of (target j) m).0);
    } in
    let u : LockState = record t {
      full = update s.full channel true;
      requests = update t.requests j (holding channel);
    } in
    let found : t.requests j ≡ waiting channel =
      update-same s.requests j (waiting (lock_of (target j) m).0)
      ∙ ap waiting (lock_of-after_removal glob (target j) s.manager conn reg) in
    (
      t,
      u,
      find j k,
      acquire j channel found free,
      update-other t.requests j i (holding channel) (λ q. ne (sym q))
          ∙ update-other s.requests j i (waiting (lock_of (target j) m).0) (λ q. ne (sym q))
          ∙ h,
      update-same t.requests j (holding channel),
    )
