-- ===== src/Service/Manager/Locks/Exclusion.antt =====
-- While no OLT is unregistered, at most one request at a time has the lock of an OLT.
use zzte.Service.Manager.{OltManager, lock_of}
use zzte.Service.Manager.Locks.{
  waiting, holding, finished, LockState, update, Step, find, acquire, cancel, release, Reach, start,
  later,
}
use zzte.Prelude.{
  ==_iff, =ᵗ_iff, Bool-cases, Text, ap, arith, false, inl, inr, int_eq, lookup, lookup-insert,
  lookup-insert_self, nat_eq, some, sym, text_eq, true, ℕ, ◌==◌, ◌∙◌, ◌≡◌, ◌≢◌, ◌⊎◌,
}

-- A holder's channel is full, and each channel has one holder; a request that waits for a channel
-- or has it got the channel of its OLT.
pub record IsExclusive (target : ℕ → Text) (s : LockState) : Type 0 where
  pub taken : (i lock : ℕ) → s.requests i ≡ holding lock → s.full lock ≡ true
  pub single : (i j lock : ℕ) → s.requests i ≡ holding lock → s.requests j ≡ holding lock → i ≡ j
  pub wanted :
      (i lock : ℕ) → s.requests i ≡ waiting lock → lookup (target i) s.manager.op_locks ≡ some lock
  pub owned :
      (i lock : ℕ) → s.requests i ≡ holding lock → lookup (target i) s.manager.op_locks ≡ some lock

-- The channel of an OLT stays its channel when another is looked up.
lock_of-keeps :
    (id other : Text) (m : OltManager) (lock : ℕ)
    → lookup other m.op_locks ≡ some lock
    → lookup other (lock_of id m).1.op_locks ≡ some lock
unfolding lock_of
lock_of-keeps id other m lock h =
    ground (arith, h, lookup-insert id other m.channels m.op_locks, =ᵗ_iff id other)

lock_of-found :
    (id : Text) (m : OltManager) → lookup id (lock_of id m).1.op_locks ≡ some (lock_of id m).0
unfolding lock_of
lock_of-found id m = ground (arith, lookup-insert_self id m.channels m.op_locks)

-- Where an updated function has a value.
update-cases :
    {A : Type 0} (f : ℕ → A) (i j : ℕ) (a b : A)
    → update f i a j ≡ b
    → ((i ≡ j) × (a ≡ b)) ⊎ ((i ≢ j) × (f j ≡ b))
update-cases f i j a b h = elim (Bool-cases (i == j)) [
  | inl e ↦ inl ((==_iff i j).0 e, ground (arith, h, e))
  | inr e ↦ inr (ground (arith, e), ground (arith, h, e))
]

waiting-injective : {a b : ℕ} → waiting a ≡ waiting b → a ≡ b
waiting-injective h = cc

holding-injective : {a b : ℕ} → holding a ≡ holding b → a ≡ b
holding-injective h = cc

-- Request j has channel l after request i took the channel `lock`.
abbrev HasAfter : LockState → ℕ → ℕ → ℕ → ℕ → Type 0
HasAfter s i lock j l =
    ((i ≡ j) × (holding lock ≡ holding l)) ⊎ ((i ≢ j) × (s.requests j ≡ holding l))

Step-IsExclusive :
    (target : ℕ → Text) (s t : LockState)
    → IsExclusive target s
    → Step target s t
    → IsExclusive target t
Step-IsExclusive target s t x (find i p) = record {
  taken = λ j lock h. x.taken j lock (ground (arith, h));
  single = λ j k lock h g. x.single j k lock (ground (arith, h)) (ground (arith, g));
  wanted = λ j lock h. elim (update-cases s.requests i j _ (waiting lock) h) [
    | inl (e, same) ↦
        ap (λ k. lookup (target k) (lock_of (target i) s.manager).1.op_locks) (sym e)
        ∙ lock_of-found (target i) s.manager
        ∙ ap some (waiting-injective same)
    | inr (_, h') ↦ lock_of-keeps (target i) (target j) s.manager lock (x.wanted j lock h')
  ];
  owned = λ j lock h.
      lock_of-keeps (target i) (target j) s.manager lock (x.owned j lock (ground (arith, h)));
}
Step-IsExclusive target s t x (acquire i lock p q) = record {
  taken = λ j l h. ground (arith, h, x.taken j l);
  single = λ j k l h g.
      one_holder j k l (update-cases s.requests i j (holding lock) (holding l) h)
        (update-cases s.requests i k (holding lock) (holding l) g);
  wanted = λ j l h. x.wanted j l (ground (arith, h));
  owned = λ j l h. elim (update-cases s.requests i j (holding lock) (holding l) h) [
    | inl (e, same) ↦
        ap (λ k. lookup (target k) s.manager.op_locks) (sym e)
        ∙ x.wanted i lock p
        ∙ ap some (holding-injective same)
    | inr (_, h') ↦ x.owned j l h'
  ];
}
  where
    taken_twice : (l : ℕ) → lock ≡ l → (k : ℕ) → s.requests k ≡ holding l → ⊥
    taken_twice l e k g = ground (arith, x.taken k l g, ap s.full e, q)

    one_holder : (j k l : ℕ) → HasAfter s i lock j l → HasAfter s i lock k l → j ≡ k
    one_holder j k l (inl (e, _)) (inl (e', _)) = sym e ∙ e'
    one_holder j k l (inl (_, same)) (inr (_, g)) =
        absurd (taken_twice l (holding-injective same) k g)
    one_holder j k l (inr (_, h)) (inl (_, same)) =
        absurd (taken_twice l (holding-injective same) j h)
    one_holder j k l (inr (_, h)) (inr (_, g)) = x.single j k l h g
Step-IsExclusive target s t x (cancel i lock p) = record {
  taken = λ j l h. x.taken j l (ground (arith, h));
  single = λ j k l h g. x.single j k l (ground (arith, h)) (ground (arith, g));
  wanted = λ j l h. x.wanted j l (ground (arith, h));
  owned = λ j l h. x.owned j l (ground (arith, h));
}
Step-IsExclusive target s t x (release i lock p) = record {
  taken = λ j l h. elim (update-cases s.requests i j finished (holding l) h) [
    | inl (_, same) ↦ cc
    | inr (ne, h') ↦ still_full l j ne h' (Bool-cases (lock == l))
  ];
  single = λ j k l h g. x.single j k l (ground (arith, h)) (ground (arith, g));
  wanted = λ j l h. x.wanted j l (ground (arith, h));
  owned = λ j l h. x.owned j l (ground (arith, h));
}
  where
    still_full :
        (l j : ℕ)
        → i ≢ j
        → s.requests j ≡ holding l
        → ((lock == l) ≡ true) ⊎ ((lock == l) ≡ false)
        → update s.full lock false l ≡ true
    still_full l j ne h (inl e) =
        absurd (ne (x.single i j l (p ∙ ap holding ((==_iff lock l).0 e)) h))
    still_full l j ne h (inr e) = rw e (x.taken j l h)

Reach-IsExclusive :
    (target : ℕ → Text) (m : OltManager) (s : LockState) → Reach target m s → IsExclusive target s
Reach-IsExclusive target m s start = record {
  taken = λ i lock h. cc;
  single = λ i j lock h g. cc;
  wanted = λ i lock h. cc;
  owned = λ i lock h. cc;
}
Reach-IsExclusive target m t (later {s = s} r step) =
    Step-IsExclusive target s t (Reach-IsExclusive target m s r) step

-- In every state that requests reach from one in which none runs, as long as no OLT is
-- unregistered meanwhile, two requests that hold a lock for the same OLT are the same request.
pub mutual_exclusion :
    (target : ℕ → Text) (m : OltManager) (s : LockState) (i j lock lock' : ℕ)
    → Reach target m s
    → s.requests i ≡ holding lock
    → s.requests j ≡ holding lock'
    → target i ≡ target j
    → i ≡ j
mutual_exclusion target m s i j lock lock' r h k e =
    let x = Reach-IsExclusive target m s r in
    let same : lock ≡ lock' =
      cc (sym (x.owned i lock h) ∙ ap (λ id. lookup id s.manager.op_locks) e ∙ x.owned j lock' k) in
    x.single i j lock' (h ∙ ap holding same) k
