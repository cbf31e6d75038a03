-- ===== src/Poller/Slots.antt =====
-- `pollOLT` of both pollers: one goroutine for each port, of which two at a time hold a slot of
-- `sem`. A port is known by its place in the list of ports.
use mathlib.Core.List.{Perm, perm_middle}
use mathlib.Core.List.Perm
use mathlib.Core.Path.{subst}
use zzte.Prelude.{
  List, [], ap, append-nil, arith, inl, inr, int_eq, length, nat_eq, refl, suc, text_eq, zero, ℕ,
  ◌*◌, ◌++◌, ◌+◌, ◌<◌, ◌∷◌, ◌≡◌, ◌≤◌, ◌⊎◌,
}

abbrev pub slots : ℕ
slots = 2

pub record Polling : Type 0 where
  pub waiting : List ℕ
  pub running : List ℕ
  pub finished : List ℕ

-- A goroutine takes a free slot, or ends and gives its slot back.
pub data Step : Polling → Polling → Type 0 where
  take_slot :
      (before after running finished : List ℕ) (i : ℕ)
      → length running < slots
      → Step
          (record { waiting = before ++ i ∷ after; running = running; finished = finished })
          (record { waiting = before ++ after; running = i ∷ running; finished = finished })
  give_back :
      (waiting before after finished : List ℕ) (i : ℕ)
      → Step
          (record { waiting = waiting; running = before ++ i ∷ after; finished = finished })
          (record { waiting = waiting; running = before ++ after; finished = i ∷ finished })

-- The numbers of the ports, from 0.
abbrev pub places : ℕ → List ℕ
places zero = []
places (suc n) = n ∷ places n

-- All goroutines are started, and none has a slot.
unfoldable pub start : ℕ → Polling
start ports = record { waiting = places ports; running = []; finished = [] }

-- A run of so many steps.
pub data Run (s : Polling) : Polling → ℕ → Type 0 where
  here : Run s s 0
  next : {t u : Polling} {n : ℕ} → Run s t n → Step t u → Run s u (suc n)

-- How many steps are left.
abbrev steps_left : Polling → ℕ
steps_left s = 2 * length s.waiting + length s.running

length-places : (n : ℕ) → length (places n) ≡ n
length-places zero = refl
length-places (suc n) = omega (arith, length-places n)

length-middle :
    (before after : List ℕ) (i : ℕ) → length (before ++ i ∷ after) ≡ suc (length (before ++ after))
length-middle [] after i = refl
length-middle (x ∷ before) after i = omega (arith, length-middle before after i)

Step-steps_left : {s t : Polling} → Step s t → steps_left s ≡ suc (steps_left t)
Step-steps_left (take_slot before after running finished i h) =
    omega (arith, length-middle before after i)
Step-steps_left (give_back waiting before after finished i) =
    omega (arith, length-middle before after i)

Step-slots : {s t : Polling} → Step s t → length s.running ≤ slots → length t.running ≤ slots
Step-slots (take_slot before after running finished i h) k = omega arith
Step-slots (give_back waiting before after finished i) k =
    omega (arith, length-middle before after i)

abbrev everywhere : Polling → List ℕ
everywhere s = s.waiting ++ (s.running ++ s.finished)

moved :
    (before after rest : List ℕ) (i : ℕ)
    → Perm ((before ++ after) ++ i ∷ rest) ((before ++ i ∷ after) ++ rest)
moved before after rest i =
    Perm.trans (perm_middle (before ++ after) rest)
      (Perm.symm (Perm.append_right rest (perm_middle before after)))

Step-perm : {s t : Polling} → Step s t → Perm (everywhere t) (everywhere s)
Step-perm (take_slot before after running finished i h) = moved before after (running ++ finished) i
Step-perm (give_back waiting before after finished i) =
    Perm.append_left waiting (moved before after finished i)

Run-steps_left : {s t : Polling} {n : ℕ} → Run s t n → steps_left s ≡ n + steps_left t
Run-steps_left here = omega arith
Run-steps_left (next r st) = omega (arith, Run-steps_left r, Step-steps_left st)

Run-slots :
    {s t : Polling} {n : ℕ} → Run s t n → length s.running ≤ slots → length t.running ≤ slots
Run-slots here h = h
Run-slots (next r st) h = Step-slots st (Run-slots r h)

Run-perm : {s t : Polling} {n : ℕ} → Run s t n → Perm (everywhere t) (everywhere s)
Run-perm here = Perm.rfl
Run-perm (next r st) = Perm.trans (Step-perm st) (Run-perm r)

-- A goroutine can always go on while one is left.
Step-or-end :
    (waiting running finished : List ℕ)
    → let s : Polling = record { waiting = waiting; running = running; finished = finished } in
      ((t : Polling) × Step s t) ⊎ ((waiting ≡ []) × (running ≡ []))
Step-or-end waiting (i ∷ running) finished = inl (_, give_back waiting [] running finished i)
Step-or-end (i ∷ waiting) [] finished = inl (_, take_slot [] waiting [] finished i (omega arith))
Step-or-end [] [] finished = inr (refl, refl)

-- However the goroutines of a poll of so many ports are interleaved: no more than two ports are
-- polled at once, each port is waiting, running or finished, and once; a state from which no step
-- is possible has finished every port; and no run takes more than two steps for each port.
pub polling_lem :
    (ports : ℕ) (s : Polling) (n : ℕ)
    → Run (start ports) s n
    → (length s.running ≤ 2)
      × Perm (s.waiting ++ (s.running ++ s.finished)) (places ports)
      × (((t : Polling) × Step s t) ⊎ (Perm s.finished (places ports) × (n ≡ 2 * ports)))
      × (n ≤ 2 * ports)
unfolding start
polling_lem ports s n r =
    let count = Run-steps_left r in
    let all = Run-perm r in
    let whole : Perm (everywhere s) (places ports) = rw append-nil at all in
    (
      Run-slots r (omega arith),
      whole,
      elim (Step-or-end s.waiting s.running s.finished) [
        | inl more ↦ inl more
        | inr (a, b) ↦ inr (
          subst (λ w. Perm (w ++ s.finished) (places ports)) b
              (subst (λ w. Perm (w ++ (s.running ++ s.finished)) (places ports)) a whole),
          omega (arith, count, length-places ports, ap length a, ap length b),
        )
      ],
      omega (arith, count, length-places ports),
    )
