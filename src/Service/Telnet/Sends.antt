-- ===== src/Service/Telnet/Sends.antt =====
-- The texts that an action on a telnet connection writes.
use zzte.Service.Provisioning.{Fallible}
use zzte.Service.Templates.Texts.{newline}
use zzte.Service.Telnet.Session.{
  Event, wrote, received, Peer, Io, ◌>>=◌, pure, write, read_until, login, send_command,
}
use zzte.Prelude.{
  List, Option-cases, Text, [], ap, append-nil, append_assoc, inl, inr, int_eq, nat_eq, refl, sym,
  text_eq, ◌++◌, ◌∙◌, ◌∷◌, ◌≡◌, ◌⊎◌,
}

-- the texts that were written, the first one first
abbrev pub written : List Event → List Text
written [] = []
written (wrote text ∷ events) = written events ++ text ∷ []
written (received text ∷ events) = written events

-- the first list is the start of the second
abbrev pub IsStart : List Text → List Text → Type 0
IsStart sent texts = (rest : List Text) × (sent ++ rest ≡ texts)

-- A first part of the texts is written if the action fails, and all of them if it does not.
abbrev pub IsSent : {A : Type 0} → List Text → List Text → List Event × Fallible A → Type 0
IsSent before texts (events, inl e) =
    (sent : List Text) × (written events ≡ before ++ sent) × IsStart sent texts
IsSent before texts (events, inr a) = written events ≡ before ++ texts

pub data Sends {A : Type 0} (texts : List Text) (action : Io A) : Type 0 where
  sends :
      ((events : List Event) → IsSent (written events) texts (action events)) → Sends texts action

pub Fallible-cases :
    {A : Type 0} (r : Fallible A) → ((a : A) × (r ≡ inr a)) ⊎ ((e : Text) × (r ≡ inl e))
Fallible-cases (inl e) = inr (e, refl)
Fallible-cases (inr a) = inl (a, refl)

Sends-write : (peer : Peer) (text : Text) → Sends (text ∷ []) (write peer text)
unfolding write
Sends-write peer text = sends λ events. elim (Option-cases (peer.refuses events text)) [
  | inl e ↦ rw (e, write) refl
  | inr (x, e) ↦ rw (e, write) ([], sym (append-nil (written events)), (_, refl))
]

Sends-read_until : (peer : Peer) (delims : List Text) → Sends [] (read_until peer delims)
unfolding read_until
Sends-read_until peer delims = sends λ events. elim (Fallible-cases (peer.answers events delims)) [
  | inl (text, e) ↦ rw (e, read_until) (sym (append-nil (written events)))
  | inr (x, e) ↦ rw (e, read_until) ([], sym (append-nil (written events)), ([], refl))
]

module _ {B : Type 0} (xs ys : List Text) where
  IsSent-next :
      (before now : List Text) (r : List Event × Fallible B)
      → now ≡ before ++ xs
      → IsSent now ys r
      → IsSent before (xs ++ ys) r
  IsSent-next before now (events, inl e) h (sent, k, (rest, l)) = (
    xs ++ sent,
    k ∙ ap (λ t. t ++ sent) h ∙ append_assoc before xs sent,
    (rest, append_assoc xs sent rest ∙ ap (λ t. xs ++ t) l),
  )
  IsSent-next before now (events, inr b) h k = k ∙ ap (λ t. t ++ ys) h ∙ append_assoc before xs ys

  module _ {A : Type 0} where
    IsSent-then :
        (before : List Text) (r : List Event × Fallible A) (next : A → Io B)
        → IsSent {A = A} before xs r
        → ((a : A) → Sends ys (next a))
        → IsSent {A = B} before (xs ++ ys) (elim r.1 [ inl e ↦ (r.0, inl e) | inr a ↦ next a r.0 ])
    IsSent-then before (events, inl e) next (sent, h, (rest, l)) k =
        (sent, h, (rest ++ ys, sym (append_assoc sent rest ys) ∙ ap (λ t. t ++ ys) l))
    IsSent-then before (events, inr a) next h k = elim (k a) [
      | sends l ↦ IsSent-next before (written events) (next a events) h (l events)
    ]

    Sends-bind :
        (first : Io A) (next : A → Io B)
        → Sends xs first
        → ((a : A) → Sends ys (next a))
        → Sends (xs ++ ys) (first >>= next)
    unfolding ◌>>=◌
    Sends-bind first next (sends h) k =
        sends λ events. IsSent-then (written events) (first events) next (h events) k

Sends-pure : {A : Type 0} (a : A) → Sends [] (pure a)
unfolding pure
Sends-pure a = sends λ events. sym (append-nil (written events))

pub Sends-login :
    (peer : Peer) (user pass : Text)
    → Sends ((user ++ newline ∷ []) ∷ (pass ++ newline ∷ []) ∷ []) (login peer user pass)
unfolding login
Sends-login peer user pass = Sends-bind [] _ _ _ (Sends-read_until peer _) (λ _.
    Sends-bind (_ ∷ []) _ _ _ (Sends-write peer (user ++ newline ∷ [])) (λ _.
      Sends-bind [] _ _ _ (Sends-read_until peer _) (λ _.
        Sends-bind (_ ∷ []) [] _ _ (Sends-write peer (pass ++ newline ∷ []))
          (λ _. Sends-bind [] [] _ _ (Sends-read_until peer _) (λ _. Sends-pure tt)))))

pub Sends-send_command :
    (peer : Peer) (cmd : Text) → Sends ((cmd ++ newline ∷ []) ∷ []) (send_command peer cmd)
unfolding send_command
Sends-send_command peer cmd =
    Sends-bind (_ ∷ []) [] _ _ (Sends-write peer (cmd ++ newline ∷ []))
      (λ _. Sends-read_until peer _)
