-- ===== src/Service/Telnet/Dialogue.antt =====
-- What `RebootONU` writes to the device.
use mathlib.Core.Path.{subst}
use zzte.Domain.{OltConfig}
use zzte.Service.Provisioning.{Fallible}
use zzte.Service.Templates.Texts.{newline}
use zzte.Service.Telnet.Session.{
  Event, Peer, Dial, Io, ◌>>=◌, send_reboot, interface_command, reboot_session, telnet_address,
  with_connection, reboot_onu,
}
use zzte.Service.Telnet.Sends.{
  written, IsStart, Fallible-cases, IsSent, Sends, sends, Sends-login, Sends-send_command,
}
use zzte.Service.Telnet.Closing.{
  closing, send_reboot-IsStart, send_reboot_succeeds, send_reboot-closing,
}
use zzte.Prelude.{
  Bool, List, Text, [], ap, append-nil, append_assoc, codes, inl, inr, int_eq, map, nat_eq, none,
  refl, sym, text_eq, ℤ, ◌++◌, ◌∙◌, ◌∷◌, ◌≡◌, ◌⊎◌,
}

-- the lines up to the choice of the ONU
abbrev pub opening : OltConfig → ℤ → ℤ → ℤ → List Text
opening config board pon onu_id =
    map (λ line. line ++ newline ∷ [])
      (config.telnet.user
        ∷ config.telnet.password
        ∷ codes "config t"
        ∷ interface_command board pon onu_id
        ∷ [])

-- A run that ends early has written a first part of the texts; one that does not has written all
-- of them and goes on with the last action.
abbrev HasLed : {B : Type 0} → List Text → List Text → Io B → List Event × Fallible B → Type 0
HasLed before texts last r =
    ((e : Text) × (sent : List Text) × (r.1 ≡ inl e)
      × (written r.0 ≡ before ++ sent)
      × IsStart sent texts)
    ⊎ ((events : List Event) × (written events ≡ before ++ texts) × (r ≡ last events))

data Leads {B : Type 0} (texts : List Text) (last action : Io B) : Type 0 where
  leads :
      ((events : List Event) → HasLed (written events) texts last (action events))
      → Leads texts last action

Leads-self : {B : Type 0} (last : Io B) → Leads [] last last
Leads-self last = leads λ events. inr (events, sym (append-nil (written events)), refl)

module _ {B : Type 0} (xs ys : List Text) (last : Io B) where
  led_next :
      (before now : List Text) (r : List Event × Fallible B)
      → now ≡ before ++ xs
      → HasLed now ys last r
      → HasLed before (xs ++ ys) last r
  led_next before now r h (inl (e, sent, f, k, (rest, l))) = inl (
    e,
    xs ++ sent,
    f,
    k ∙ ap (λ t. t ++ sent) h ∙ append_assoc before xs sent,
    (rest, append_assoc xs sent rest ∙ ap (λ t. xs ++ t) l),
  )
  led_next before now r h (inr (events, k, f)) =
      inr (events, k ∙ ap (λ t. t ++ ys) h ∙ append_assoc before xs ys, f)

  module _ {A : Type 0} where
    led_then :
        (before : List Text) (r : List Event × Fallible A) (next : A → Io B)
        → IsSent {A = A} before xs r
        → ((a : A) → Leads ys last (next a))
        → HasLed {B = B} before
            (xs ++ ys)
            last
            (elim r.1 [ inl e ↦ (r.0, inl e) | inr a ↦ next a r.0 ])
    led_then before (events, inl e) next (sent, h, (rest, l)) k =
        inl (e, sent, refl, h, (rest ++ ys, sym (append_assoc sent rest ys) ∙ ap (λ t. t ++ ys) l))
    led_then before (events, inr a) next h k = elim (k a) [
      | leads l ↦ led_next before (written events) (next a events) h (l events)
    ]

    Leads-bind :
        (first : Io A) (next : A → Io B)
        → Sends xs first
        → ((a : A) → Leads ys last (next a))
        → Leads (xs ++ ys) last (first >>= next)
    unfolding ◌>>=◌
    Leads-bind first next (sends h) k =
        leads λ events. led_then (written events) (first events) next (h events) k

Leads-reboot_session :
    (peer : Peer) (config : OltConfig) (board pon onu_id : ℤ)
    → Leads
        (opening config board pon onu_id)
        (send_reboot peer)
        (reboot_session peer config board pon onu_id)
unfolding reboot_session
Leads-reboot_session peer config board pon onu_id =
    Leads-bind (_ ∷ _ ∷ []) _ _ _ _ (Sends-login peer config.telnet.user config.telnet.password)
      (λ _. Leads-bind (_ ∷ []) _ _ _ _ (Sends-send_command peer (codes "config t")) (λ _.
        Leads-bind (_ ∷ []) [] _ _ _ (Sends-send_command peer (interface_command board pon onu_id))
          (λ _. Leads-self (send_reboot peer))))

-- What is written when a run ends with an error, or without one.
abbrev pub IsDialogue : List Text → List Event × Fallible (Unit {0}) → Type 0
IsDialogue texts r = elim r.1 [
  | inl e ↦ IsStart (written r.0) texts
  | inr a ↦ IsStart texts (written r.0)
]

led-IsDialogue :
    (peer : Peer) (texts : List Text) (r : List Event × Fallible (Unit {0}))
    → HasLed [] texts (send_reboot peer) r
    → IsDialogue texts r
led-IsDialogue peer texts r (inl (e, sent, f, k, (rest, l))) =
    rw f (rest, ap (λ t. t ++ rest) k ∙ l)
led-IsDialogue peer texts r (inr (events, k, f)) =
    let (more, l) = send_reboot-IsStart peer events in
    rw (ap (λ x. x.1) f ∙ send_reboot_succeeds peer events)
      (more, ap (λ t. t ++ more) (sym k) ∙ l ∙ ap (λ x. written x.0) (sym f))

module _ (dial : Dial) (config : OltConfig) (board pon onu_id : ℤ) where
  reboot_onu-connected :
      (peer : Peer)
      → dial (telnet_address config) ≡ inr peer
      → reboot_onu dial config board pon onu_id ≡ reboot_session peer config board pon onu_id []
  unfolding reboot_onu with_connection
  reboot_onu-connected peer e = rw (e, with_connection) refl

  reboot_onu-refused :
      (x : Text)
      → dial (telnet_address config) ≡ inl x
      → reboot_onu dial config board pon onu_id ≡ ([], inl x)
  unfolding reboot_onu with_connection
  reboot_onu-refused x e = rw (e, with_connection) refl

-- A reboot that reports an error has written to the device at most the user, the password, the
-- command that enters the configuration and the one that selects the ONU, in this order, and never
-- the one that reboots it; a reboot that reports success has written all four before anything
-- else.
pub reboot_onu-IsDialogue :
    (dial : Dial) (config : OltConfig) (board pon onu_id : ℤ)
    → IsDialogue (opening config board pon onu_id) (reboot_onu dial config board pon onu_id)
reboot_onu-IsDialogue dial config board pon onu_id =
    let texts = opening config board pon onu_id in
    elim (Fallible-cases (dial (telnet_address config))) [
      | inl (peer, e) ↦
          subst (IsDialogue texts) (sym (reboot_onu-connected dial config board pon onu_id peer e))
            (led-IsDialogue peer texts (reboot_session peer config board pon onu_id [])
              (elim (Leads-reboot_session peer config board pon onu_id) [ leads h ↦ h [] ]))
      | inr (x, e) ↦
          subst (IsDialogue texts) (sym (reboot_onu-refused dial config board pon onu_id x e))
            (texts, refl)
    ]

led-closing :
    (peer : Peer) (texts : List Text) (r : List Event × Fallible (Unit {0}))
    → ((before : List Event) (text : Text) → peer.refuses before text ≡ none)
    → HasLed [] texts (send_reboot peer) r
    → r.1 ≡ inr tt
    → (confirmed : Bool) × (written r.0 ≡ texts ++ closing confirmed)
led-closing peer texts r accepts (inl (e, sent, f, _, _)) h = absurd (cc (f, h))
led-closing peer texts r accepts (inr (events, k, f)) h =
    let (confirmed, l) = send_reboot-closing peer events accepts in
    (confirmed, ap (λ x. written x.0) f ∙ l ∙ ap (λ t. t ++ closing confirmed) k)

-- Where the device accepts every write, a reboot that reports success has written exactly the
-- user, the password, the two commands that lead to the ONU, the reboot, a confirmation or none,
-- and two exits.
pub reboot_onu-closing :
    (dial : Dial) (config : OltConfig) (board pon onu_id : ℤ) (peer : Peer)
    → dial (telnet_address config) ≡ inr peer
    → ((before : List Event) (text : Text) → peer.refuses before text ≡ none)
    → (reboot_onu dial config board pon onu_id).1 ≡ inr tt
    → (confirmed : Bool) × (written (reboot_onu dial config board pon onu_id).0
        ≡ opening config board pon onu_id ++ closing confirmed)
reboot_onu-closing dial config board pon onu_id peer e accepts h =
    let connected = reboot_onu-connected dial config board pon onu_id peer e in
    let (confirmed, l) =
      led-closing peer (opening config board pon onu_id)
        (reboot_session peer config board pon onu_id []) accepts
        (elim (Leads-reboot_session peer config board pon onu_id) [ leads l ↦ l [] ])
        (ap (λ r. r.1) (sym connected) ∙ h) in
    (confirmed, ap (λ r. written r.0) connected ∙ l)
