-- ===== src/Service/Telnet/Closing.antt =====
-- The end of `RebootONU`, which sends the reboot itself.
use zzte.Service.Provisioning.{Fallible}
use zzte.Service.Templates.Texts.{newline}
use zzte.Service.Telnet.Session.{Event, Peer, write, read_until, asks, send_reboot, say, confirm}
use zzte.Service.Telnet.Sends.{written, IsStart, Fallible-cases}
use zzte.Prelude.{
  Bool, Bool-cases, List, Option-cases, Text, [], ap, append-nil, append_assoc, codes, false,
  if◌then◌else◌, inl, inr, int_eq, map, nat_eq, none, refl, sym, text_eq, true, ◌++◌, ◌∙◌, ◌∷◌, ◌≡◌,
}

-- The last lines, which are sent whatever happens to them.
abbrev pub closing : Bool → List Text
closing confirmed =
    map (λ line. line ++ newline ∷ [])
      (codes "reboot" ∷ (if confirmed then codes "y" ∷ [] else [])
        ++ codes "exit" ∷ codes "exit" ∷ [])

-- what is written by what is not looked at
module _ (peer : Peer) (events : List Event) where
  IsStart-write : (text : Text) → IsStart (written events) (written (write peer text events).0)
  unfolding write
  IsStart-write text = elim (Option-cases (peer.refuses events text)) [
    | inl e ↦ rw (e, write) (text ∷ [], refl)
    | inr (x, e) ↦ rw (e, write) ([], append-nil (written events))
  ]

  written-read_until :
      (delims : List Text) → written (read_until peer delims events).0 ≡ written events
  unfolding read_until
  written-read_until delims = elim (Fallible-cases (peer.answers events delims)) [
    | inl (x, e) ↦ rw (e, read_until) refl
    | inr (x, e) ↦ rw (e, read_until) refl
  ]

  written-write :
      (text : Text)
      → peer.refuses events text ≡ none
      → written (write peer text events).0 ≡ written events ++ text ∷ []
  unfolding write
  written-write text e = rw (e, write) refl

IsStart-trans : (a b c : List Text) → IsStart a b → IsStart b c → IsStart a c
IsStart-trans a b c (x, e) (y, k) = (x ++ y, sym (append_assoc a x y) ∙ ap (λ t. t ++ y) e ∙ k)

module _ (peer : Peer) (reply : Fallible Text) (events : List Event) where
  IsStart-confirm : IsStart (written events) (written (confirm peer reply events))
  unfolding confirm
  IsStart-confirm = elim (Bool-cases (asks reply)) [
    | inl b ↦ rw (b, confirm) (IsStart-write peer events (codes "y" ++ newline ∷ []))
    | inr b ↦ rw (b, confirm) ([], append-nil (written events))
  ]

  written-confirm :
      ((before : List Event) (text : Text) → peer.refuses before text ≡ none)
      → written (confirm peer reply events)
        ≡ written events ++ (if asks reply then (codes "y" ++ newline ∷ []) ∷ [] else [])
  unfolding confirm
  written-confirm accepts = elim (Bool-cases (asks reply)) [
    | inl b ↦ rw (b, confirm) (written-write peer events _ (accepts _ _))
    | inr b ↦ rw (b, confirm) (sym (append-nil (written events)))
  ]

-- After the opening, only more is written.
pub send_reboot-IsStart :
    (peer : Peer) (events : List Event)
    → IsStart (written events) (written (send_reboot peer events).0)
unfolding send_reboot
send_reboot-IsStart peer events =
    let exit = codes "exit" ++ newline ∷ [] in
    let delims = codes "confirms" ∷ codes "Confirm" ∷ codes "y/n" ∷ codes "#" ∷ codes ">" ∷ [] in
    let asked = say peer "reboot" events in
    let (heard, reply) = read_until peer delims asked in
    let confirmed = confirm peer reply heard in
    IsStart-trans _ (written asked) _ (IsStart-write peer events (codes "reboot" ++ newline ∷ [])) (
      IsStart-trans _ (written heard) _
        ([], append-nil (written asked) ∙ sym (written-read_until peer asked delims))
        (IsStart-trans _ (written confirmed) _ (IsStart-confirm peer reply heard) (
          IsStart-trans _ (written (say peer "exit" confirmed)) _
            (IsStart-write peer confirmed exit)
            (IsStart-write peer (say peer "exit" confirmed) exit))))

-- No error is reported from there on.
pub send_reboot_succeeds :
    (peer : Peer) (events : List Event) → (send_reboot peer events).1 ≡ inr tt
unfolding send_reboot
send_reboot_succeeds peer events = refl

-- Where every write is accepted, the closing is written.
pub send_reboot-closing :
    (peer : Peer) (events : List Event)
    → ((before : List Event) (text : Text) → peer.refuses before text ≡ none)
    → (confirmed : Bool) × (written (send_reboot peer events).0
        ≡ written events ++ closing confirmed)
unfolding send_reboot
send_reboot-closing peer events accepts =
    let exit = codes "exit" ++ newline ∷ [] in
    let delims = codes "confirms" ∷ codes "Confirm" ∷ codes "y/n" ∷ codes "#" ∷ codes ">" ∷ [] in
    let asked = say peer "reboot" events in
    let (heard, reply) = read_until peer delims asked in
    let confirmed = confirm peer reply heard in
    (
      asks reply,
      written-write peer (say peer "exit" confirmed) exit (accepts _ _)
          ∙ ap (λ t. t ++ exit ∷ [])
              (written-write peer confirmed exit (accepts _ _)
                ∙ ap (λ t. t ++ exit ∷ [])
                    (written-confirm peer reply heard accepts
                      ∙ ap (λ t. t ++ (if asks reply then (codes "y" ++ newline ∷ []) ∷ [] else []))
                          (written-read_until peer asked delims
                            ∙ written-write peer events (codes "reboot" ++ newline ∷ [])
                                (accepts _ _))))
          ∙ lines (written events) (asks reply),
    )
  where
    lines :
        (before : List Text) (confirmed : Bool)
        → ((((before ++ (codes "reboot" ++ newline ∷ []) ∷ [])
                ++ (if confirmed then (codes "y" ++ newline ∷ []) ∷ [] else []))
              ++ (codes "exit" ++ newline ∷ []) ∷ [])
            ++ (codes "exit" ++ newline ∷ []) ∷ [])
          ≡ before ++ closing confirmed
    lines [] true = refl
    lines [] false = refl
    lines (t ∷ before) confirmed = ap (λ l. t ∷ l) (lines before confirmed)
