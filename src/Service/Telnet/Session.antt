-- ===== src/Service/Telnet/Session.antt =====
-- internal/service/telnet_service.go: the dialogue with a device. The other end of a connection is
-- a parameter: what it answers, and which writes fail, may depend on all that went before. Time is
-- left out, so a read that times out is an error.
use zzte.Strings.{contains}
use zzte.Strings.Decimal.{itoa}
use zzte.Domain.{OltConfig}
use zzte.Service.Provisioning.{Fallible}
use zzte.Service.Templates.Texts.{newline}
use zzte.Service.Telnet.{parse_vlan_profile_output}
use zzte.Prelude.{
  Bool, List, Map, Option, String, Text, [], codes, eqb_ℤ, false, if◌then◌else◌, inl, inr, int_eq,
  nat_eq, none, pos, some, text_eq, ℤ, ◌++◌, ◌||◌, ◌∷◌,
}

-- What was written to the connection and read from it.
pub data Event : Type 0 where
  wrote received : Text → Event

-- The other end, by the events so far, the latest first: the error of a write, and what a read up
-- to one of some texts returns.
pub record Peer : Type 0 where
  pub refuses : List Event → Text → Option Text
  pub answers : List Event → List Text → Fallible Text

-- `net.DialTimeout` and `telnet.NewConn`, for an address
abbrev pub Dial : Type 0
Dial = Text → Fallible Peer

-- An action on the connection: the events after it, and its result or its error.
abbrev pub Io : Type 0 → Type 0
Io A = List Event → List Event × Fallible A

infixl 5 ◌>>=◌
unfoldable pub ◌>>=◌ : {A B : Type 0} → Io A → (A → Io B) → Io B
(first >>= next) events =
    let (events', result) = first events in
    elim result [ inl e ↦ (events', inl e) | inr a ↦ next a events' ]

unfoldable pub pure : {A : Type 0} → A → Io A
pure a events = (events, inr a)

-- whether the device asks for a confirmation
unfoldable pub asks : Fallible Text → Bool
asks (inl e) = false
asks (inr out) = contains out (codes "Confirm") || contains out (codes "y/n")

-- the command that selects the ONU
abbrev pub interface_command : ℤ → ℤ → ℤ → Text
interface_command board pon onu_id =
    codes "pon-onu-mng gpon-onu_1/"
    ++ (itoa board ++ (codes "/" ++ (itoa pon ++ (codes ":" ++ itoa onu_id))))

module _ (peer : Peer) where
  unfoldable pub write : Text → Io (Unit {0})
  write text events = elim (peer.refuses events text) [
    | some e ↦ (events, inl e)
    | none ↦ (wrote text ∷ events, inr tt)
  ]

  unfoldable pub read_until : List Text → Io Text
  read_until delims events = elim (peer.answers events delims) [
    | inl e ↦ (events, inl e)
    | inr text ↦ (received text ∷ events, inr text)
  ]

  -- `login`
  unfoldable pub login : Text → Text → Io (Unit {0})
  login user pass = do
    _ ← read_until (codes "Username:" ∷ codes "Login:" ∷ codes "login:" ∷ [])
    _ ← write (user ++ newline ∷ [])
    _ ← read_until (codes "Password:" ∷ codes "password:" ∷ [])
    _ ← write (pass ++ newline ∷ [])
    _ ← read_until (codes ">" ∷ codes "#" ∷ [])
    pure tt

  -- `SendCommand`
  unfoldable pub send_command : Text → Io Text
  send_command cmd = do
    _ ← write (cmd ++ newline ∷ [])
    read_until (codes "#" ∷ codes ">" ∷ codes "Confirm" ∷ [])

  -- a line whose error is dropped
  abbrev pub say : String → List Event → List Event
  say line events = (write (codes line ++ newline ∷ []) events).0

  -- the confirmation, where the device asks for it
  unfoldable pub confirm : Fallible Text → List Event → List Event
  confirm reply events = if asks reply then say "y" events else events

  -- the end of `RebootONU`, in which no error counts
  unfoldable pub send_reboot : Io (Unit {0})
  send_reboot events =
      let (events', reply) =
        read_until (codes "confirms" ∷ codes "Confirm" ∷ codes "y/n" ∷ codes "#" ∷ codes ">" ∷ [])
          (say "reboot" events) in
      (say "exit" (say "exit" (confirm reply events')), inr tt)

  -- `RebootONU` on an open connection
  unfoldable pub reboot_session : OltConfig → ℤ → ℤ → ℤ → Io (Unit {0})
  reboot_session config board pon onu_id = do
    _ ← login config.telnet.user config.telnet.password
    _ ← send_command (codes "config t")
    _ ← send_command (interface_command board pon onu_id)
    send_reboot

  -- one command on an open connection
  unfoldable pub ask_session : OltConfig → Text → Io Text
  ask_session config cmd = do _ ← login config.telnet.user config.telnet.password; send_command cmd

-- the address of `Connect`
unfoldable pub telnet_address : OltConfig → Text
telnet_address config =
    config.snmp.host
    ++ b':' ∷ (if eqb_ℤ config.telnet.port (pos 0) then codes "23" else itoa config.telnet.port)

-- `Connect`, and what is done on the connection
unfoldable pub with_connection :
    {A : Type 0} → Dial → OltConfig → (Peer → Io A) → List Event × Fallible A
with_connection dial config action = elim (dial (telnet_address config)) [
  | inl e ↦ ([], inl e)
  | inr peer ↦ action peer []
]

-- `RebootONU`
unfoldable pub reboot_onu : Dial → OltConfig → ℤ → ℤ → ℤ → List Event × Fallible (Unit {0})
reboot_onu dial config board pon onu_id =
    with_connection dial config (λ peer. reboot_session peer config board pon onu_id)

-- `FetchVLANProfiles`
unfoldable pub fetch_vlan_profiles : Dial → OltConfig → Fallible (Map Text Text)
fetch_vlan_profiles dial config =
    elim (with_connection dial config
      (λ peer. ask_session peer config (codes "show gpon onu profile vlan"))).1 [
        | inl e ↦ inl e
        | inr output ↦ inr (parse_vlan_profile_output output)
      ]
