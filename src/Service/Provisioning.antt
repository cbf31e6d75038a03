-- ===== src/Service/Provisioning.antt =====
-- internal/service/provisioning_service.go: a provisioning run, with `SendCommands` of
-- internal/service/telnet_service.go. The network is a parameter; the wall clock time of an entry
-- and the pause of three seconds are left out.
pub mod Flow
pub mod Parse
pub mod NextId
pub mod Reads
use zzte.Strings.{contains, has_prefix, join, to_lower, trim_space}
use zzte.Strings.Decimal.{itoa_nat}
use zzte.Domain.{
  Result, ok, err, OltConfig, OltInstance, ProvisioningRequest, ProvisioningLog,
  ProvisioningResponse,
}
use zzte.Service.Manager.{OltManager, get_olt}
use zzte.Service.Templates.{apply_vlan_profiles, generate_provisioning_commands}
use zzte.Service.Templates.Texts.{newline}
use zzte.Prelude.{
  Bool, List, Option, Text, [], any, arith, codes, false, if◌then◌else◌, inl, inr, int_eq, length,
  nat_eq, none, not, some, suc, text_eq, true, zero, ℕ, ◌++◌, ◌+◌, ◌-◌, ◌||◌, ◌∷◌, ◌⊎◌,
}

-- A value, or the text of an error.
abbrev pub Fallible : Type 0 → Type 0
Fallible A = Text ⊎ A

-- A session: what a write returns, and what each read up to a prompt returns after it.
pub record TelnetSession : Type 0 where
  pub write : Text → Option Text
  pub read_until : Text → ℕ → Fallible Text

-- `Connect`, at the time of the run
abbrev pub Telnet : Type 0
Telnet = OltConfig → Fallible TelnetSession

abbrev pub batch_text : List Text → Text
batch_text [] = []
batch_text (cmd ∷ cmds) = cmd ++ newline ∷ batch_text cmds

-- the reads of `SendCommands`: `left` prompts are still to come, of `total`
unfoldable pub read_prompts : TelnetSession → Text → ℕ → ℕ → Text → Fallible Text
read_prompts sess text total zero output = inr output
read_prompts sess text total (suc left) output = elim (sess.read_until text (total - suc left)) [
  | inl e ↦ inl (
      codes "read error after command "
      ++ (itoa_nat (total - left) ++ (codes "/" ++ (itoa_nat total ++ (codes ": " ++ e)))))
  | inr data' ↦ read_prompts sess text total left (output ++ data')
]

-- `SendCommands`; on an error the only caller drops the output.
unfoldable pub send_commands : TelnetSession → List Text → Fallible Text
send_commands sess cmds = elim (sess.write (batch_text cmds)) [
  | some e ↦ inl e
  | none ↦ read_prompts sess (batch_text cmds) (length cmds) (length cmds) []
]

-- `validateProvisioningOutput`, by its error
unfoldable pub validate_provisioning_output : Text → Option Text
validate_provisioning_output output =
    let lower_output = to_lower output in
    if contains lower_output (codes "error") || contains lower_output (codes "invalid")
    then some (codes "OLT Error: " ++ output)
    else none

-- `shouldWaitForONUInitialization`
unfoldable pub should_wait_for_onu_initialization : List Text → Bool
should_wait_for_onu_initialization commands =
    any (λ cmd. has_prefix (trim_space cmd) (codes "pon-onu-mng")) commands

-- the entry that `addLog` appends
abbrev pub entry : Text → Text → Text → Text → ProvisioningLog
entry step command status message' = record {
  step = step;
  command = command;
  status = status;
  message = message';
}

-- `appendProvisioningStepLogs`, from the step `n`
unfoldable pub step_logs : ℕ → List Text → List ProvisioningLog
step_logs n [] = []
step_logs n (cmd ∷ cmds) =
    entry (codes "Step " ++ itoa_nat n) cmd (codes "success") (codes "OK") ∷ step_logs (n + 1) cmds

-- `prepareProvisioning`: the OLT, the commands and the completed request
unfoldable pub prepare_provisioning :
    OltManager → ProvisioningRequest → Fallible (OltInstance × List Text × ProvisioningRequest)
prepare_provisioning m req = elim (get_olt req.olt_id m) [
  | err e ↦ inl (codes "OLT not found")
  | ok olt ↦
      (let hydrated = apply_vlan_profiles olt req in
        elim (generate_provisioning_commands hydrated) [
          | err e ↦ inl (codes "Unknown Template ID: " ++ hydrated.template_id)
          | ok commands ↦ inr (olt, commands, hydrated)
        ])
]

abbrev pub failure : Text → List ProvisioningLog → ProvisioningResponse
failure message' logs = record { success = false; message = message'; logs = logs }

abbrev pub info : Text
info = codes "info"

abbrev pub failed : Text
failed = codes "failed"

abbrev pub init_entry : ProvisioningRequest → ProvisioningLog
init_entry req =
    entry (codes "Init") (codes "-") info
      (codes "Starting provisioning for SN: " ++ (req.sn ++ (codes " on " ++ req.olt_id)))

abbrev pub connecting : ProvisioningLog
connecting = entry (codes "Connect") (codes "-") info (codes "Connecting to OLT Telnet...")

-- the entries once the session is open
abbrev pub connected_logs : ProvisioningRequest → List Text → List ProvisioningLog
connected_logs req commands =
    init_entry req
    ∷ connecting
    ∷ entry (codes "Connect") (codes "-") (codes "success") (codes "Connected to OLT")
    ∷ (if should_wait_for_onu_initialization commands
        then entry (codes "Wait") (codes "-") info (codes "Waiting 3s for ONU initialization...")
          ∷ []
        else [])

abbrev pub finish_entry : Text → ProvisioningLog
finish_entry template_id =
    entry (codes "Finish") (codes "-") (codes "success")
      (codes "Provisioning completed successfully for template " ++ template_id)

-- `ProvisionONU` once the session is open
unfoldable pub run_batch :
    TelnetSession → ProvisioningRequest → List Text → Text → ProvisioningResponse
run_batch sess req commands template_id =
    let logs = connected_logs req commands in
    let script = join newline commands in
    elim (send_commands sess commands) [
      | inl e ↦
          failure (codes "Provisioning failed during batch execution")
            (logs ++ entry (codes "Batch") script failed e ∷ [])
      | inr output ↦ elim (validate_provisioning_output output) [
        | some e ↦
            failure (codes "Provisioning stopped due to OLT error")
              (logs ++ entry (codes "Batch") script failed e ∷ [])
        | none ↦ record {
          success = true;
          message = codes "Provisioning Successful";
          logs = logs ++ (step_logs 1 commands ++ finish_entry template_id ∷ []);
        }
      ]
    ]

-- `ProvisionONU`
unfoldable pub provision_onu : Telnet → OltManager → ProvisioningRequest → ProvisioningResponse
provision_onu telnet m req = elim (prepare_provisioning m req) [
  | inl e ↦ failure e (init_entry req ∷ entry (codes "Template") (codes "-") failed e ∷ [])
  | inr (olt, commands, hydrated) ↦ elim (telnet olt.config) [
    | inl e ↦
        failure (codes "Telnet Connection Failed")
          (init_entry req ∷ connecting ∷ entry (codes "Connect") (codes "-") failed e ∷ [])
    | inr sess ↦ run_batch sess req commands hydrated.template_id
  ]
]

-- `PreviewProvisioning`
unfoldable pub preview_provisioning : OltManager → ProvisioningRequest → Fallible (List Text)
preview_provisioning m req = elim (prepare_provisioning m req) [
  | inl e ↦ inl e
  | inr (olt, commands, hydrated) ↦ inr commands
]
