-- ===== src/Service/Provisioning/Flow.antt =====
-- What a provisioning run reports.
use zzte.Strings.{contains, to_lower}
use zzte.Domain.{OltInstance, ProvisioningRequest, ProvisioningLog, ProvisioningResponse}
use zzte.Service.Manager.{OltManager}
use zzte.Service.Provisioning.{
  Telnet, TelnetSession, Fallible, send_commands, validate_provisioning_output, step_logs,
  prepare_provisioning, connected_logs, failed, finish_entry, preview_provisioning, provision_onu,
  run_batch,
}
use zzte.Prelude.{
  List, Option-cases, Text, [], arith, codes, false, inl, inr, int_eq, nat_eq, none, refl, text_eq,
  true, ◌++◌, ◌∷◌, ◌≡◌, ◌⊎◌,
}

-- The last entry of a log.
abbrev pub last_status : List ProvisioningLog → Text
last_status [] = []
last_status (l ∷ []) = l.status
last_status (l ∷ k ∷ logs) = last_status (k ∷ logs)

last_status-append :
    (logs : List ProvisioningLog) (l : ProvisioningLog) → last_status (logs ++ l ∷ []) ≡ l.status
last_status-append [] l = refl
last_status-append (k ∷ []) l = refl
last_status-append (k ∷ j ∷ logs) l = last_status-append (j ∷ logs) l

-- The output of a run that went well.
abbrev pub IsClean : Text → Type 0
IsClean output =
    (contains (to_lower output) (codes "error") ≡ false)
    × (contains (to_lower output) (codes "invalid") ≡ false)

validate-IsClean : (output : Text) → validate_provisioning_output output ≡ none → IsClean output
unfolding validate_provisioning_output
validate-IsClean output h = (ground (arith, h), ground (arith, h))

-- What a run over an open session reports.
abbrev IsReport :
    TelnetSession → ProvisioningRequest → List Text → Text → ProvisioningResponse → Type 0
IsReport sess req commands template_id r =
    ((r.success ≡ false) × (last_status r.logs ≡ failed))
    ⊎ ((r.success ≡ true)
        × (r.logs
            ≡ connected_logs req commands
              ++ (step_logs 1 commands ++ finish_entry template_id ∷ []))
        × ((output : Text) × (send_commands sess commands ≡ inr output) × IsClean output))

Fallible-cases :
    {A : Type 0} (r : Fallible A) → ((e : Text) × (r ≡ inl e)) ⊎ ((a : A) × (r ≡ inr a))
Fallible-cases (inl e) = inl (e, refl)
Fallible-cases (inr a) = inr (a, refl)

run_batch-IsReport :
    (sess : TelnetSession) (req : ProvisioningRequest) (commands : List Text) (template_id : Text)
    → IsReport sess req commands template_id (run_batch sess req commands template_id)
unfolding run_batch
run_batch-IsReport sess req commands template_id =
    elim (Fallible-cases (send_commands sess commands)) [
      | inl (e, h) ↦
          rw (h, run_batch) (inl (refl, last_status-append (connected_logs req commands) _))
      | inr (output, h) ↦ elim (Option-cases (validate_provisioning_output output)) [
        | inl k ↦ rw (h, run_batch, k) (inr (refl, refl, (output, refl, validate-IsClean output k)))
        | inr (e, k) ↦
            rw (h, run_batch, k) (inl (refl, last_status-append (connected_logs req commands) _))
      ]
    ]

-- A run either reports failure, and then the last entry of its log has the status "failed"; or it
-- reports success, and then the OLT was found, the commands are those of the preview, the session
-- was opened, every prompt was read, the output has neither "error" nor "invalid" in any letter
-- case, and the log has, in order, one step for each command before its last entry.
pub provision_onu-report :
    (telnet : Telnet) (m : OltManager) (req : ProvisioningRequest)
    → (((provision_onu telnet m req).success ≡ false)
        × (last_status (provision_onu telnet m req).logs ≡ failed))
      ⊎ (((provision_onu telnet m req).success ≡ true)
          × ((olt : OltInstance) × (commands : List Text) × (hydrated : ProvisioningRequest)
              × (prepare_provisioning m req ≡ inr (olt, commands, hydrated))
              × (preview_provisioning m req ≡ inr commands)
              × ((sess : TelnetSession) × (telnet olt.config ≡ inr sess)
                  × ((output : Text) × (send_commands sess commands ≡ inr output) × IsClean output))
              × ((provision_onu telnet m req).logs
                  ≡ connected_logs req commands
                    ++ (step_logs 1 commands ++ finish_entry hydrated.template_id ∷ []))))
unfolding provision_onu preview_provisioning
provision_onu-report telnet m req = elim (Fallible-cases (prepare_provisioning m req)) [
  | inl (e, h) ↦ rw (h, provision_onu) (inl (refl, refl))
  | inr ((olt, commands, hydrated), h) ↦ elim (Fallible-cases (telnet olt.config)) [
    | inl (e, k) ↦ rw (h, provision_onu, k) (inl (refl, refl))
    | inr (sess, k) ↦ elim (run_batch-IsReport sess req commands hydrated.template_id) [
      | inl bad ↦ rw (h, provision_onu, k) (inl bad)
      | inr (good, logs, (output, sent, clean)) ↦
          rw (h, provision_onu, preview_provisioning, k)
            (inr
              (good, (olt, commands, hydrated, refl, refl, (sess, k, (output, sent, clean)), logs)))
    ]
  ]
]
