-- ===== src/DataPlatform/Incidents/Diagnosis/Failing.antt =====
-- A tool whose call fails.
use kafka_order_event_platfo.Prelude.{
  String, Bool, true, false, ◌&&◌, List, [], ◌∷◌, ◌++◌, map, elem, any, ◌==◌, string_eq,
  if◌then◌else◌, ◌≡◌, refl, ap, ◌∙◌, arith, All, All-map, beq_refl, elem-append, elem-map,
  any-append, any-map,
}
use kafka_order_event_platfo.Dict.{Dict, keys, elem-keys-insert}
use kafka_order_event_platfo.Text.{le_text}
use kafka_order_event_platfo.Sorting.{sorted, distinct, elem-sorted, elem-distinct, any-sorted}
use kafka_order_event_platfo.DataPlatform.Results.{ok, first_ok}
use kafka_order_event_platfo.DataPlatform.Incidents.{
  IncidentAlert, IncidentReport, EvidenceItem, Hypothesis, degraded,
}
use kafka_order_event_platfo.DataPlatform.Incidents.Tools.{
  Client, ToolCall, Answer, answered, failed, escapes, Collected, asset_text, calls, is_skipped,
  settle_answer, collect_from, collect,
}
use kafka_order_event_platfo.DataPlatform.Incidents.Inventory.{
  DiagnosisCodec, inventory, error_evidence, response_evidence, by_key,
}
use kafka_order_event_platfo.DataPlatform.Incidents.Correlation.{
  unavailable, unknowns_of, correlate, explain, ids_from, Responses, incomplete_unknowns, no_cause,
}
use kafka_order_event_platfo.DataPlatform.Incidents.Diagnosis.{diagnose, is_degraded, has_errors}
use kafka_order_event_platfo.DataPlatform.Incidents.Diagnosis.Parts.{
  Parts, evidence_of, diagnose-Parts,
}

-- `errors` has the tool.
abbrev HasFailed : String → Collected → Type 0
HasFailed tool s = elem tool (keys s.errors) ≡ true

settle_answer-keeps :
    (tool : String) (c : ToolCall) (w : Answer) (s : Collected) (skipped : Bool) {t : Collected}
    → (if skipped then ok s else settle_answer c w s) ≡ ok t
    → HasFailed tool s
    → HasFailed tool t
unfolding settle_answer
settle_answer-keeps tool c w s true h f = ground arith
settle_answer-keeps tool c (answered response) s false h f = ground arith
settle_answer-keeps tool c (failed category) s false h f =
    ground (arith, elem-keys-insert c.tool tool category s.errors)
settle_answer-keeps tool c (escapes e) s false h f = ground arith

settle_answer-fails :
    (c : ToolCall) (category : String) (s : Collected) {t : Collected}
    → settle_answer c (failed category) s ≡ ok t
    → HasFailed c.tool t
unfolding settle_answer
settle_answer-fails c category s h =
    ground (arith, elem-keys-insert c.tool c.tool category s.errors, beq_refl c.tool)

module _ (client : Client) (asset : String) where
  collect_from-keeps :
      (tool : String) (cs : List ToolCall) (s : Collected) {t : Collected}
      → collect_from client asset cs s ≡ ok t
      → HasFailed tool s
      → HasFailed tool t
  unfolding collect_from
  collect_from-keeps tool [] s h f = ground arith
  collect_from-keeps tool (c ∷ cs) s h f =
      let (u, first, rest) =
        first_ok
          (if is_skipped asset c.arguments
            then ok s
            else settle_answer c (client c.tool c.arguments) s)
          (collect_from client asset cs) h in
      collect_from-keeps tool cs u rest (
        settle_answer-keeps tool c (client c.tool c.arguments) s (is_skipped asset c.arguments)
          first f)

  -- The call is made and fails.
  abbrev pub Fails : ToolCall → Type 0
  Fails c =
      (is_skipped asset c.arguments ≡ false)
      × ((category : String) × (client c.tool c.arguments ≡ failed category))

  collect_from-Fails :
      (cs : List ToolCall) (s : Collected) {t : Collected}
      → collect_from client asset cs s ≡ ok t
      → All (λ (c : ToolCall). Fails c → HasFailed c.tool t) cs
  unfolding collect_from
  collect_from-Fails [] s h = tt
  collect_from-Fails (c ∷ cs) s h =
      let (u, first, rest) =
        first_ok
          (if is_skipped asset c.arguments
            then ok s
            else settle_answer c (client c.tool c.arguments) s)
          (collect_from client asset cs) h in
      (
        λ f.
            let (category, answer) = f.1 in
            collect_from-keeps c.tool cs u rest
              (settle_answer-fails c category s (rw (f.0, answer) at first)),
        collect_from-Fails cs u rest,
      )

-- the evidence of a tool with the status of an error
abbrev pub is_failure_of : String → EvidenceItem → Bool
is_failure_of tool item = item.source == tool && item.tool_status == "error"

-- What a report says of a tool whose call has failed.
pub record IsReported (tool : String) (r : IncidentReport) : Type 0 where
  pub not_complete : r.status ≡ degraded
  pub unknown : elem (unavailable tool) r.unknowns ≡ true
  pub listed : any (is_failure_of tool) r.evidence_inventory ≡ true

has_errors-elem :
    (tool : String) (errors : Dict String String)
    → elem tool (keys errors) ≡ true
    → has_errors errors ≡ true
has_errors-elem tool [] h = cc
has_errors-elem tool (_ ∷ _) h = refl

any-keys :
    (tool : String) (a : IncidentAlert) (errors : Dict String String)
    → elem tool (keys errors) ≡ true
    → any (λ e. is_failure_of tool (error_evidence a e)) errors ≡ true
unfolding error_evidence
any-keys tool a [] h = cc
any-keys tool a ((t, category) ∷ errors) h = ground (arith, any-keys tool a errors)

module _ (codec : DiagnosisCodec) (client : Client) (a : IncidentAlert) where
  inventory-lists :
      (tool : String) (s : Collected)
      → HasFailed tool s
      → any (is_failure_of tool) (evidence_of codec client a s) ≡ true
  unfolding inventory
  inventory-lists tool s h =
      let errors = sorted by_key s.errors in
      let responses = map (response_evidence codec a) (sorted by_key s.responses) in
      ground (
        arith,
        any-append (is_failure_of tool) responses (map (error_evidence a) errors),
        any-map (is_failure_of tool) (error_evidence a) errors,
        any-sorted by_key (λ e. is_failure_of tool (error_evidence a e)) s.errors,
        any-keys tool a s.errors h,
      )

  correlate-unknown :
      (responses : Responses) (errors : Dict String String) (evidence : List EvidenceItem)
      (tool : String)
      → elem tool (keys errors) ≡ true
      → {hs rejected : List Hypothesis} {unknowns : List String}
      → correlate a responses errors evidence ≡ ok (hs, rejected, unknowns)
      → elem (unavailable tool) unknowns ≡ true
  unfolding correlate unknowns_of
  correlate-unknown responses errors evidence tool h {hs} {rejected} {unknowns} e =
      let (found, _, rest) = first_ok (explain a.alert_type responses (ids_from evidence [])) _ e in
      let given = elem-map unavailable tool (keys errors) h in
      let all = elem-append (unavailable tool) (map unavailable (keys errors)) in
      ground (arith, given, all (incomplete_unknowns evidence ++ no_cause found))

  Parts-IsReported :
      {r : IncidentReport} (p : Parts codec client a r) (tool : String)
      → HasFailed tool p.collected
      → IsReported tool r
  unfolding is_degraded
  Parts-IsReported {r} p tool h =
      let evidence = evidence_of codec client a p.collected in
      record {
        not_complete = ground (arith, p.rated, has_errors-elem tool p.collected.errors h);
        unknown =
            ap (elem (unavailable tool)) p.unknown_texts
            ∙ elem-sorted le_text (unavailable tool) (distinct p.all_unknowns)
            ∙ elem-distinct (unavailable tool) p.all_unknowns
            ∙ correlate-unknown p.collected.responses p.collected.errors evidence tool h
                p.correlated;
        listed = ap (any (is_failure_of tool)) p.inventoried ∙ inventory-lists tool p.collected h;
      }

  -- Let a diagnosis return. For every tool that it calls, if the call fails, then the report is a
  -- degraded one, names the tool among its unknowns, and lists it in its inventory with the status
  -- of an error.
  pub diagnose-IsReported :
      {r : IncidentReport}
      → diagnose codec client a ≡ ok r
      → All (λ (c : ToolCall). Fails client (asset_text a) c → IsReported c.tool r) (calls a)
  unfolding collect
  diagnose-IsReported {r} h =
      let p = diagnose-Parts codec client a h in
      All-map (λ (c : ToolCall). Fails client (asset_text a) c → HasFailed c.tool p.collected)
        (λ (c : ToolCall). Fails client (asset_text a) c → IsReported c.tool r) (calls a)
        (λ c kept fails. Parts-IsReported p c.tool (kept fails))
        (collect_from-Fails client (asset_text a) (calls a) _ p.called)
