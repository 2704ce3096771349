-- ===== src/DataPlatform/Incidents/Markdown.antt =====
-- render_markdown of incidents.py: a report as text.
use Prim.Native.String.{◌++◌ as concat}
use kafka_order_event_platfo.Prelude.{String, List, ◌∷◌, ◌++◌, map}
use kafka_order_event_platfo.Text.{join, or_text}
use kafka_order_event_platfo.DataPlatform.Incidents.{
  Fact, Hypothesis, Confidence, high_confidence, medium_confidence, low_confidence, IncidentReport,
  ReportStatus, completed, degraded,
}

abbrev pub status_text : ReportStatus → String
status_text completed = "completed"
status_text degraded = "degraded"

abbrev pub confidence_text : Confidence → String
confidence_text high_confidence = "high"
confidence_text medium_confidence = "medium"
confidence_text low_confidence = "low"

unfoldable pub fact_line : Fact → String
fact_line f = concat "- " (concat f.statement (concat " Evidence: " (join ", " f.evidence)))

unfoldable pub hypothesis_line : Hypothesis → String
hypothesis_line h = concat "- [" (
    concat (confidence_text h.confidence) (
      concat "] "
        (concat h.description (concat " Evidence: " (or_text (join ", " h.evidence) "none")))))

abbrev pub bullet : String → String
bullet s = concat "- " s

-- an empty line, a title and an empty line before the lines
abbrev pub section : String → List String → List String
section title lines = "" ∷ title ∷ "" ∷ lines

unfoldable pub markdown_lines : IncidentReport → List String
unfolding fact_line hypothesis_line
markdown_lines r =
    concat "# Incident " r.incident_id
    ∷ ""
    ∷ concat "Status: `" (concat (status_text r.status) "`")
    ∷ ""
    ∷ r.summary
    ∷ (section "## Confirmed facts" (map fact_line r.confirmed_facts)
        ++ (section "## Hypotheses" (map hypothesis_line r.hypotheses)
            ++ (section "## Rejected hypotheses" (map hypothesis_line r.rejected_hypotheses)
                ++ (section "## Unknowns" (map bullet r.unknowns)
                    ++ (section "## Affected assets" (map bullet r.affected_assets)
                        ++ (section "## Recommended actions" (map bullet r.recommended_actions)
                            ++ (section "## Backfill plan" (map bullet r.backfill_plan)
                                ++ (section "## Validation plan" (map bullet r.validation_plan)
                                    ++ section "## Human approval required"
                                        (map bullet r.human_approval_required)))))))))

unfoldable pub render_markdown : IncidentReport → String
unfolding markdown_lines join
render_markdown r = concat (join "\n" (markdown_lines r)) "\n"
