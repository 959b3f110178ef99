-- ===== src/Store/Alerts.antt =====
-- memory.go, the alert rules and instances.
use pulse_frix.Prelude.{none, some, List, [], Text, text_eq, ◌==◌, ltb, select, if◌then◌else◌}
use pulse_frix.Dict
use pulse_frix.Model.{Alert, AlertInstance}
use pulse_frix.Store.{Memory, Result, ok, err, Done, not_found}
use pulse_frix.Store.Sorting.{sort_slice, text_ltb}

unfoldable pub list_alerts : Memory → Text → List Alert
list_alerts m org_id =
    sort_slice (λ a b. text_ltb a.name b.name)
      (select (λ a. a.org_id == org_id) (Dict.values m.alerts))

unfoldable pub create_alert : Memory → Alert → Text → Result Alert × Memory
create_alert m a new_id =
    let row = record a { id = if a.id == [] then new_id else a.id } in
    (ok row, record m { alerts = Dict.put m.alerts row.id row })

unfoldable pub update_alert : Memory → Text → Alert → Done × Memory
update_alert m org_id a = elim (Dict.get m.alerts a.id) [
  | none ↦ (err not_found, m)
  | some existing ↦
      if existing.org_id == org_id
      then (ok tt, record m { alerts = Dict.put m.alerts a.id (record a { org_id = org_id }) })
      else (err not_found, m)
]

unfoldable pub delete_alert : Memory → Text → Text → Done × Memory
delete_alert m org_id id = elim (Dict.get m.alerts id) [
  | none ↦ (err not_found, m)
  | some a ↦
      if a.org_id == org_id
      then (ok tt, record m { alerts = Dict.remove m.alerts id })
      else (err not_found, m)
]

unfoldable pub list_alert_instances : Memory → Text → List AlertInstance
list_alert_instances m org_id =
    sort_slice (λ a b. ltb b.started_at a.started_at)
      (select (λ i. i.org_id == org_id) (Dict.values m.instances))

unfoldable pub upsert_alert_instance : Memory → AlertInstance → Text → Done × Memory
upsert_alert_instance m i new_id =
    let row = record i { id = if i.id == [] then new_id else i.id } in
    (ok tt, record m { instances = Dict.put m.instances row.id row })
