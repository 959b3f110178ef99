-- ===== src/Store/Servers.antt =====
-- memory.go, the servers. `new_id` is the identifier that `auth.NewID` draws.
use pulse_frix.Prelude.{
  ℕ, Bool, ◌&&◌, none, some, List, [], Text, bytes, text_eq, nat_eq, ◌==◌, select, if◌then◌else◌,
}
use pulse_frix.Dict
use pulse_frix.Model.{Server, Health}
use pulse_frix.Store.{Memory, Result, ok, err, Done, not_found, key}
use pulse_frix.Store.Sorting.{sort_slice, text_ltb}

unfoldable pub list_servers : Memory → Text → List Server
list_servers m org_id =
    sort_slice (λ a b. text_ltb a.hostname b.hostname)
      (select (λ s. s.org_id == org_id) (Dict.values m.servers))

unfoldable pub get_server : Memory → Text → Text → Result Server
get_server m org_id id = elim (Dict.get m.servers id) [
  | none ↦ err not_found
  | some s ↦ if s.org_id == org_id then ok s else err not_found
]

-- The row that is stored, which is also what the caller's pointer shows afterwards.
unfoldable pub filled_server : Text → Server → Text → ℕ → Server
filled_server org_id s new_id now = record s {
  id = if s.id == [] then new_id else s.id;
  org_id = org_id;
  created_at = if s.created_at == 0 then now else s.created_at;
}

unfoldable pub upsert_server : Memory → Text → Server → Text → ℕ → Result Server × Memory
unfolding filled_server
upsert_server m org_id s new_id now =
    let row = filled_server org_id s new_id now in
    (ok row, record m { servers = Dict.put m.servers row.id row })

unfoldable pub delete_server : Memory → Text → Text → Done × Memory
delete_server m org_id id = elim (Dict.get m.servers id) [
  | none ↦ (err not_found, m)
  | some s ↦
      if s.org_id == org_id
      then (
        ok tt,
        record m {
          servers = Dict.remove m.servers id;
          discovery = Dict.remove m.discovery (key org_id s.server_id);
          logs = Dict.remove m.logs (key org_id s.server_id);
          metrics = Dict.remove m.metrics (key org_id s.server_id);
          metric_hist = Dict.remove m.metric_hist (key org_id s.server_id);
        },
      )
      else (err not_found, m)
]

abbrev pub is_row : Text → Text → Server → Bool
is_row org_id server_id s = s.org_id == org_id && s.server_id == server_id

unfoldable pub touch_server_seen : Memory → Text → Text → ℕ → Health → Done × Memory
touch_server_seen m org_id server_id now status =
    elim (Dict.update_first (is_row org_id server_id)
      (λ s. record s { last_seen_at = now; status = status }) m.servers) [
        | none ↦ (err not_found, m)
        | some servers ↦ (ok tt, record m { servers = servers })
      ]

unfoldable pub refreshed : Text → ℕ → Health → Server → Server
refreshed hostname now status s = record s {
  hostname = if hostname == [] then s.hostname else hostname;
  status = status;
  last_seen_at = now;
}

unfoldable pub new_row : Text → Text → Text → Text → ℕ → Health → Server
new_row new_id org_id server_id hostname now status = record {
  id = new_id;
  org_id = org_id;
  server_id = server_id;
  hostname = hostname;
  mode = bytes "cloud";
  status = status;
  last_seen_at = now;
  created_at = now;
}

unfoldable pub ensure_server : Memory → Text → Text → Text → ℕ → Health → Text → Done × Memory
unfolding refreshed new_row
ensure_server m org_id server_id hostname now status new_id =
    elim (Dict.update_first (is_row org_id server_id) (refreshed hostname now status) m.servers) [
      | some servers ↦ (ok tt, record m { servers = servers })
      | none ↦ (
        ok tt,
        record m {
          servers = Dict.put m.servers new_id (new_row new_id org_id server_id hostname now status);
        },
      )
    ]
