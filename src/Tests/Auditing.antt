-- ===== src/Tests/Auditing.antt =====
-- The audit of a small server.
use pulse_frix.Prelude.{◌≡◌, Option, none, some, List, [], ◌∷◌, Text, bytes, length, map, All, ltb}
use pulse_frix.Prelude.Int.{pos}
use pulse_frix.ServiceAudit.{Floats, number, texts, AgentResource}
use pulse_frix.ServiceAudit.Graph.{ServiceGraph}
use pulse_frix.ServiceAudit.Links.{new_service_graph}
use pulse_frix.ServiceAudit.Report.{build_service_audit, ServiceAuditResponse}
use pulse_frix.ServiceAudit.Sound.Whole.{build_service_audit-some}
use pulse_frix.ServiceAudit.Exempt.{IsFair, build_service_audit-IsFair}
use pulse_frix.ServiceAudit.Ranking.{IsRanked, build_service_audit-IsRanked}

-- Numbers that are whole, of which 0 is idle.
abbrev floats : Floats
floats = record { to_int64 = λ f. pos f; zero_float = 0; is_idle_cpu = λ f. ltb f 1 }

abbrev container : Text → Text → AgentResource
container name status = record {
  id = name;
  type = bytes "docker_container";
  name = name;
  status = status;
  health = [];
  ports = record { host = pos 5432; container = pos 5432 } ∷ [];
  networks = [];
  depends_on = bytes "db" ∷ [];
  attributes = (bytes "memory_bytes", number 99999999) ∷ [];
}

abbrev route : AgentResource
route = record {
  id = bytes "v";
  type = bytes "nginx_vhost";
  name = bytes "example.com";
  status = [];
  health = [];
  ports = [];
  networks = [];
  depends_on = [];
  attributes = (bytes "upstreams", texts (bytes "127.0.0.1:5432" ∷ [])) ∷ [];
}

abbrev resources : List AgentResource
resources =
    container (bytes "db") (bytes "exited")
    ∷ container (bytes "pulse-db") (bytes "running")
    ∷ route
    ∷ []

build_service_audit-some_example :
    (r : ServiceAuditResponse) × (build_service_audit floats resources ≡ some r)
    × (r.totals.services ≡ length r.nodes)
    × (r.totals.flagged ≡ length r.findings)
build_service_audit-some_example = build_service_audit-some floats resources

build_service_audit-IsFair_example :
    (g : ServiceGraph) × (r : ServiceAuditResponse) × (new_service_graph floats resources ≡ some g)
    × (build_service_audit floats resources ≡ some r)
    × All (IsFair g) r.findings
build_service_audit-IsFair_example = build_service_audit-IsFair floats resources

build_service_audit-IsRanked_example :
    (r : ServiceAuditResponse) × (build_service_audit floats resources ≡ some r)
    × IsRanked r.findings
build_service_audit-IsRanked_example = build_service_audit-IsRanked floats resources

-- The identifiers of the findings of an audit.
abbrev flagged : Option ServiceAuditResponse → List Text
flagged none = []
flagged (some r) = map (λ f. f.id) r.findings
