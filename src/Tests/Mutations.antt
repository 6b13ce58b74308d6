-- ===== src/Tests/Mutations.antt =====
-- Inputs for the mutations of indieweb2-bastion/graphql-dns-api/src/resolvers.rs.
use civic_connect.Prelude.{ℕ, ◌≡◌, true, none, some, List, [], ◌∷◌}
use civic_connect.Dns.Policy.{PolicyEnforcer, propose, execute, run}
use civic_connect.Dns.Mutations.{Request, ask_propose, ask_approve, ask_execute, serve}
use civic_connect.Dns.Mutations.Refinement.{serve_refines}

abbrev empty : PolicyEnforcer ℕ
empty = record {
  policy = record {
    version = "0.1.0";
    capabilities = [];
    mutations = [];
    roles = [];
    routes = [];
    consent_bindings = [];
    constraints = record { require_mtls = true; log_all_mutations = true; max_rate_rpm = 120 };
  };
  proposals = [];
}

abbrev requests : List (Request ℕ)
requests =
    ask_propose "p1" (some 100) (some "alice") "mutate_dns" 7
    ∷ ask_approve none "p1"
    ∷ ask_execute (some 200) "p1"
    ∷ []

serve_refines_example :
    serve empty requests
    ≡ run empty (propose "p1" (some 100) "mutate_dns" "alice" 7 ∷ execute "p1" (some 200) ∷ [])
serve_refines_example = serve_refines empty requests
