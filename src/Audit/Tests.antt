-- ===== src/Audit/Tests.antt =====
-- Runs of the audit middleware and endpoint, and their theorems at concrete inputs.
use dawos_agent.Prelude.{
  ◌≤◌, codes, text_eq, ◌≡◌, refl, length, take, select, some, none, List, [], ◌∷◌, reverse, ok, err,
}
use dawos_agent.Prelude.Rings.{keep_last}
use dawos_agent.Prelude.Sets.{contains}
use dawos_agent.Prelude.Texts.{starts_with, to_upper}
use dawos_agent.Audit.{Request, Response, Answer, AuditQuery, entry_of, list_audit_entries}
use dawos_agent.Audit.Trail.{trail, serve, serve_lem, is_shown, list_audit_entries_lem}

abbrev post : Request
post = record {
  method = codes "POST";
  path = codes "/api/v1/config/apply";
  client_host = none;
  request_id = codes "r";
  timestamp = codes "t";
  duration_ms = 3;
}

abbrev applied : Response
applied = record { status_code = 200; state_role = some (codes "admin") }

abbrev runs : List (Request × Answer)
runs =
    (post, ok applied)
    ∷ (post, err (codes "KeyError"))
    ∷ (record post { method = codes "GET" }, ok applied)
    ∷ []

abbrev by_posts : AuditQuery
by_posts = record {
  limit = 10;
  method = some (codes "post");
  path = some (codes "/api");
  role = none;
  status = some 200;
}

only_the_answered : length (trail runs) ≡ 1
unfolding trail contains
only_the_answered = refl

found : (list_audit_entries 1000 by_posts (entry_of post applied ∷ [])).count ≡ 1
unfolding list_audit_entries starts_with to_upper entry_of
found = refl

serve_lem_example :
    (serve 1000 runs [] ≡ keep_last 1000 (trail runs)) × (length (serve 1000 runs []) ≤ 1000)
serve_lem_example = serve_lem 1000 runs

list_audit_entries_lem_example :
    ((list_audit_entries 1000 by_posts (entry_of post applied ∷ [])).entries
      ≡ take 10 (select (λ e. is_shown by_posts e) (reverse (entry_of post applied ∷ []))))
    × ((list_audit_entries 1000 by_posts (entry_of post applied ∷ [])).count
        ≡ length (list_audit_entries 1000 by_posts (entry_of post applied ∷ [])).entries)
    × ((list_audit_entries 1000 by_posts (entry_of post applied ∷ [])).count ≤ 10)
list_audit_entries_lem_example = list_audit_entries_lem 1000 by_posts (entry_of post applied ∷ [])
