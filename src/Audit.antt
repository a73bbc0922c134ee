-- ===== src/Audit.antt =====
-- dawos_agent/middleware.py, `AuditLogMiddleware`, and dawos_agent/routers/audit_router.py. What the
-- wrapped application answers is an argument: a status with the role it stored, or an exception. The
-- log line and the webhook of an entry are left out; durations are whole numbers.
pub mod Trail
mod Tests
use dawos_agent.Prelude.{
  ℕ, Text, codes, text_eq, nat_eq, Bool, true, false, ◌==◌, length, take, select, map, Option, none,
  some, List, [], ◌∷◌, reverse, Result, ok, err, if◌then◌else◌,
}
use dawos_agent.Prelude.Rings.{append_bounded}
use dawos_agent.Prelude.Sets.{contains}
use dawos_agent.Prelude.Texts.{starts_with, to_upper}

pub record AuditEntry : Type 0 where
  pub timestamp : Text
  pub method : Text
  pub path : Text
  pub client_ip : Text
  pub request_id : Text
  pub role : Text
  pub status : ℕ
  pub duration_ms : ℕ

-- The parts of a request that the middleware reads, and the two readings of the clock.
pub record Request : Type 0 where
  pub method : Text
  pub path : Text
  pub client_host : Option Text
  pub request_id : Text
  pub timestamp : Text
  pub duration_ms : ℕ

-- The application's response: its status and what `request.state.role` is afterwards, if it is set.
pub record Response : Type 0 where
  pub status_code : ℕ
  pub state_role : Option Text

-- The name of the exception that the application raised.
abbrev pub Answer : Type 0
Answer = Result Text Response

abbrev pub mutating_methods : List Text
mutating_methods = codes "POST" ∷ codes "PUT" ∷ codes "PATCH" ∷ codes "DELETE" ∷ []

abbrev or_dash : Option Text → Text
or_dash none = codes "-"
or_dash (some t) = t

unfoldable pub entry_of : Request → Response → AuditEntry
entry_of req response = record {
  timestamp = req.timestamp;
  method = req.method;
  path = req.path;
  client_ip = or_dash req.client_host;
  request_id = req.request_id;
  role = or_dash response.state_role;
  status = response.status_code;
  duration_ms = req.duration_ms;
}

-- `dispatch`: the answer goes on to the client, and the buffer of so many entries may grow.
record_answer : ℕ → Request → Answer → List AuditEntry → List AuditEntry
unfolding entry_of append_bounded
record_answer size req (err e) buffer = buffer
record_answer size req (ok response) buffer = append_bounded size (entry_of req response) buffer

unfoldable pub dispatch : ℕ → Request → Answer → List AuditEntry → Answer × List AuditEntry
unfolding record_answer contains
dispatch size req answer buffer =
    if contains req.method mutating_methods
    then (answer, record_answer size req answer buffer)
    else (answer, buffer)

-- The query parameters of the endpoint; `limit` is from 1 to 1000, or FastAPI answers 422.
pub record AuditQuery : Type 0 where
  pub limit : ℕ
  pub method : Option Text
  pub path : Option Text
  pub role : Option Text
  pub status : Option ℕ

-- A filter that is missing or empty lets everything through.
given : Option Text → (Text → Bool) → Bool
given none p = true
given (some []) p = true
given (some (c ∷ cs)) p = p (c ∷ cs)

unfoldable pub by_method : AuditQuery → AuditEntry → Bool
unfolding given to_upper
by_method q e = given q.method (λ m. e.method == map to_upper m)

unfoldable pub by_path : AuditQuery → AuditEntry → Bool
unfolding given starts_with
by_path q e = given q.path (λ p. starts_with p e.path)

unfoldable pub by_role : AuditQuery → AuditEntry → Bool
unfolding given
by_role q e = given q.role (λ r. e.role == r)

unfoldable pub by_status : AuditQuery → AuditEntry → Bool
by_status q e = elim q.status [ none ↦ true | some code ↦ e.status == code ]

pub record AuditListResponse : Type 0 where
  pub count : ℕ
  pub buffer_size : ℕ
  pub entries : List AuditEntry

unfoldable pub filtered : AuditQuery → List AuditEntry → List AuditEntry
unfolding by_method by_path by_role by_status
filtered q entries =
    select (by_status q) (select (by_role q) (select (by_path q) (select (by_method q) entries)))

unfoldable pub list_audit_entries : ℕ → AuditQuery → List AuditEntry → AuditListResponse
unfolding filtered
list_audit_entries size q buffer = record {
  count = length (take q.limit (reverse (filtered q buffer)));
  buffer_size = size;
  entries = take q.limit (reverse (filtered q buffer));
}
