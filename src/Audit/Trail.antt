-- ===== src/Audit/Trail.antt =====
-- What the audit trail holds, and what a query of it shows.
use mathlib.Core.List.{append-nil, append_assoc}
use dawos_agent.Prelude.{
  ℕ, ◌≤◌, text_eq, nat_eq, Bool, ◌&&◌, length, length-take, take, select, select-select,
  select-reverse, List, [], ◌∷◌, ◌++◌, reverse, ◌≡◌, refl, sym, ap, ◌∙◌, arith, ok, err, Bool-cases,
  inl, inr, if◌then◌else◌,
}
use dawos_agent.Prelude.Sets.{contains}
use dawos_agent.Prelude.Rings.{append_bounded-keep_last, keep_last, keep_last-nil, length-keep_last}
use dawos_agent.Audit.{
  AuditEntry, Request, Answer, AuditQuery, mutating_methods, entry_of, dispatch, record_answer,
  filtered, by_method, by_path, by_role, by_status, list_audit_entries,
}

-- The entry that a request ought to leave: one if it is mutating and was answered, exceptions apart.
unfoldable pub audited : Request → Answer → List AuditEntry
audited req (err e) = []
audited req (ok response) =
    if contains req.method mutating_methods then entry_of req response ∷ [] else []

unfoldable pub trail : List (Request × Answer) → List AuditEntry
unfolding audited
trail [] = []
trail ((req, answer) ∷ runs) = audited req answer ++ trail runs

unfoldable pub serve : ℕ → List (Request × Answer) → List AuditEntry → List AuditEntry
serve size [] buffer = buffer
serve size ((req, answer) ∷ runs) buffer = serve size runs (dispatch size req answer buffer).1

dispatch-keep_last :
    (size : ℕ) (req : Request) (answer : Answer) (past : List AuditEntry)
    → (dispatch size req answer (keep_last size past)).1
      ≡ keep_last size (past ++ audited req answer)
unfolding dispatch record_answer audited contains
dispatch-keep_last size req (err e) past =
    elim (Bool-cases (contains req.method mutating_methods)) [
      | inl logged ↦ rw (logged, append-nil past) refl
      | inr ignored ↦ rw (ignored, append-nil past) refl
    ]
dispatch-keep_last size req (ok response) past =
    elim (Bool-cases (contains req.method mutating_methods)) [
      | inl logged ↦ rw logged (append_bounded-keep_last size (entry_of req response) past)
      | inr ignored ↦ rw (ignored, append-nil past) refl
    ]

serve-keep_last :
    (size : ℕ) (runs : List (Request × Answer)) (past : List AuditEntry)
    → serve size runs (keep_last size past) ≡ keep_last size (past ++ trail runs)
unfolding serve trail
serve-keep_last size [] past = rw (append-nil past) refl
serve-keep_last size ((req, answer) ∷ runs) past =
    rw
      (
        dispatch-keep_last size req answer past,
        sym (append_assoc past (audited req answer) (trail runs)),
      )
      (serve-keep_last size runs (past ++ audited req answer))

-- From an empty buffer on, after any requests, the audit buffer holds the last entries, at most its
-- size, of the mutating requests that were answered, in their order. A request whose handling raised an
-- exception leaves none.
pub serve_lem :
    (size : ℕ) (runs : List (Request × Answer))
    → (serve size runs [] ≡ keep_last size (trail runs)) × (length (serve size runs []) ≤ size)
serve_lem size runs =
    let same = ap (serve size runs) (sym (keep_last-nil size)) ∙ serve-keep_last size runs [] in
    (same, rw same (length-keep_last size (trail runs)))

-- All the filters that a query gives let the entry through.
abbrev pub is_shown : AuditQuery → AuditEntry → Bool
is_shown q e = by_method q e && by_path q e && by_role q e && by_status q e

filtered-is_shown :
    (q : AuditQuery) (entries : List AuditEntry)
    → filtered q entries ≡ select (λ e. is_shown q e) entries
unfolding filtered
filtered-is_shown q entries =
    rw
      (
        select-select (by_path q) (by_method q) entries,
        select-select (by_role q) (λ e. by_method q e && by_path q e) entries,
        select-select (by_status q) (λ e. (by_method q e && by_path q e) && by_role q e) entries,
      )
      refl

-- A query answers the newest entries that pass all its filters, newest first, at most its limit.
pub list_audit_entries_lem :
    (size : ℕ) (q : AuditQuery) (buffer : List AuditEntry)
    → ((list_audit_entries size q buffer).entries
        ≡ take q.limit (select (λ e. is_shown q e) (reverse buffer)))
      × ((list_audit_entries size q buffer).count
          ≡ length (list_audit_entries size q buffer).entries)
      × ((list_audit_entries size q buffer).count ≤ q.limit)
unfolding list_audit_entries
list_audit_entries_lem size q buffer = (
  ap (take q.limit)
      (ap reverse (filtered-is_shown q buffer) ∙ sym (select-reverse (λ e. is_shown q e) buffer)),
  refl,
  omega (arith, length-take q.limit (reverse (filtered q buffer))),
)
