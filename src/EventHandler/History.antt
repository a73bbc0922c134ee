-- ===== src/EventHandler/History.antt =====
-- What the event log keeps and what the history shows.
use dawos_agent.Prelude.{
  ℕ, ◌≤◌, Text, text_eq, nat_eq, false, ◌==◌, length, take, List, [], ◌∷◌, ◌++◌, reverse, ◌≡◌, ◌≢◌,
  sym, ap, ◌∙◌, arith, ok, err, Bool-cases, inl, inr, if◌then◌else◌,
}
use dawos_agent.Prelude.Sets.{contains}
use dawos_agent.Prelude.Rings.{
  append_bounded-keep_last, keep_last, length-keep_last, reverse-keep_last,
}
use mathlib.Core.List.{append-nil, append_assoc}
use dawos_agent.EventHandler.Fire.{fire_event_lem}
use dawos_agent.EventHandler.{
  Entry, Handler, Endpoints, valid_events, event_log_maxlen, fire_event, event_history,
}

-- A request to fire an event, with what the world makes of it.
pub record Firing : Type 0 where
  pub env : Endpoints
  pub timestamp : Text
  pub event : Text
  pub payload : Text

abbrev pub fire : Firing → Handler → Handler
fire f s = (fire_event f.env f.timestamp f.event f.payload s).1

unfoldable pub fire_all : List Firing → Handler → Handler
fire_all [] s = s
fire_all (f ∷ fs) s = fire_all fs (fire f s)

-- The entry that a firing answers, if its event is valid.
unfoldable pub answered : Firing → Handler → List Entry
answered f s = elim (fire_event f.env f.timestamp f.event f.payload s).0 [
  | err e ↦ []
  | ok entry ↦ entry ∷ []
]

-- All that were answered, oldest first.
unfoldable pub entries : List Firing → Handler → List Entry
unfolding answered
entries [] s = []
entries (f ∷ fs) s = answered f s ++ entries fs (fire f s)

log-fire :
    (f : Firing) (past : List Entry) (s : Handler)
    → s.event_log ≡ keep_last event_log_maxlen past
    → (fire f s).event_log ≡ keep_last event_log_maxlen (past ++ answered f s)
unfolding answered fire_event keep_last contains
log-fire f past s h = elim (Bool-cases (contains f.event valid_events)) [
  | inl valid ↦
      let run = (fire_event_lem f.env f.timestamp f.event f.payload s).0 valid in
      rw (run.0, run.1, h) (append_bounded-keep_last event_log_maxlen _ past)
  | inr invalid ↦
      rw ((fire_event_lem f.env f.timestamp f.event f.payload s).1 invalid, append-nil past) h
]

log-fire_all :
    (fs : List Firing) (past : List Entry) (s : Handler)
    → s.event_log ≡ keep_last event_log_maxlen past
    → (fire_all fs s).event_log ≡ keep_last event_log_maxlen (past ++ entries fs s)
unfolding fire_all entries
log-fire_all [] past s h = rw (append-nil past) h
log-fire_all (f ∷ fs) past s h =
    rw (sym (append_assoc past (answered f s) (entries fs (fire f s))))
      (log-fire_all fs (past ++ answered f s) (fire f s) (log-fire f past s h))

newest_first :
    (limit : ℕ) (s : Handler) → limit ≢ 0 → event_history limit s ≡ take limit (reverse s.event_log)
unfolding event_history
newest_first limit s positive =
    ap (λ b. reverse (if b then s.event_log else keep_last limit s.event_log)) {x = limit == 0}
      {y = false} (ground arith)
    ∙ reverse-keep_last limit s.event_log

-- From an empty log on, after any firings, the history with a positive limit shows the newest entries
-- first, at most the limit, of those that were answered: of the last 1000 of them.
pub event_history_lem :
    (fs : List Firing) (limit : ℕ) (s : Handler)
    → s.event_log ≡ []
    → limit ≢ 0
    → (event_history limit (fire_all fs s)
        ≡ take limit (take event_log_maxlen (reverse (entries fs s))))
      × (length (fire_all fs s).event_log ≤ event_log_maxlen)
unfolding keep_last
event_history_lem fs limit s empty positive =
    let kept = log-fire_all fs [] s empty in
    (
      newest_first limit (fire_all fs s) positive
          ∙ ap (λ l. take limit (reverse l)) kept
          ∙ ap (take limit) (reverse-keep_last event_log_maxlen (entries fs s)),
      rw kept (length-keep_last event_log_maxlen (entries fs s)),
    )
