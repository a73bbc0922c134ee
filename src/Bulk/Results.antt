-- ===== src/Bulk/Results.antt =====
-- The results of the bulk operations: one for each target, in order, and counted right.
use dawos_agent.Prelude.{
  ◌+◌, Text, ◌≡◌, refl, sym, ap, ◌∙◌, arith, length, length-map, count_if, count_if-le, List, [],
  ◌∷◌, ◌++◌, map, Result, ok, err,
}
use dawos_agent.Prelude.Exec.{Exec}
use dawos_agent.Bulk.{
  Daemon, BulkResultItem, BulkOperationResponse, RateLimitItem, terminate_one, each, item_of,
  respond, bulk_terminate, bulk_ratelimit, bulk_shaper_restore, post_terminate, post_ratelimit,
  post_shaper_restore,
}

target-item_of : (t : Text) (r : Result Text Text) → (item_of t r).target ≡ t
unfolding item_of
target-item_of t (ok m) = refl
target-item_of t (err e) = refl

module _ {W A : Type 0} (name : A → Text) (run : A → Exec W Text Text) where
  targets-each : (xs : List A) (w : W) → map (λ i. i.target) (each name run xs w).0 ≡ map name xs
  unfolding each
  targets-each [] w = refl
  targets-each (x ∷ xs) w =
      rw (target-item_of (name x) (run x w).0) (ap (λ l. name x ∷ l) (targets-each xs (run x w).1))

  pub each-append :
      (xs ys : List A) (w : W)
      → each name run (xs ++ ys) w ≡ (
        (each name run xs w).0 ++ (each name run ys (each name run xs w).1).0,
        (each name run ys (each name run xs w).1).1,
      )
  unfolding each
  each-append [] ys w = refl
  each-append (x ∷ xs) ys w =
      ap (λ r. (item_of (name x) (run x w).0 ∷ r.0, r.1)) (each-append xs ys (run x w).1)

map_same : (ts : List Text) → map (λ t. t) ts ≡ ts
map_same [] = refl
map_same (t ∷ ts) = ap (λ l. t ∷ l) (map_same ts)

-- A response lists `targets` in order, and its counts add up.
pub record Answers (targets : List Text) (response : BulkOperationResponse) : Type 0 where
  pub in_order : map (λ i. i.target) response.results ≡ targets
  pub all_there : response.total ≡ length targets
  pub add_up : response.succeeded + response.failed ≡ response.total
  pub successes : response.succeeded ≡ count_if (λ i. i.success) response.results

respond-Answers :
    (operation : _) (items : List BulkResultItem) (targets : List Text)
    → map (λ i. i.target) items ≡ targets
    → Answers targets (respond operation items)
unfolding respond
respond-Answers operation items targets same = record {
  in_order = same;
  all_there = sym (length-map (λ i. i.target) items) ∙ ap length same;
  add_up = omega (arith, count_if-le (λ i. i.success) items);
  successes = refl;
}

-- Each of the three bulk endpoints answers with one result for each target, in the order of the request
-- and whatever becomes of the others, and its two counts add up to the number of the targets.
pub post-Answers :
    (d : Daemon) (usernames : List Text) (items : List RateLimitItem) (w : d.World)
    → Answers usernames (post_terminate d usernames w).0
      × Answers (map (λ i. i.username) items) (post_ratelimit d items w).0
      × Answers usernames (post_shaper_restore d usernames w).0
unfolding post_terminate post_ratelimit post_shaper_restore bulk_terminate bulk_ratelimit
    bulk_shaper_restore
post-Answers d usernames items w = (
  respond-Answers "terminate" _ usernames (targets-each _ _ usernames w ∙ map_same usernames),
  respond-Answers "ratelimit" _ _ (targets-each _ _ items w),
  respond-Answers "shaper-restore" _ usernames (targets-each _ _ usernames w ∙ map_same usernames),
)

-- Each target is terminated on its own: a batch in two parts gives the results of the first part, and
-- then those that the second part gives in the world that the first one leaves.
pub bulk_terminate-append :
    (d : Daemon) (first second : List Text) (w : d.World)
    → bulk_terminate d (first ++ second) w ≡ (
      (bulk_terminate d first w).0 ++ (bulk_terminate d second (bulk_terminate d first w).1).0,
      (bulk_terminate d second (bulk_terminate d first w).1).1,
    )
unfolding bulk_terminate
bulk_terminate-append d first second w = each-append (λ u. u) (terminate_one d) first second w
