-- ===== src/Bulk/Tests.antt =====
-- Runs of the bulk operations, and their theorems at concrete inputs.
use dawos_agent.Prelude.{
  Text, codes, text_eq, ◌≡◌, refl, ◌==◌, some, List, [], ◌∷◌, ◌++◌, map, Result, ok, err,
  if◌then◌else◌,
}
use dawos_agent.Prelude.Texts.Lines.{lines_of}
use dawos_agent.Bulk.{
  Daemon, Command, terminate_username, match_username_ifname, RateLimitItem, ifname_in,
  post_terminate, post_ratelimit, post_shaper_restore,
}
use dawos_agent.Bulk.Results.{Answers, post-Answers}

abbrev listing : Text
listing = codes "ifname" ++ (10 ∷ codes "------" ++ (10 ∷ codes " ppp3"))

-- A daemon that logs its commands and knows one user.
abbrev reply : Command → Result Text Text
reply (terminate_username u) = if u == codes "ann" then ok [] else err (codes "no such user")
reply (match_username_ifname u) = if u == codes "ann" then ok listing else ok (codes "ifname")
reply _ = ok []

abbrev run_logged : Command → List Command → Result Text Text × List Command
run_logged c log = (reply c, c ∷ log)

abbrev logger : Daemon
logger = record { World = List Command; run_cmd = run_logged }

abbrev faster : RateLimitItem
faster = record { username = codes "ann"; rate = codes "5M/20M" }

finds_ppp3 : ifname_in listing ≡ some (codes "ppp3")
unfolding ifname_in lines_of
finds_ppp3 = refl

counts : (post_terminate logger (codes "bob" ∷ codes "ann" ∷ []) []).0.succeeded ≡ 1
unfolding post_terminate
counts = refl

post-Answers_example :
    Answers
      (codes "bob" ∷ codes "ann" ∷ [])
      (post_terminate logger (codes "bob" ∷ codes "ann" ∷ []) []).0
    × Answers (map (λ i. i.username) (faster ∷ [])) (post_ratelimit logger (faster ∷ []) []).0
    × Answers
        (codes "bob" ∷ codes "ann" ∷ [])
        (post_shaper_restore logger (codes "bob" ∷ codes "ann" ∷ []) []).0
post-Answers_example = post-Answers logger (codes "bob" ∷ codes "ann" ∷ []) (faster ∷ []) []
