-- ===== src/Conntrack/Tests.antt =====
-- Runs of the connection tracking operations, and their theorem at a concrete input.
use dawos_agent.Prelude.{
  ℕ, Text, codes, text_eq, nat_eq, Bool, true, false, ◌==◌, not, [], ◌∷◌, ok, err, ◌≡◌, refl,
  if◌then◌else◌,
}
use dawos_agent.Prelude.Dict.{Dict, get, put}
use dawos_agent.Shell.{Shell, Reply, run, Effects}
use dawos_agent.Conntrack.{
  Command, write_key, read_key, tee, lsmod, flush, full_key, short_keys, profiles, preset,
  read_timeouts, write_all, apply_profile, post_profile,
}
use dawos_agent.Conntrack.Applied.{effect, view, written, all_pass, post_profile_lem}

abbrev refused : Text
refused = full_key (codes "udp_timeout")

abbrev allows : Command → Bool
allows (write_key key n) = not (key == refused)
allows (read_key key) = true
allows (tee content) = true
allows lsmod = true
allows flush = true

-- A kernel that refuses to set one key.
exec_but_one : Command → Dict Text ℕ → Reply × Dict Text ℕ
unfolding effect
exec_but_one cmd d =
    (record { output = []; passed = allows cmd }, if allows cmd then effect cmd d else d)

abbrev host : Shell Command
host = record { World = Dict Text ℕ; exec = exec_but_one }

runs_but_one :
    (cmd : Command) (d : Dict Text ℕ)
    → (run host cmd d).1 ≡ (if (run host cmd d).0.passed then effect cmd d else d)
unfolding run exec_but_one
runs_but_one cmd d = refl

abbrev behaves : Effects host effect
behaves = record { view = λ d. d; runs = runs_but_one }

-- The first item of the profile stays set, and the others are not.
half_applied :
    (post_profile host (codes "gaming") []).1
    ≡ (full_key (codes "tcp_timeout_established"), 86400) ∷ []
unfolding post_profile apply_profile profiles get write_all run exec_but_one effect put
half_applied = refl

post_profile_lem_example :
    (view host behaves (post_profile host (codes "gaming") []).1
      ≡ written host (preset 86400 60 300) [] [])
    × (all_pass host (preset 86400 60 300) [] ≡ false
        → (post_profile host (codes "gaming") []).0 ≡ err 500)
    × (all_pass host (preset 86400 60 300) [] ≡ true
        → (post_profile host (codes "gaming") []).0
          ≡ ok (read_timeouts host short_keys (write_all host (preset 86400 60 300) []).1).0)
post_profile_lem_example =
    (post_profile_lem host behaves (codes "gaming") []).0 (preset 86400 60 300)
      (unfold profiles get in refl)
